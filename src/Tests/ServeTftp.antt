-- ===== src/Tests/ServeTftp.antt =====
-- Runs for the TFTP service.
use netboot.Prelude.{
  ◌≡◌, refl, true, false, some, length, ◌≤◌, none, List, [], ◌∷◌, ◌++◌, Bytes, All, arith,
}
use netboot.Prelude.Text.{literal}
use netboot.Prelude.Assoc.{Assoc, lookup}
use netboot.Prelude.Result.{ok}
use netboot.Net.{equal}
use netboot.Tftp.Request.{Rrq, parse_rrq}
use netboot.Tftp.Request.Grammar.{IsPair, encode_request, apply_all, fresh}
use netboot.Tftp.Transfer.{File}
use netboot.Tftp.Transfer.Acked.{acking}
use netboot.Tftp.Transfer.Negotiated.{cooperative}
use netboot.Tftp.Serve.{Turn, arrives}
use netboot.Server.Mac.{split}
use netboot.Tftp.Handlers.{file_path, render}
use netboot.Tftp.Handlers.Below.{IsName, file_path-IsName}
use netboot.Server.Dhcp.{boot_path}
use netboot.Server.ServeTftp.{settings, serve_tftp}
use netboot.Server.ServeTftp.Booted.{IsBooted, program_file, serve_tftp-IsBooted}

abbrev mac : Bytes
mac = 2 ∷ 0 ∷ 0 ∷ 0 ∷ 0 ∷ 7 ∷ []

abbrev program : Bytes
program = 77 ∷ 90 ∷ 1 ∷ 2 ∷ 3 ∷ 4 ∷ 5 ∷ 6 ∷ 7 ∷ 8 ∷ []

abbrev programs : Assoc Bytes
programs = (2, program) ∷ []

abbrev client : Bytes
client = 10 ∷ 0 ∷ 0 ∷ 9 ∷ []

-- A datagram that is no request, from somebody else.
abbrev noise : Turn
noise = arrives (10 ∷ 0 ∷ 0 ∷ 8 ∷ []) (0 ∷ 9 ∷ []) none

abbrev options : List (Bytes × Bytes)
options = (literal "blksize", b'8' ∷ []) ∷ []

abbrev request : Rrq
request = record { filename = boot_path mac 2; block_size = 8; want_size = false }

options_taken : apply_all (fresh (boot_path mac 2)) options ≡ ok request
unfolding apply_all parse_rrq
options_taken = refl

program_there : lookup 2 programs ≡ some program
unfolding lookup
program_there = refl

options_printable : All IsPair options
options_printable = omega arith

request_fits : length (encode_request (boot_path mac 2) options) ≤ 512
unfolding boot_path
request_fits = omega arith

serve_tftp-IsBooted_example :
    IsBooted client
      (boot_path mac 2)
      program
      request
      (serve_tftp programs true (
        noise
        ∷ arrives client
            (encode_request (boot_path mac 2) options)
            (some (acking [] (cooperative settings request (program_file program))))
        ∷ [])).0
serve_tftp-IsBooted_example =
    serve_tftp-IsBooted programs mac program 2 refl (omega arith) (omega arith) program_there
      (noise ∷ []) [] client options request tt options_printable options_taken request_fits

abbrev big : File
big = record { contents = program; fails = false; size = 0 }

abbrev root : List Bytes
root = (b's' ∷ b'r' ∷ b'v' ∷ []) ∷ []

root-IsName : All IsName root
root-IsName = (
  record {
    no_slash = ((λ e. omega arith), ((λ e. omega arith), ((λ e. omega arith), tt)));
    not_empty = refl;
    not_dot = unfold equal in refl;
    not_dots = unfold equal in refl;
  },
  tt,
)

file_path-IsName_example :
    (ps : List Bytes) × All IsName ps
    × (file_path (render root) (literal "../../etc/passwd") ≡ render (root ++ ps))
file_path-IsName_example = file_path-IsName root (literal "../../etc/passwd") root-IsName

traversal : file_path (render root) (literal "../a//./b/../c") ≡ literal "/srv/a/c"
unfolding file_path equal split
traversal = refl
