-- ===== src/Tests/Http.antt =====
-- Runs for the HTTP service.
use netboot.Prelude.{
  ℕ, Bool, true, Option, ltb, length, if◌then◌else◌, le→ltb_false, ◌<◌, ◌≡◌, refl, false, none,
  some, [], ◌∷◌, ◌++◌, Bytes, All, arith,
}
use netboot.Prelude.Result.{ok}
use netboot.Prelude.Text.{literal}
use netboot.Strconv.{pos, format_int}
use netboot.Server.Strings.{ip_string}
use netboot.Server.Dhcp.{Machine, ipxe_url}
use netboot.Server.Booter.{Spec, found, BootFile}
use netboot.Server.Events.{machine_event}
use netboot.Server.Events.State
use netboot.Server.Http.{HttpSetup, file_query, ipxe_script_efi}
use netboot.Server.Http.Handlers.{script_for, handle_ipxe, handle_file, plain}
use netboot.Server.Http.Handlers.Served.{whole, file_log, CopiesWhole, handle_file-file_query}
use netboot.Server.Http.Handlers.Scripts.{handle_ipxe-ipxe_url}

abbrev mac : Bytes
mac = 2 ∷ 0 ∷ 0 ∷ 0 ∷ 0 ∷ 7 ∷ []

mac_bytes : All (λ c. c < 256) mac
mac_bytes =
    (omega arith, (omega arith, (omega arith, (omega arith, (omega arith, (omega arith, tt))))))

-- An ID with bytes that a query has to escape.
abbrev id : Bytes
id = b'a' ∷ b'&' ∷ b' ' ∷ []

id_bytes : All (λ c. c < 256) id
id_bytes = (omega arith, (omega arith, (omega arith, tt)))

abbrev file : BootFile
file = record { contents = 1 ∷ 2 ∷ 3 ∷ []; fails = false; size = pos 3 }

-- A spec with an EFI program.
abbrev spec : Spec
spec = record {
  kernel = [];
  initrd = [];
  efi = b'e' ∷ [];
  cmdline = [];
  message = [];
  ipxe_script = [];
}

-- A writer that takes a body in one piece.
abbrev whole_or_nothing : Option ℕ → Bytes → Bytes × Bool
whole_or_nothing none body = (body, true)
whole_or_nothing (some n) body = if ltb n (length body) then ([], false) else (body, true)

abbrev setup : HttpSetup
setup = record {
  booter = record {
    boot_spec = λ m. found spec;
    read_boot_file = λ i. some file;
    boot_file_name = none;
  };
  execute = λ text f. some text;
  quote = λ text. text;
  key = λ m. 7;
  copy = whole_or_nothing;
}

copies : CopiesWhole setup
copies none body h = refl
copies (some n) body h = rw (le→ltb_false n (length body) h)

handle_file-file_query_example :
    (handle_file setup 5
        (record { host = []; path = []; query = file_query id (literal "kernel") mac })
        []
      ≡ (whole file, file_log setup 5 State.kernel (literal "Sent kernel ") id mac []))
    × (handle_file setup 5
          (record { host = []; path = []; query = file_query id (literal "initrd") mac })
          []
        ≡ (whole file, file_log setup 5 State.initrd (literal "Sent initrd ") id mac []))
handle_file-file_query_example =
    handle_file-file_query setup 5 [] [] id mac file [] copies id_bytes refl refl mac_bytes refl
      refl (omega arith)

abbrev machine : Machine
machine = record { mac = mac; arch = 1 }

abbrev server_ip : Bytes
server_ip = 192 ∷ 168 ∷ 0 ∷ 1 ∷ []

abbrev host : Bytes
host = ip_string server_ip ++ (b':' ∷ format_int 80)

efi_script : script_for setup machine spec host ≡ ok (ipxe_script_efi machine spec host)
unfolding script_for
efi_script = refl

handle_ipxe-ipxe_url_example :
    (query : Bytes) × (ipxe_url server_ip 80 machine
      ≡ literal "http://" ++ (host ++ (literal "/_/ipxe?" ++ query)))
    × (handle_ipxe setup 5 (record { host = host; path = []; query = query }) [] ≡ (
      plain (ipxe_script_efi machine spec host),
      machine_event 7
          (record {
            timestamp = 5;
            state = State.ipxe_script;
            message = literal "Sent iPXE boot script";
          })
          [],
    ))
handle_ipxe-ipxe_url_example =
    handle_ipxe-ipxe_url setup 5 80 server_ip [] machine spec (ipxe_script_efi machine spec host) []
      refl mac_bytes (omega arith) refl efi_script
