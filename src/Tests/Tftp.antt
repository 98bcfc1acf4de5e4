-- ===== src/Tests/Tftp.antt =====
-- Runs for the package tftp.
use netboot.Prelude.{
  ℕ, ◌≤◌, ◌≡◌, ◌≢◌, refl, false, none, some, List, [], ◌∷◌, ◌++◌, Bytes, All, arith, ◌⊎◌, replicate,
}
use netboot.Prelude.Text.{literal}
use netboot.Prelude.Result.{ok, err}
use netboot.Tftp.Request.{Rrq, parse_rrq, tftp_error, out_of_fuel as out_of_options}
use netboot.Tftp.Request.Termination.{parse_rrq-ne-out_of_fuel}
use netboot.Tftp.Request.Grammar.{
  IsPrintable, IsPair, encode_request, apply_all, fresh, parse_rrq-encode, parse_rrq_sound,
}
use netboot.Tftp.Conn.Aborted.{heard, send-tftp_error}
use netboot.Tftp.Conn.{Conn, SendError, aborted, datagram, timeout, send, attempts_of}
use netboot.Tftp.Conn.Sends.{AckBefore}
use netboot.Tftp.Conn.Attempts.{send_lem}
use netboot.Tftp.Transfer.{Server, File, out_of_fuel, send_file}
use netboot.Tftp.Transfer.Blocks.{used_size}
use netboot.Tftp.Transfer.Delivery.{Delivered, send_file-Delivered, send_file-ne-out_of_fuel}

-- A client that misses the first block once, and then acknowledges both blocks.
abbrev client : Conn
client = record {
  sent = [];
  reads = timeout ∷ datagram (0 ∷ 4 ∷ 0 ∷ 1 ∷ []) ∷ datagram (0 ∷ 4 ∷ 0 ∷ 2 ∷ []) ∷ [];
  write_fails = [];
}

abbrev server : Server
server = record { write_attempts = 0; max_block_size = 0 }

abbrev file : File
file = record { contents = 1 ∷ 2 ∷ 3 ∷ 4 ∷ 5 ∷ 6 ∷ 7 ∷ 8 ∷ 9 ∷ []; fails = false; size = 9 }

file_sent : (send_file server 8 file client).0 ≡ none
unfolding send_file attempts_of send
file_sent = refl

send_file-Delivered_example :
    (file.fails ≡ false)
    × Delivered
        (attempts_of server.write_attempts)
        (used_size 8)
        file.contents
        client.sent
        (send_file server 8 file client).1.sent
send_file-Delivered_example = send_file-Delivered server 8 file client file_sent

send_file-ne-out_of_fuel_example : (send_file server 8 file client).0 ≢ some out_of_fuel
send_file-ne-out_of_fuel_example = send_file-ne-out_of_fuel server 8 file client

send_lem_example :
    (copies : ℕ) × (copies ≤ attempts_of 0)
    × ((send 0 (0 ∷ 3 ∷ 0 ∷ 1 ∷ 9 ∷ []) 1 client).1.sent
        ≡ client.sent ++ replicate copies (0 ∷ 3 ∷ 0 ∷ 1 ∷ 9 ∷ []))
    × (((e : SendError) × ((send 0 (0 ∷ 3 ∷ 0 ∷ 1 ∷ 9 ∷ []) 1 client).0 ≡ some e))
        ⊎ ((1 ≤ copies)
            × AckBefore 1 client.reads (send 0 (0 ∷ 3 ∷ 0 ∷ 1 ∷ 9 ∷ []) 1 client).1.reads))
send_lem_example = send_lem 0 (0 ∷ 3 ∷ 0 ∷ 1 ∷ 9 ∷ []) 1 client

abbrev pxe_name : Bytes
pxe_name = b'a' ∷ b'/' ∷ b'0' ∷ []

abbrev size_option : List (Bytes × Bytes)
size_option = (literal "blksize", b'9' ∷ []) ∷ []

pxe_name-IsPrintable : All IsPrintable pxe_name
pxe_name-IsPrintable =
    ((omega arith, omega arith), ((omega arith, omega arith), ((omega arith, omega arith), tt)))

letters : All IsPrintable (literal "blksize")
letters = (
  (omega arith, omega arith),
  (
    (omega arith, omega arith),
    (
      (omega arith, omega arith),
      (
        (omega arith, omega arith),
        (
          (omega arith, omega arith),
          ((omega arith, omega arith), ((omega arith, omega arith), tt)),
        ),
      ),
    ),
  ),
)

parse_rrq-encode_example :
    parse_rrq (encode_request pxe_name size_option) ≡ apply_all (fresh pxe_name) size_option
parse_rrq-encode_example =
    parse_rrq-encode pxe_name size_option pxe_name-IsPrintable
      ((letters, ((omega arith, omega arith), tt)), tt)

abbrev sized_request : Rrq
sized_request = record { filename = pxe_name; block_size = 9; want_size = false }

accepted : parse_rrq (encode_request pxe_name size_option) ≡ ok sized_request
unfolding parse_rrq
accepted = refl

parse_rrq_sound_example :
    (fname : Bytes) × (os : List (Bytes × Bytes)) × (encode_request pxe_name size_option
      ≡ encode_request fname os)
    × All IsPrintable fname
    × All IsPair os
    × (apply_all (fresh fname) os ≡ ok sized_request)
parse_rrq_sound_example =
    parse_rrq_sound (encode_request pxe_name size_option) sized_request accepted

-- A client that refuses the first block.
send-tftp_error_example :
    send 0 (0 ∷ 3 ∷ 0 ∷ 1 ∷ 9 ∷ []) 1 (record {
      sent = [];
      reads = datagram (tftp_error pxe_name) ∷ timeout ∷ [];
      write_fails = false ∷ [];
    })
    ≡ (
      some (aborted (heard pxe_name)),
      record { sent = (0 ∷ 3 ∷ 0 ∷ 1 ∷ 9 ∷ []) ∷ []; reads = timeout ∷ []; write_fails = [] },
    )
send-tftp_error_example =
    send-tftp_error 0 1 (0 ∷ 3 ∷ 0 ∷ 1 ∷ 9 ∷ []) pxe_name [] (timeout ∷ []) [] pxe_name-IsPrintable

parse_rrq-ne-out_of_fuel_example :
    parse_rrq (encode_request pxe_name size_option) ≢ err out_of_options
parse_rrq-ne-out_of_fuel_example = parse_rrq-ne-out_of_fuel (encode_request pxe_name size_option)
