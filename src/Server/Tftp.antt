-- ===== src/Server/Tftp.antt =====
-- server/tftp.go: which file a TFTP path names, and what a finished transfer leaves in the log.
pub mod Paths
use netboot.Prelude.{ℕ, Bool, true, false, Option, none, some, List, [], ◌∷◌, Bytes, length}
use netboot.Prelude.Assoc.{Assoc, lookup}
use netboot.Prelude.Result.{Result, ok, err, ◌>>=◌}
use netboot.Strconv.{ℤ, pos, negsuc, parse_int}
use netboot.Server.Mac.{parse_mac, split}
use netboot.Server.Events.{Event, machine_event}
use netboot.Tftp.Transfer.{File}

pub data PathError : Type 0 where
  not_found : PathError
  invalid_mac : Bytes → PathError
  unknown_path : Bytes → PathError
  unknown_firmware : ℤ → PathError

or_err : {A : Type 0} → PathError → Option A → Result PathError A
or_err e none = err e
or_err e (some a) = ok a

-- The two elements of a path.
two_elements : List Bytes → Result PathError (Bytes × Bytes)
two_elements (mac ∷ i ∷ []) = ok (mac, i)
two_elements _ = err not_found

unfoldable pub extract_info : Bytes → Result PathError (Bytes × ℤ)
unfolding two_elements or_err
extract_info path = do
  (mac_text, i_text) ← two_elements (split b'/' path)
  mac ← or_err (invalid_mac mac_text) (parse_mac mac_text)
  i ← or_err not_found (parse_int i_text)
  ok (mac, i)

-- s.Ipxe[Firmware(i)]: the keys of the map are not negative.
pub boot_program : Assoc Bytes → ℤ → Option Bytes
unfolding lookup
boot_program ipxe (pos i) = lookup i ipxe
boot_program ipxe (negsuc n) = none

-- Any error of extractInfo becomes "unknown path".
known_path : Bytes → Result PathError (Bytes × ℤ) → Result PathError ℤ
known_path path (ok (mac, i)) = ok i
known_path path (err e) = err (unknown_path path)

unfoldable pub handle_tftp : Assoc Bytes → Bytes → Result PathError File
unfolding known_path boot_program or_err
handle_tftp ipxe path = do
  i ← known_path path (extract_info path)
  bs ← or_err (unknown_firmware i) (boot_program ipxe i)
  ok (record { contents = bs; fails = false; size = length bs })

-- logTFTPTransfer: a transfer without an error of a path that parses is an event of the machine.
-- `key` gives the number that stands for the text of a MAC address, as in Server.Events.
logged_transfer :
    (Bytes → ℕ)
    → Event
    → Result PathError (Bytes × ℤ)
    → Bool
    → Assoc (List Event)
    → Assoc (List Event)
logged_transfer key e (err x) failed events = events
logged_transfer key e (ok (mac, i)) true events = events
logged_transfer key e (ok (mac, i)) false events = machine_event (key mac) e events

unfoldable pub log_tftp_transfer :
    (Bytes → ℕ) → Event → Bytes → Bool → Assoc (List Event) → Assoc (List Event)
unfolding logged_transfer
log_tftp_transfer key e path failed events = logged_transfer key e (extract_info path) failed events
