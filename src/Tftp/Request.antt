-- ===== src/Tftp/Request.antt =====
-- Requests and error packets of tftp/tftp.go: tftpStr, parseRRQ, tftpError.
pub mod Grammar
pub mod Errors
pub mod Named
pub mod Termination
use netboot.Prelude.{
  ℕ, zero, suc, ◌+◌, ◌-◌, Bool, true, false, ◌&&◌, ◌||◌, not, Option, none, some, List, [], ◌∷◌,
  ◌++◌, Bytes, length, take, get_or, drop, ltb, ◌==◌, if◌then◌else◌,
}
use netboot.Prelude.Text.{literal}
use netboot.Prelude.Result.{Result, ok, err, ◌>>=◌, ◌>>◌, reject, wrap}
use netboot.Net.{equal}
use netboot.Strconv.{ℤ, pos, negsuc, parse_int}

-- The errors of `tftpStr`: the byte and its offset, or no zero byte.
pub data StrError : Type 0 where
  invalid_byte : ℕ → ℕ → StrError
  no_terminator : StrError

-- The loop of `tftpStr` from offset `i`: the string, and the bytes behind its zero.
pub tftp_str_from : ℕ → Bytes → Result StrError (Bytes × Bytes)
tftp_str_from i [] = err no_terminator
tftp_str_from i (b ∷ bs) =
    let more = tftp_str_from (i + 1) bs in
    if b == 0
    then ok ([], bs)
    else if ltb b 0x20 || ltb 0x7E b
    then err (invalid_byte b i)
    else (do (s, rest) ← more; ok (b ∷ s, rest))

unfoldable pub tftp_str : Bytes → Result StrError (Bytes × Bytes)
unfolding tftp_str_from
tftp_str bs = tftp_str_from 0 bs

-- type rrq struct
pub record Rrq : Type 0 where
  pub filename : Bytes
  pub block_size : ℕ
  pub want_size : Bool

-- `out_of_fuel` is no Go value.
pub data RrqError : Type 0 where
  not_rrq : RrqError
  bad_filename bad_mode bad_option_name : StrError → RrqError
  bad_option_value : Bytes → StrError → RrqError
  unsupported_mode non_integer_size : Bytes → RrqError
  unsupported_size : ℤ → RrqError
  out_of_fuel : RrqError

-- The check `size < 8 || size > 65464`.
pub accept_size : ℤ → Result RrqError ℕ
accept_size (pos n) = if ltb n 8 || ltb 65464 n then err (unsupported_size (pos n)) else ok n
accept_size (negsuc n) = err (unsupported_size (negsuc n))

pub size_or_error : Bytes → Option ℤ → Result RrqError ℕ
size_or_error val none = err (non_integer_size val)
size_or_error val (some size) = accept_size size

-- The value of a blksize option.
pub block_size_of : Bytes → Result RrqError ℕ
unfolding accept_size size_or_error
block_size_of val = size_or_error val (parse_int val)

-- One option of a request.
pub apply_option : Rrq → Bytes → Bytes → Result RrqError Rrq
apply_option req opt val =
    if not (equal opt (literal "blksize"))
    then ok (if equal opt (literal "tsize") then record req { want_size = true } else req)
    else (do size ← block_size_of val; ok (record req { block_size = size }))

-- The option loop. Each round takes two bytes at least.
pub parse_options : ℕ → Bytes → Rrq → Result RrqError Rrq
parse_options fuel [] req = ok req
parse_options zero (b ∷ bs) req = err out_of_fuel
parse_options (suc fuel) (b ∷ bs) req = do
  (opt, rest) ← wrap bad_option_name (tftp_str (b ∷ bs))
  (val, rest') ← wrap (bad_option_value opt) (tftp_str rest)
  req' ← apply_option req opt val
  parse_options fuel rest' req'

unfoldable pub parse_rrq : Bytes → Result RrqError Rrq
unfolding parse_options tftp_str apply_option block_size_of parse_int equal
parse_rrq bs = do
  reject (ltb (length bs) 6 || not (get_or bs 0 0 == 0 && get_or bs 1 0 == 1)) not_rrq
  (fname, rest) ← wrap bad_filename (tftp_str (drop 2 bs))
  (mode, rest') ← wrap bad_mode (tftp_str rest)
  reject (not (equal mode (literal "octet"))) (unsupported_mode mode)
  parse_options (length rest') rest'
      (record { filename = fname; block_size = 0; want_size = false })

abbrev pub max_error_size : ℕ
max_error_size = 500

pub is_printable : ℕ → Bool
is_printable c = not (ltb c 0x20) && not (ltb 0x7E c)

-- The loop of `tftpError` over an ASCII message.
pub netascii : Bytes → Bytes
netascii [] = []
netascii (b ∷ bs) =
    let rest = netascii bs in
    if is_printable b
    then b ∷ rest
    else if b == 13
    then rest
    else if b == 10
    then 13 ∷ 10 ∷ rest
    else b'?' ∷ rest

unfoldable pub tftp_error : Bytes → Bytes
unfolding netascii is_printable
tftp_error msg =
    0
    ∷ 5
    ∷ 0
    ∷ 0
    ∷ (netascii (if ltb max_error_size (length msg) then take max_error_size msg else msg)
        ++ (0 ∷ []))
