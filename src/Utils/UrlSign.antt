-- ===== src/Utils/UrlSign.antt =====
-- utils/urlsign.go: URLs as IDs that only the server can make; with base64.URLEncoding.
pub mod RoundTrip
use netboot.Prelude.{
  ℕ, ◌+◌, ◌-◌, ◌*◌, ◌/◌, ◌%◌, Bool, true, false, ◌||◌, Option, none, some, [], ◌∷◌, ◌++◌, Bytes,
  length, take, drop, ltb, leb, ◌==◌, ◌&&◌, if◌then◌else◌,
}
use netboot.Prelude.Result.{Result, ok, err, ◌>>=◌, ◌>>◌, reject}

-- The 64 digits, and their values.
unfoldable pub digit : ℕ → ℕ
digit n =
    if ltb n 26
    then b'A' + n
    else if ltb n 52
    then b'G' + n
    else if ltb n 62
    then n - 4
    else if n == 62
    then b'-'
    else b'_'

unfoldable pub digit_value : ℕ → Option ℕ
digit_value c =
    if leb b'A' c && leb c b'Z'
    then some (c - b'A')
    else if leb b'a' c && leb c b'z'
    then some (c - b'G')
    else if leb b'0' c && leb c b'9'
    then some (c + 4)
    else if c == b'-'
    then some 62
    else if c == b'_'
    then some 63
    else none

-- EncodeToString
unfoldable pub encode : Bytes → Bytes
unfolding digit
encode [] = []
encode (a ∷ []) = digit (a / 4) ∷ digit (a % 4 * 16) ∷ b'=' ∷ b'=' ∷ []
encode (a ∷ b ∷ []) = digit (a / 4) ∷ digit (a % 4 * 16 + b / 16) ∷ digit (b % 16 * 4) ∷ b'=' ∷ []
encode (a ∷ b ∷ c ∷ s) =
    digit (a / 4)
    ∷ digit (a % 4 * 16 + b / 16)
    ∷ digit (b % 16 * 4 + c / 64)
    ∷ digit (c % 64)
    ∷ encode s

-- The bytes of a group of four digits in front of the bytes after it.
unfoldable pub group : Option ℕ → Option ℕ → Option ℕ → Option ℕ → Option Bytes → Option Bytes
group (some v) (some w) (some x) (some y) (some s) =
    some ((v * 4 + w / 16) ∷ (w % 16 * 16 + x / 4) ∷ (x % 4 * 64 + y) ∷ s)
group _ _ _ _ _ = none

unfoldable pub two_bytes : Option ℕ → Option ℕ → Option ℕ → Option Bytes
two_bytes (some v) (some w) (some x) = some ((v * 4 + w / 16) ∷ (w % 16 * 16 + x / 4) ∷ [])
two_bytes _ _ _ = none

unfoldable pub one_byte : Option ℕ → Option ℕ → Option Bytes
one_byte (some v) (some w) = some ((v * 4 + w / 16) ∷ [])
one_byte _ _ = none

-- The last group of four may end in padding.
unfoldable pub last_group : ℕ → ℕ → ℕ → ℕ → Option Bytes
unfolding group two_bytes one_byte digit_value
last_group p q r t =
    if t == b'='
    then (if r == b'='
        then one_byte (digit_value p) (digit_value q)
        else two_bytes (digit_value p) (digit_value q) (digit_value r))
    else group (digit_value p) (digit_value q) (digit_value r) (digit_value t) (some [])

unfoldable pub decode_groups : Bytes → Option Bytes
unfolding last_group group
decode_groups [] = some []
decode_groups (p ∷ q ∷ r ∷ t ∷ []) = last_group p q r t
decode_groups (p ∷ q ∷ r ∷ t ∷ u ∷ s) =
    group (digit_value p) (digit_value q) (digit_value r) (digit_value t) (decode_groups (u ∷ s))
decode_groups _ = none

-- DecodeString passes over line ends.
unfoldable pub without_line_ends : Bytes → Bytes
without_line_ends [] = []
without_line_ends (c ∷ s) =
    let rest = without_line_ends s in if c == 10 || c == 13 then rest else c ∷ rest

unfoldable pub decode : Bytes → Option Bytes
unfolding decode_groups without_line_ends
decode s = decode_groups (without_line_ends s)

pub data SignError : Type 0 where
  no_base64 blob_too_short not_verified : SignError

or_sign : SignError → Option Bytes → Result SignError Bytes
or_sign e none = err e
or_sign e (some bs) = ok bs

abbrev pub nonce_size : ℕ
nonce_size = 24

-- `seal` and `unseal` are Seal and Open of golang.org/x/crypto/nacl/secretbox: of message, nonce and key.
-- SignURL with the nonce that the random generator yields.
unfoldable pub sign_url : (Bytes → Bytes → Bytes → Bytes) → Bytes → Bytes → Bytes → Bytes
unfolding encode
sign_url seal nonce u key = encode (nonce ++ seal u nonce key)

-- GetURL
unfoldable pub get_url :
    (Bytes → Bytes → Bytes → Option Bytes) → Bytes → Bytes → Result SignError Bytes
unfolding or_sign decode
get_url unseal id key = do
  signed ← or_sign no_base64 (decode id)
  reject (ltb (length signed) nonce_size) blob_too_short
  or_sign not_verified (unseal (drop nonce_size signed) (take nonce_size signed) key)
