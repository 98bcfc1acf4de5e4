-- ===== src/Url.antt =====
-- The parts of Go's package net/url that the program uses: escaping, and the values of a query.
pub mod RoundTrip
pub mod Values
pub mod Query
use netboot.Prelude.{
  ℕ, ◌+◌, ◌*◌, ◌-◌, ◌/◌, ◌%◌, Bool, true, false, ◌&&◌, ◌||◌, Option, none, some, List, [], ◌∷◌,
  ◌++◌, Bytes, ltb, leb, ◌==◌, if◌then◌else◌,
}
use netboot.Net.{equal}
use netboot.Server.Mac.{hex_value, hex_byte, push_byte, split}

-- The letters, digits and marks that are never escaped.
unfoldable pub is_unreserved : ℕ → Bool
is_unreserved c =
    (leb b'0' c && leb c b'9')
    || ((leb b'A' c && leb c b'Z')
        || ((leb b'a' c && leb c b'z') || (c == b'-' || (c == b'_' || (c == b'.' || c == b'~')))))

unfoldable pub upper_hex : ℕ → ℕ
upper_hex n = if ltb n 10 then b'0' + n else b'7' + n

pub percent : ℕ → Bytes → Bytes
unfolding upper_hex
percent c s = b'%' ∷ upper_hex (c / 16) ∷ upper_hex (c % 16) ∷ s

-- url.QueryEscape
unfoldable pub query_escape : Bytes → Bytes
unfolding percent
query_escape [] = []
query_escape (c ∷ s) =
    let more = query_escape s in
    if is_unreserved c then c ∷ more else if c == b' ' then b'+' ∷ more else percent c more

-- The marks that url.PathEscape leaves alone, beyond the unreserved bytes.
is_segment_mark : ℕ → Bool
is_segment_mark c =
    c == b'$' || (c == b'&' || (c == b'+' || (c == b':' || (c == b'=' || c == b'@'))))

-- url.PathEscape
unfoldable pub path_escape : Bytes → Bytes
unfolding percent is_segment_mark
path_escape [] = []
path_escape (c ∷ s) =
    let more = path_escape s in
    if is_unreserved c || is_segment_mark c then c ∷ more else percent c more

abbrev pub plus_as_space : ℕ → ℕ
plus_as_space c = if c == b'+' then b' ' else c

-- url.QueryUnescape; `none` is an error.
unfoldable pub query_unescape : Bytes → Option Bytes
unfolding hex_byte push_byte
query_unescape [] = some []
query_unescape (c ∷ []) = if c == b'%' then none else some (plus_as_space c ∷ [])
query_unescape (c ∷ a ∷ []) =
    let more = query_unescape (a ∷ []) in
    if c == b'%' then none else push_byte (some (plus_as_space c)) more
query_unescape (c ∷ a ∷ b ∷ s) =
    let after = query_unescape s in
    let more = query_unescape (a ∷ b ∷ s) in
    if c == b'%'
    then push_byte (hex_byte (hex_value a) (hex_value b)) after
    else push_byte (some (plus_as_space c)) more

-- strings.Cut at the first `sep`.
unfoldable pub cut : ℕ → Bytes → Bytes × Bytes
cut sep [] = ([], [])
cut sep (c ∷ s) =
    let (before, after) = cut sep s in if c == sep then ([], s) else (c ∷ before, after)

abbrev pub contains : ℕ → Bytes → Bool
contains c [] = false
contains c (b ∷ s) = b == c || contains c s

pub both : Option Bytes → Option Bytes → Option (Bytes × Bytes)
both (some k) (some v) = some (k, v)
both _ _ = none

-- A part of a query between two `&`; parts that are empty or malformed are left out.
unfoldable pub key_value : Bytes → Option (Bytes × Bytes)
unfolding both cut query_unescape
key_value [] = none
key_value (c ∷ s) =
    if contains b';' (c ∷ s)
    then none
    else both (query_unescape (cut b'=' (c ∷ s)).0) (query_unescape (cut b'=' (c ∷ s)).1)

pub value_or : Bytes → Option (Bytes × Bytes) → Bytes → Bytes
value_or key none later = later
value_or key (some (k, v)) later = if equal k key then v else later

unfoldable pub first_value : Bytes → List Bytes → Bytes
unfolding value_or
first_value key [] = []
first_value key (part ∷ parts) =
    let later = first_value key parts in value_or key (key_value part) later

-- u.Query().Get(key) for the query `raw`: the first value, empty if there is none.
unfoldable pub query_get : Bytes → Bytes → Bytes
unfolding first_value split
query_get key raw = first_value key (split b'&' raw)
