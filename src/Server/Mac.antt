-- ===== src/Server/Mac.antt =====
-- net.ParseMAC, which the package server calls on paths and queries, and strings.Split.
pub mod RoundTrip
pub mod Parts
use netboot.Prelude.{
  ℕ, ◌+◌, ◌*◌, ◌-◌, Bool, true, false, ◌&&◌, ◌||◌, Option, none, some, List, [], ◌∷◌, ◌++◌, Bytes,
  length, get_or, ltb, leb, ◌==◌, if◌then◌else◌,
}

-- The value of a hexadecimal digit of either case.
unfoldable pub hex_value : ℕ → Option ℕ
hex_value c =
    if leb b'0' c && leb c b'9'
    then some (c - b'0')
    else if leb b'a' c && leb c b'f'
    then some (c - b'W')
    else if leb b'A' c && leb c b'F'
    then some (c - b'7')
    else none

unfoldable pub hex_byte : Option ℕ → Option ℕ → Option ℕ
hex_byte (some h) (some l) = some (h * 16 + l)
hex_byte _ _ = none

unfoldable pub push_byte : Option ℕ → Option Bytes → Option Bytes
push_byte (some b) (some bs) = some (b ∷ bs)
push_byte _ _ = none

-- Pairs of digits with `sep` between them.
unfoldable pub pairs : ℕ → Bytes → Option Bytes
unfolding hex_byte push_byte
pairs sep [] = none
pairs sep (a ∷ []) = none
pairs sep (a ∷ b ∷ []) = push_byte (hex_byte (hex_value a) (hex_value b)) (some [])
pairs sep (a ∷ b ∷ c ∷ s) =
    let more = pairs sep s in
    if c == sep then push_byte (hex_byte (hex_value a) (hex_value b)) more else none

-- Groups of four digits with dots between them.
pub quads : Bytes → Option Bytes
unfolding hex_byte push_byte
quads (a ∷ b ∷ c ∷ d ∷ []) =
    push_byte (hex_byte (hex_value a) (hex_value b))
      (push_byte (hex_byte (hex_value c) (hex_value d)) (some []))
quads (a ∷ b ∷ c ∷ d ∷ e ∷ s) =
    let more = quads s in
    if e == b'.'
    then push_byte (hex_byte (hex_value a) (hex_value b))
        (push_byte (hex_byte (hex_value c) (hex_value d)) more)
    else none
quads _ = none

-- An address of 6, 8 or 20 bytes.
pub known_size : Option Bytes → Option Bytes
known_size none = none
known_size (some mac) =
    if length mac == 6 || (length mac == 8 || length mac == 20) then some mac else none

unfoldable pub parse_mac : Bytes → Option Bytes
unfolding known_size quads
parse_mac s =
    if ltb (length s) 14
    then none
    else if get_or s 2 0 == b':' || get_or s 2 0 == b'-'
    then known_size (pairs (get_or s 2 0) s)
    else if get_or s 4 0 == b'.'
    then known_size (quads s)
    else none

-- strings.Split(s, sep) for a separator of one byte: the parts, one at least.
pub first_part : ℕ → List Bytes → List Bytes
first_part c [] = (c ∷ []) ∷ []
first_part c (part ∷ parts) = (c ∷ part) ∷ parts

unfoldable pub split : ℕ → Bytes → List Bytes
unfolding first_part
split sep [] = [] ∷ []
split sep (c ∷ s) = let more = split sep s in if c == sep then [] ∷ more else first_part c more
