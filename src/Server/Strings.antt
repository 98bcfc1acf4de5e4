-- ===== src/Server/Strings.antt =====
-- The texts of Go's values that the package server prints: hardware addresses and IPv4 addresses.
pub mod Width
use netboot.Prelude.{
  ℕ, ◌+◌, ◌/◌, ◌%◌, Bool, true, false, ◌&&◌, ◌||◌, List, [], ◌∷◌, ◌++◌, Bytes, ltb, ◌==◌,
  if◌then◌else◌,
}
use netboot.Prelude.Text.{literal}
use netboot.Net.{to4}
use netboot.Strconv.{format_int}
use mathlib.Core.Option.{none, some}

unfoldable pub hex_digit : ℕ → ℕ
hex_digit n = if ltb n 10 then b'0' + n else b'W' + n

-- net.HardwareAddr's String: two lower-case digits for each byte, with colons between them.
unfoldable pub mac_string : Bytes → Bytes
unfolding hex_digit
mac_string [] = []
mac_string (b ∷ []) = hex_digit (b / 16) ∷ hex_digit (b % 16) ∷ []
mac_string (b ∷ c ∷ bs) = hex_digit (b / 16) ∷ hex_digit (b % 16) ∷ b':' ∷ mac_string (c ∷ bs)

dotted : Bytes → Bytes
unfolding format_int
dotted [] = []
dotted (b ∷ []) = format_int b
dotted (b ∷ c ∷ bs) = format_int b ++ (b'.' ∷ dotted (c ∷ bs))

-- net.IP's String, of an IPv4 address and of nil. The server's own address, the only one that is
-- printed, has four bytes; an IPv6 address has no text here.
unfoldable pub ip_string : Bytes → Bytes
unfolding dotted to4
ip_string [] = literal "<nil>"
ip_string ip = elim (to4 ip) [ some ip4 ↦ dotted ip4 | none ↦ [] ]

-- strings.HasPrefix.
unfoldable pub has_prefix : Bytes → Bytes → Bool
has_prefix s [] = true
has_prefix [] (c ∷ prefix) = false
has_prefix (b ∷ s) (c ∷ prefix) = b == c && has_prefix s prefix

unfoldable pub has_any_prefix : Bytes → List Bytes → Bool
unfolding has_prefix
has_any_prefix s [] = false
has_any_prefix s (prefix ∷ prefixes) = has_prefix s prefix || has_any_prefix s prefixes
