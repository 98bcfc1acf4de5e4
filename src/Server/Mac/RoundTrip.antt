-- ===== src/Server/Mac/RoundTrip.antt =====
-- `parse_mac` reads what `mac_string` prints, and `split` takes joined parts apart.
use netboot.Prelude.{
  ℕ, ◌+◌, ◌*◌, ◌/◌, ◌%◌, ◌<◌, ◌≡◌, ◌≢◌, refl, ap, ◌∙◌, false, some, [], ◌∷◌, ◌++◌, Bytes, length,
  get_or, ltb, ◌==◌, All, arith, le→ltb_false,
}
use netboot.Server.Strings.{hex_digit, mac_string}
use netboot.Server.Mac.{
  hex_value, hex_byte, push_byte, pairs, known_size, parse_mac, first_part, split,
}

hex_value-hex_digit : (n : ℕ) → n < 16 → hex_value (hex_digit n) ≡ some n
unfolding hex_value hex_digit
hex_value-hex_digit n h = ground arith

read_byte :
    (b : ℕ)
    → b < 256
    → hex_byte (hex_value (hex_digit (b / 16))) (hex_value (hex_digit (b % 16))) ≡ some b
unfolding hex_byte
read_byte b h =
    let whole : b / 16 * 16 + b % 16 ≡ b = omega arith in
    rw (
      hex_value-hex_digit (b / 16) (omega arith),
      hex_value-hex_digit (b % 16) (omega arith),
      whole,
    )

pairs-mac_string :
    (b : ℕ) (bs : Bytes)
    → All (λ c. c < 256) (b ∷ bs)
    → pairs b':' (mac_string (b ∷ bs)) ≡ some (b ∷ bs)
unfolding pairs mac_string push_byte
pairs-mac_string b [] (h, hs) = rw (read_byte b h)
pairs-mac_string b (c ∷ bs) (h, hs) = rw (read_byte b h, pairs-mac_string c bs hs)

length-mac_string : (b : ℕ) (bs : Bytes) → length (mac_string (b ∷ bs)) ≡ 3 * length bs + 2
unfolding mac_string
length-mac_string b [] = omega arith
length-mac_string b (c ∷ bs) = omega (arith, length-mac_string c bs)

-- Every Ethernet address is read back from its text.
pub parse_mac-mac_string :
    (mac : Bytes) → length mac ≡ 6 → All (λ b. b < 256) mac → parse_mac (mac_string mac) ≡ some mac
unfolding parse_mac known_size
parse_mac-mac_string [] n h = absurd (omega arith)
parse_mac-mac_string (b ∷ []) n h = absurd (omega arith)
parse_mac-mac_string (b ∷ c ∷ bs) n h =
    let long : ltb (length (mac_string (b ∷ c ∷ bs))) 14 ≡ false =
      le→ltb_false _ 14 (omega (arith, length-mac_string b (c ∷ bs))) in
    let colon : get_or (mac_string (b ∷ c ∷ bs)) 2 0 ≡ b':' = unfold mac_string in refl in
    rw (long, colon, pairs-mac_string b (c ∷ bs) h, n)

-- Text without the separator is one part, in front of whatever parts follow.
pub split-append :
    (sep : ℕ) (s rest : Bytes)
    → All (λ c. c ≢ sep) s
    → split sep (s ++ (sep ∷ rest)) ≡ s ∷ split sep rest
unfolding split first_part
split-append sep [] rest h = ground arith
split-append sep (c ∷ s) rest (h, hs) =
    let other : (c == sep) ≡ false = ground arith in rw (other, split-append sep s rest hs)

pub split-one : (sep : ℕ) (s : Bytes) → All (λ c. c ≢ sep) s → split sep s ≡ s ∷ []
unfolding split first_part
split-one sep [] h = refl
split-one sep (c ∷ s) (h, hs) =
    let other : (c == sep) ≡ false = ground arith in rw (other, split-one sep s hs)

-- Two texts without the separator, joined by it.
pub split_joined :
    (sep : ℕ) (s t : Bytes)
    → All (λ c. c ≢ sep) s
    → All (λ c. c ≢ sep) t
    → split sep (s ++ (sep ∷ t)) ≡ s ∷ t ∷ []
split_joined sep s t hs ht = split-append sep s t hs ∙ ap (λ ts. s ∷ ts) (split-one sep t ht)

hex_digit-ne_slash : (n : ℕ) → n < 16 → hex_digit n ≢ b'/'
unfolding hex_digit
hex_digit-ne_slash n h = λ e. ground arith

pub mac_string-ne_slash :
    (mac : Bytes) → All (λ b. b < 256) mac → All (λ c. c ≢ b'/') (mac_string mac)
unfolding mac_string
mac_string-ne_slash [] h = tt
mac_string-ne_slash (b ∷ []) (h, hs) =
    (hex_digit-ne_slash (b / 16) (omega arith), (hex_digit-ne_slash (b % 16) (omega arith), tt))
mac_string-ne_slash (b ∷ c ∷ bs) (h, hs) = (
  hex_digit-ne_slash (b / 16) (omega arith),
  (
    hex_digit-ne_slash (b % 16) (omega arith),
    ((λ e. omega arith), mac_string-ne_slash (c ∷ bs) hs),
  ),
)
