-- ===== src/Strconv.antt =====
-- The parts of Go's package strconv that the program uses, on byte strings.
pub mod RoundTrip
pub mod Width
use netboot.Prelude.{
  ℕ, zero, suc, ◌+◌, ◌-◌, ◌*◌, ◌/◌, ◌%◌, ◌^◌, ◌≡◌, refl, Bool, ◌||◌, Option, none, some, List, [],
  ◌∷◌, ◌++◌, Bytes, ltb, ◌==◌, if◌then◌else◌,
}

-- An int64 that was read; `negsuc n` is -(n + 1).
pub data ℤ : Type 0 where
  pos : ℕ → ℤ
  negsuc : ℕ → ℤ

-- One or more decimal digits, with no bound.
pub digits_value : ℕ → Bytes → Option ℕ
digits_value n [] = some n
digits_value n (c ∷ s) =
    if ltb c b'0' || ltb b'9' c then none else digits_value (n * 10 + (c - b'0')) s

pub unsigned : Bytes → Option ℕ
unsigned [] = none
unsigned (c ∷ s) = digits_value 0 (c ∷ s)

in_range_pos : Option ℕ → Option ℤ
in_range_pos none = none
in_range_pos (some n) = if ltb n (2 ^ 63) then some (pos n) else none

in_range_neg : Option ℕ → Option ℤ
in_range_neg none = none
in_range_neg (some zero) = some (pos 0)
in_range_neg (some (suc n)) = if ltb n (2 ^ 63) then some (negsuc n) else none

-- strconv.ParseInt(s, 10, 64) and strconv.Atoi, without their errors' texts.
unfoldable pub parse_int : Bytes → Option ℤ
unfolding unsigned digits_value in_range_pos in_range_neg
parse_int [] = none
parse_int (c ∷ s) =
    if c == b'-'
    then in_range_neg (unsigned s)
    else if c == b'+'
    then in_range_pos (unsigned s)
    else in_range_pos (unsigned (c ∷ s))

-- The decimal digits of `n` in front of `out`. A round divides by ten, so `n + 1` rounds are enough.
pub emit : ℕ → ℕ → Bytes → Bytes
emit zero n out = out
emit (suc fuel) n out =
    let more = emit fuel (n / 10) ((b'0' + n % 10) ∷ out) in
    if ltb n 10 then (b'0' + n) ∷ out else more

-- strconv.FormatInt(n, 10) and %d, for a number that is not negative.
unfoldable pub format_int : ℕ → Bytes
unfolding emit
format_int n = emit (suc n) n []
