-- ===== src/Strconv/RoundTrip.antt =====
-- `parse_int` reads what `format_int` prints.
use netboot.Prelude.{
  ℕ, zero, suc, ◌+◌, ◌/◌, ◌%◌, ◌^◌, ◌≤◌, ◌<◌, ◌≡◌, refl, ◌∙◌, false, some, [], ◌∷◌, Bytes, All, ltb,
  ◌==◌, if_ind, lt→ltb, Bool-cases, inl, inr, arith,
}
use netboot.Strconv.{pos, digits_value, unsigned, parse_int, emit, format_int, in_range_pos}

abbrev pub IsDigit : ℕ → Type 0
IsDigit c = (b'0' ≤ c) × (c ≤ b'9')

-- Reading goes on behind the digits of `n` as if it had read `n`.
emit_lem :
    (fuel n : ℕ) (out : Bytes) → n < fuel → digits_value 0 (emit fuel n out) ≡ digits_value n out
unfolding emit digits_value
emit_lem zero n out h = absurd (omega arith)
emit_lem (suc fuel) n out h = elim (Bool-cases (ltb n 10)) [
  | inl small ↦ ground arith
  | inr big ↦
      rw big (emit_lem fuel (n / 10) ((b'0' + n % 10) ∷ out) (ground arith) ∙ ground (arith))
]

emit-IsDigit :
    (fuel n : ℕ) (out : Bytes) → n < fuel → All IsDigit out → All IsDigit (emit fuel n out)
unfolding emit
emit-IsDigit zero n out h d = d
emit-IsDigit (suc fuel) n out h d =
    if_ind (All IsDigit) (ltb n 10) _ _ (λ small. (ground arith, d))
      λ big. emit-IsDigit fuel (n / 10) ((b'0' + n % 10) ∷ out) (ground arith) (omega arith, d)

pub format_int-IsDigit : (n : ℕ) → All IsDigit (format_int n)
unfolding format_int
format_int-IsDigit n = emit-IsDigit (suc n) n [] (omega arith) tt

emit_nonempty :
    (fuel n : ℕ) (out : Bytes) → n < fuel → (c : ℕ) × (s : Bytes) × (emit fuel n out ≡ c ∷ s)
unfolding emit
emit_nonempty zero n out h = absurd (omega arith)
emit_nonempty (suc fuel) n out h = elim (Bool-cases (ltb n 10)) [
  | inl small ↦ (b'0' + n, out, rw small)
  | inr big ↦ rw big (emit_nonempty fuel (n / 10) ((b'0' + n % 10) ∷ out) (ground arith))
]

parse_digits :
    (c n : ℕ) (s : Bytes)
    → IsDigit c
    → n < 2 ^ 63
    → digits_value 0 (c ∷ s) ≡ some n
    → parse_int (c ∷ s) ≡ some (pos n)
unfolding parse_int
parse_digits c n s d h e =
    let minus : (c == b'-') ≡ false = ground arith in
    let plus : (c == b'+') ≡ false = ground arith in
    rw (minus, plus) (unfold unsigned in rw e (unfold in_range_pos in rw (lt→ltb n (2 ^ 63) h)))

-- Every number below 2 ^ 63 is read back from its decimal form.
pub parse_int-format_int : (n : ℕ) → n < 2 ^ 63 → parse_int (format_int n) ≡ some (pos n)
parse_int-format_int n h =
    let (c, s, e) = emit_nonempty (suc n) n [] (omega arith) in
    let shape : format_int n ≡ c ∷ s = unfold format_int in e in
    let digits : All IsDigit (c ∷ s) = rw shape at (format_int-IsDigit n) in
    let value : digits_value 0 (c ∷ s) ≡ some n =
      rw (← e) (emit_lem (suc n) n [] (omega arith) ∙ unfold digits_value in refl) in
    rw shape (parse_digits c n s digits.0 h value)
