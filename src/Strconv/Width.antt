-- ===== src/Strconv/Width.antt =====
-- How long decimal numbers are.
use netboot.Prelude.{
  ℕ, zero, suc, ◌+◌, ◌*◌, ◌/◌, ◌%◌, ◌≤◌, ◌<◌, [], ◌∷◌, Bytes, length, if_ind, ltb, arith,
}
use netboot.Strconv.{emit, format_int}

-- The first number with more than `k` digits, for `k` at least one.
abbrev pub wider_than : ℕ → ℕ
wider_than zero = 1
wider_than (suc k) = 10 * wider_than k

length-emit :
    (fuel n k : ℕ) (out : Bytes)
    → n < wider_than (suc k)
    → length (emit fuel n out) ≤ suc k + length out
unfolding emit
length-emit zero n k out h = omega arith
length-emit (suc fuel) n zero out h =
    if_ind (λ r. length r ≤ 1 + length out) (ltb n 10) ((b'0' + n) ∷ out)
      (emit fuel (n / 10) ((b'0' + n % 10) ∷ out)) (λ s. omega arith) (λ b. ground arith)
length-emit (suc fuel) n (suc k) out h =
    let less : n / 10 < wider_than (suc k) = omega arith in
    if_ind (λ r. length r ≤ suc (suc k) + length out) (ltb n 10) ((b'0' + n) ∷ out)
      (emit fuel (n / 10) ((b'0' + n % 10) ∷ out)) (λ s. omega arith)
      λ b. omega (arith, length-emit fuel (n / 10) k ((b'0' + n % 10) ∷ out) less)

pub length-format_int : (n k : ℕ) → n < wider_than (suc k) → length (format_int n) ≤ suc k
unfolding format_int
length-format_int n k h = omega (arith, length-emit (suc n) n k [] h)
