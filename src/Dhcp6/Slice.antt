-- ===== src/Dhcp6/Slice.antt =====
-- Go slices with the bytes behind them. A slice expression may reach up to the capacity, so a high
-- bound beyond the length shows bytes of the backing array; beyond the capacity it panics.
use netboot.Prelude.{
  ℕ, ◌+◌, ◌*◌, ◌≤◌, ◌<◌, ◌≡◌, arith, if_ind, refl, ◌&&◌, ◌∷◌, ◌++◌, Bytes, length, drop, slice, leb,
  if◌then◌else◌,
}

-- A call that returns, that returns an error, or that panics.
pub data Outcome {ℓ κ} (E : Type κ) (A : Type ℓ) : Type (ℓ ⊔ κ) where
  returned : A → Outcome E A
  failed : E → Outcome E A
  panicked : Outcome E A

infixl 5 ◌>>=◌
abbrev pub ◌>>=◌ {ℓ κ μ} :
    {E : Type κ} {A : Type ℓ} {B : Type μ} → Outcome E A → (A → Outcome E B) → Outcome E B
returned a >>= f = f a
failed e >>= f = failed e
panicked >>= f = panicked

pub record Slice : Type 0 where
  pub visible : Bytes
  pub spare : Bytes

abbrev pub backing : Slice → Bytes
backing s = s.visible ++ s.spare

abbrev pub len : Slice → ℕ
len s = length s.visible

abbrev pub cut : Slice → ℕ → ℕ → Slice
cut s lo hi = record { visible = slice lo hi (backing s); spare = drop hi (backing s) }

-- s[lo:hi]
unfoldable pub sub {κ} : {E : Type κ} → Slice → ℕ → ℕ → Outcome E Slice
sub s lo hi = if leb lo hi && leb hi (length (backing s)) then returned (cut s lo hi) else panicked

-- s[lo:]
unfoldable pub from {κ} : {E : Type κ} → Slice → ℕ → Outcome E Slice
unfolding sub
from s lo = sub s lo (len s)

unfoldable pub first_two {κ} : {E : Type κ} → Bytes → Outcome E ℕ
first_two (a ∷ b ∷ rest) = returned (a * 256 + b)
first_two _ = panicked

-- binary.BigEndian.Uint16(s), which panics on fewer than two bytes.
unfoldable pub big_endian16 {κ} : {E : Type κ} → Slice → Outcome E ℕ
unfolding first_two
big_endian16 s = first_two s.visible

module _ {E : Type 0} (s : Slice) (lo hi : ℕ) where
  pub sub_within : lo ≤ hi → hi ≤ length (backing s) → sub {E = E} s lo hi ≡ returned (cut s lo hi)
  unfolding sub
  sub_within h k = ground arith

  pub sub_beyond : length (backing s) < hi → sub {E = E} s lo hi ≡ panicked
  unfolding sub
  sub_beyond h = ground arith

  -- A slice expression that returns was in range.
  pub sub_returned :
      (t : Slice)
      → sub {E = E} s lo hi ≡ returned t
      → (lo ≤ hi) × (hi ≤ length (backing s)) × (t ≡ cut s lo hi)
  unfolding sub
  sub_returned t h =
      if_ind P (leb lo hi && leb hi (length (backing s))) _ _
        (λ b e. (ground arith, ground arith, cc)) (λ _ e. cc) h
    where
      P : Outcome E Slice → Type 0
      P r = r ≡ returned t → (lo ≤ hi) × (hi ≤ length (backing s)) × (t ≡ cut s lo hi)

pub bind-returned {ℓ κ μ} :
    {E : Type κ} {A : Type ℓ} {B : Type μ} (m : Outcome E A) (f : A → Outcome E B) {b : B}
    → (m >>= f) ≡ returned b
    → (a : A) × (m ≡ returned a) × (f a ≡ returned b)
bind-returned (returned a) f h = (a, refl, h)
bind-returned (failed e) f h = cc
bind-returned panicked f h = cc
