-- ===== src/Server/Mac/Parts.antt =====
-- strings.Split, on any text.
use netboot.Prelude.{
  ℕ, ◌≡◌, ◌≢◌, refl, List, [], ◌∷◌, ◌++◌, Bytes, ◌==◌, All, arith, Bool-cases, inl, inr, if_ind,
}
use netboot.Server.Mac.{first_part, split}

first_part-append :
    (c : ℕ) (xs ys : List Bytes) → xs ≢ [] → first_part c (xs ++ ys) ≡ first_part c xs ++ ys
unfolding first_part
first_part-append c [] ys h = absurd (h refl)
first_part-append c (x ∷ xs) ys h = refl

first_part-ne_nil : (c : ℕ) (xs : List Bytes) → first_part c xs ≢ []
unfolding first_part
first_part-ne_nil c [] = λ e. cc
first_part-ne_nil c (x ∷ xs) = λ e. cc

first_part-All :
    (P : ℕ → Type 0) (c : ℕ) (xs : List Bytes)
    → P c
    → All (λ p. All P p) xs
    → All (λ p. All P p) (first_part c xs)
unfolding first_part
first_part-All P c [] h hs = ((h, tt), tt)
first_part-All P c (x ∷ xs) h (hx, hs) = ((h, hx), hs)

split-ne_nil : (sep : ℕ) (s : Bytes) → split sep s ≢ []
unfolding split first_part
split-ne_nil sep [] = λ e. cc
split-ne_nil sep (c ∷ s) =
    if_ind (λ parts. parts ≢ []) (c == sep) _ _ (λ t e. cc) (λ f. first_part-ne_nil c (split sep s))

-- The parts of a text and of another one behind a separator.
pub split-both : (sep : ℕ) (s t : Bytes) → split sep (s ++ (sep ∷ t)) ≡ split sep s ++ split sep t
unfolding split
split-both sep [] t = ground arith
split-both sep (c ∷ s) t =
    let ih = split-both sep s t in
    let joined = first_part-append c (split sep s) (split sep t) (split-ne_nil sep s) in
    rw ih (elim (Bool-cases (c == sep)) [ inl e ↦ rw e refl | inr e ↦ rw e joined ])

-- A part holds no separator.
pub split-free : (sep : ℕ) (s : Bytes) → All (λ p. All (λ c. c ≢ sep) p) (split sep s)
unfolding split first_part
split-free sep [] = (tt, tt)
split-free sep (c ∷ s) =
    if_ind (λ parts. All (λ p. All (λ c'. c' ≢ sep) p) parts) (c == sep) _ _
      (λ t. (tt, split-free sep s))
      (λ f. first_part-All (λ c'. c' ≢ sep) c (split sep s) (λ e. ground arith) (split-free sep s))
