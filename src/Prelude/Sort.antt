-- ===== src/Prelude/Sort.antt =====
-- `sort.Ints`, and lists of distinct keys.
use Prim.Native.Nat.{ℕ, ◌<◌}
use mathlib.Core.Path.{◌≡◌, refl, ◌∙◌}
use mathlib.Core.Bool.{false, ◌||◌}
use mathlib.Core.List.{List, [], ◌∷◌}
use native.Mathlib.Omega.{arith}
use netboot.Prelude.Tests.{◌==◌, ltb, if◌then◌else◌}
use netboot.Prelude.Assoc.{Assoc, has_key, keys, insert}

unfoldable pub insert_sorted : ℕ → List ℕ → List ℕ
insert_sorted k [] = k ∷ []
insert_sorted k (j ∷ js) = if ltb j k then j ∷ insert_sorted k js else k ∷ j ∷ js

unfoldable pub sort : List ℕ → List ℕ
unfolding insert_sorted
sort [] = []
sort (k ∷ ks) = insert_sorted k (sort ks)

-- No key twice.
abbrev pub Distinct : List ℕ → Type 0
Distinct [] = Unit
Distinct (k ∷ ks) = (has_key k ks ≡ false) × Distinct ks

-- `k` is below every element.
abbrev pub Below : ℕ → List ℕ → Type 0
Below k [] = Unit
Below k (j ∷ js) = (k < j) × Below k js

abbrev pub Ascending : List ℕ → Type 0
Ascending [] = Unit
Ascending (k ∷ ks) = Below k ks × Ascending ks

has_key-insert_sorted :
    (k j : ℕ) (js : List ℕ) → has_key k (insert_sorted j js) ≡ (j == k || has_key k js)
unfolding has_key insert_sorted
has_key-insert_sorted k j [] = refl
has_key-insert_sorted k j (i ∷ js) = ground (arith, has_key-insert_sorted k j js)

-- Sorting keeps the elements.
pub has_key-sort : (k : ℕ) (ks : List ℕ) → has_key k (sort ks) ≡ has_key k ks
unfolding has_key sort
has_key-sort k [] = refl
has_key-sort k (j ∷ ks) = has_key-insert_sorted k j (sort ks) ∙ ground (arith, has_key-sort k ks)

Below-trans : (k j : ℕ) (js : List ℕ) → k < j → Below j js → Below k js
Below-trans k j [] h b = tt
Below-trans k j (i ∷ js) h (b, bs) = (omega arith, Below-trans k j js h bs)

Below-insert_sorted : (i k : ℕ) (js : List ℕ) → i < k → Below i js → Below i (insert_sorted k js)
unfolding insert_sorted
Below-insert_sorted i k [] h b = (h, tt)
Below-insert_sorted i k (j ∷ js) h (b, bs) = ground (arith, Below-insert_sorted i k js h bs)

Ascending-insert_sorted :
    (k : ℕ) (js : List ℕ) → has_key k js ≡ false → Ascending js → Ascending (insert_sorted k js)
unfolding insert_sorted has_key
Ascending-insert_sorted k [] d a = (tt, tt)
Ascending-insert_sorted k (j ∷ js) d (b, a) =
    ground (arith, Ascending-insert_sorted k js, Below-insert_sorted j k js, Below-trans k j js)

-- Sorting distinct keys gives them in strictly ascending order.
pub Ascending-sort : (ks : List ℕ) → Distinct ks → Ascending (sort ks)
unfolding sort
Ascending-sort [] d = tt
Ascending-sort (k ∷ ks) (d, ds) =
    Ascending-insert_sorted k (sort ks) (has_key-sort k ks ∙ d) (Ascending-sort ks ds)

pub has_key-Below : (k : ℕ) (js : List ℕ) → Below k js → has_key k js ≡ false
unfolding has_key
has_key-Below k [] b = refl
has_key-Below k (j ∷ js) (b, bs) = ground (arith, has_key-Below k js)

-- A key below `k` is not in a list that starts at `k`.
has_key-Below_lt : (i k : ℕ) (js : List ℕ) → i < k → Below k js → has_key i js ≡ false
has_key-Below_lt i k js h b = has_key-Below i js (Below-trans i k js h b)

pub Distinct-Ascending : (ks : List ℕ) → Ascending ks → Distinct ks
Distinct-Ascending [] a = tt
Distinct-Ascending (k ∷ ks) (b, a) = (has_key-Below k ks b, Distinct-Ascending ks a)

heads_eq :
    (x y : ℕ) (xs ys : List ℕ)
    → Below x xs
    → Below y ys
    → ((k : ℕ) → has_key k (x ∷ xs) ≡ has_key k (y ∷ ys))
    → x ≡ y
unfolding has_key
heads_eq x y xs ys bx by h =
    ground (arith, h x, h y, has_key-Below_lt x y ys, has_key-Below_lt y x xs)

tails_agree :
    (x k : ℕ) (xs ys : List ℕ)
    → Below x xs
    → Below x ys
    → has_key k (x ∷ xs) ≡ has_key k (x ∷ ys)
    → has_key k xs ≡ has_key k ys
unfolding has_key
tails_agree x k xs ys bx by h = ground (arith, has_key-Below x xs, has_key-Below x ys)

-- An ascending list is determined by its elements.
pub Ascending-unique :
    (xs ys : List ℕ)
    → Ascending xs
    → Ascending ys
    → ((k : ℕ) → has_key k xs ≡ has_key k ys)
    → xs ≡ ys
unfolding has_key
Ascending-unique [] [] a b h = refl
Ascending-unique [] (y ∷ ys) a b h = absurd (ground (arith, h y))
Ascending-unique (x ∷ xs) [] a b h = absurd (ground (arith, h x))
Ascending-unique (x ∷ xs) (y ∷ ys) (bx, a) (by, b) h =
    let e : x ≡ y = heads_eq x y xs ys bx by h in
    let by' : Below x ys = rw e by in
    let h' : (k : ℕ) → has_key k (x ∷ xs) ≡ has_key k (x ∷ ys) = rw (← e) at h in
    let t : xs ≡ ys = Ascending-unique xs ys a b (λ k. tails_agree x k xs ys bx by' (h' k)) in cc

module _ {ℓ} {V : Type ℓ} where
  has_key-keys-insert :
      (k j : ℕ) (v : V) (m : Assoc V)
      → has_key j (keys (insert k v m)) ≡ (k == j || has_key j (keys m))
  unfolding has_key keys insert
  has_key-keys-insert k j v [] = refl
  has_key-keys-insert k j v ((i, w) ∷ m) = ground (arith, has_key-keys-insert k j v m)

  -- A map keeps one entry for each key.
  pub Distinct-insert :
      (k : ℕ) (v : V) (m : Assoc V) → Distinct (keys m) → Distinct (keys (insert k v m))
  unfolding keys insert
  Distinct-insert k v [] d = (unfold has_key in refl, tt)
  Distinct-insert k v ((i, w) ∷ m) (d, ds) =
      ground (arith, has_key-keys-insert k i v m, Distinct-insert k v m ds)
