-- ===== src/Prelude/Assoc.antt =====
-- Go maps with numeric keys, as association lists. The order of the entries stands for Go's
-- unspecified iteration order.
use Prim.Native.Nat.{ℕ}
use mathlib.Core.Path.{◌≡◌, refl}
use mathlib.Core.Bool.{Bool, true, false, ◌||◌}
use mathlib.Core.Option.{Option, none, some}
use mathlib.Core.List.{List, [], ◌∷◌}
use native.Mathlib.Omega.{arith}
use netboot.Prelude.Tests.{◌==◌, if◌then◌else◌}

abbrev pub Assoc {ℓ} : Type ℓ → Type ℓ
Assoc V = List (ℕ × V)

-- Is `k` an element of the list of keys?
unfoldable pub has_key : ℕ → List ℕ → Bool
has_key k [] = false
has_key k (j ∷ js) = j == k || has_key k js

module _ {ℓ} {V : Type ℓ} where
  -- v, ok := m[k]
  unfoldable pub lookup : ℕ → Assoc V → Option V
  lookup key [] = none
  lookup key ((first, value) ∷ others) =
      let later = lookup key others in if first == key then some value else later

  -- m[k] = v
  unfoldable pub insert : ℕ → V → Assoc V → Assoc V
  insert key value [] = (key, value) ∷ []
  insert key value ((first, old) ∷ others) =
      let later = insert key value others in
      if first == key then (key, value) ∷ others else (first, old) ∷ later

  -- delete(m, k)
  unfoldable pub remove : ℕ → Assoc V → Assoc V
  remove k [] = []
  remove k ((j, w) ∷ m) = let rest = remove k m in if j == k then rest else (j, w) ∷ rest

  -- for k := range m
  unfoldable pub keys : Assoc V → List ℕ
  keys [] = []
  keys ((j, w) ∷ m) = j ∷ keys m

  -- _, ok := m[k]
  unfoldable pub has : ℕ → Assoc V → Bool
  unfolding lookup
  has k m = elim (lookup k m) [ none ↦ false | some v ↦ true ]

  pub lookup-insert :
      (key other : ℕ) (value : V) (m : Assoc V)
      → lookup other (insert key value m) ≡ (if key == other then some value else lookup other m)
  unfolding insert lookup
  lookup-insert key other value [] = refl
  lookup-insert key other value ((first, old) ∷ others) =
      ground (lookup-insert key other value others, arith)

  pub lookup-remove :
      (k j : ℕ) (m : Assoc V) → lookup j (remove k m) ≡ (if k == j then none else lookup j m)
  unfolding lookup remove
  lookup-remove k j [] = ground arith
  lookup-remove k j ((i, w) ∷ m) = ground (arith, lookup-remove k j m)

  pub has_key-keys : (k : ℕ) (m : Assoc V) → has_key k (keys m) ≡ has k m
  unfolding has_key keys has lookup
  has_key-keys k [] = refl
  has_key-keys k ((j, w) ∷ m) = ground (arith, has_key-keys k m)

  pub has-insert :
      (k j : ℕ) (v : V) (m : Assoc V) → has j (insert k v m) ≡ (if k == j then true else has j m)
  unfolding has lookup insert
  has-insert k j v [] = ground arith
  has-insert k j v ((i, w) ∷ m) = ground (arith, has-insert k j v m)

  pub has-remove :
      (k j : ℕ) (m : Assoc V) → has j (remove k m) ≡ (if k == j then false else has j m)
  unfolding has lookup remove
  has-remove k j [] = ground arith
  has-remove k j ((i, w) ∷ m) = ground (arith, has-remove k j m)
