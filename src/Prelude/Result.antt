-- ===== src/Prelude/Result.antt =====
-- Go's `(value, error)` pair, and the panics of slice expressions out of range.
use mathlib.Core.Path.{◌≡◌, refl}
use mathlib.Core.Bool.{Bool, true, false}

-- A function that returns a value or a non-nil error.
pub data Result {ℓ κ} (E : Type κ) (A : Type ℓ) : Type (ℓ ⊔ κ) where
  ok : A → Result E A
  err : E → Result E A

infixl 5 ◌>>=◌
abbrev pub ◌>>=◌ {ℓ κ μ} :
    {E : Type κ} {A : Type ℓ} {B : Type μ} → Result E A → (A → Result E B) → Result E B
err failure >>= next = err failure
ok value >>= next = next value

infixl 5 ◌>>◌
abbrev pub ◌>>◌ {ℓ κ} : {E : Type κ} {B : Type ℓ} → Result E (Unit {0}) → Result E B → Result E B
first >> next = first >>= λ _. next

-- `if test { return err }`
abbrev pub reject {κ} : {E : Type κ} → Bool → E → Result E (Unit {0})
reject true e = err e
reject false e = ok tt

-- `fmt.Errorf("...: %s", err)`: an error that wraps another one.
abbrev pub wrap {ℓ κ μ} : {E : Type κ} {F : Type μ} {A : Type ℓ} → (E → F) → Result E A → Result F A
wrap f (ok a) = ok a
wrap f (err e) = err (f e)

-- Inversions of successful steps.
pub bind-ok {ℓ κ μ} :
    {E : Type κ} {A : Type ℓ} {B : Type μ} (step : Result E A) (next : A → Result E B) {last : B}
    → (step >>= next) ≡ ok last
    → (mid : A) × (step ≡ ok mid) × (next mid ≡ ok last)
bind-ok (err failure) next h = cc
bind-ok (ok mid) next h = (mid, refl, h)

pub wrap-ok {ℓ κ μ} :
    {E : Type κ} {F : Type μ} {A : Type ℓ} (f : E → F) (m : Result E A) {a : A}
    → wrap f m ≡ ok a
    → m ≡ ok a
wrap-ok f (ok a) h = cc
wrap-ok f (err e) h = cc

pub reject-ok {κ} : {E : Type κ} (b : Bool) (e : E) {u : Unit {0}} → reject b e ≡ ok u → b ≡ false
reject-ok true e h = cc
reject-ok false e h = refl

pub ok-injective {ℓ κ} :
    {E : Type κ} {A : Type ℓ} {a b : A} → ◌≡◌ {A = Result E A} (ok a) (ok b) → a ≡ b
ok-injective h = cc
