-- ===== src/Base/Results.antt =====
-- A Go pair of a value and an error, as a sum, with `do`.
use mathlib.Core.Bool.{Bool, true, false}
use mathlib.Core.Path.{◌≡◌, refl, subst}
use mathlib.Core.Logic.{◌⊎◌, inl, inr}

pub data Result {ℓ κ} (E : Type ℓ) (A : Type κ) : Type (ℓ ⊔ κ) where
  success : A → Result E A
  failure : E → Result E A

infixl 5 ◌>>=◌ ◌>>◌
abbrev pub ◌>>=◌ {ℓ κ μ} :
    {E : Type ℓ} {A : Type κ} {B : Type μ} → Result E A → (A → Result E B) → Result E B
success a >>= f = f a
failure e >>= f = failure e

abbrev pub ◌>>◌ {ℓ κ} : {E : Type ℓ} {B : Type κ} → Result E (Unit {0}) → Result E B → Result E B
m >> k = m >>= λ _. k

-- `if !b { return err }`.
abbrev pub require {ℓ} : {E : Type ℓ} → Bool → E → Result E (Unit {0})
require true e = success tt
require false e = failure e

pub Result-cases {ℓ κ} :
    {E : Type ℓ} {A : Type κ} (r : Result E A)
    → ((a : A) × (r ≡ success a)) ⊎ ((e : E) × (r ≡ failure e))
Result-cases (success a) = inl (a, refl)
Result-cases (failure e) = inr (e, refl)

-- What holds of the value, where there is one.
pub data Ensures {ℓ κ μ} {E : Type ℓ} {A : Type κ} (P : A → Type μ)
    : Result E A → Type (ℓ ⊔ κ ⊔ μ) where
  holds : {a : A} → P a → Ensures P (success a)
  failed : {e : E} → Ensures P (failure e)

module _ {ℓ κ μ} {E : Type ℓ} {A : Type κ} {P : A → Type μ} where
  pub Ensures-bind :
      {B : Type κ} (r : Result E B) (k : B → Result E A)
      → ((b : B) → r ≡ success b → Ensures P (k b))
      → Ensures P (r >>= k)
  Ensures-bind (success b) k h = h b refl
  Ensures-bind (failure e) k h = failed

  pub Ensures-require :
      (b : Bool) (e : E) (k : Result E A)
      → (b ≡ true → Ensures P k)
      → Ensures P (require b e >>= (λ (u : Unit {0}). k))
  Ensures-require true e k h = h refl
  Ensures-require false e k h = failed

  pub Ensures-success : (r : Result E A) (a : A) → Ensures P r → r ≡ success a → P a
  Ensures-success r a (holds p) e = subst P (cc) p
  Ensures-success r a failed e = absurd (cc e)
