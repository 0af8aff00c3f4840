-- ===== src/Prelude/Outcome.antt =====
-- What a run of C code yields: a result, a fault (an access outside its object, or another undefined
-- operation), or a loop that used up the rounds it was given.
use mathlib.Core.Path.{◌≡◌, refl}

pub data Run {ℓ} (A : Type ℓ) : Type ℓ where
  ok : A → Run A
  fault : Run A
  out_of_fuel : Run A

infixl 5 ◌>>=◌
abbrev pub ◌>>=◌ {ℓ κ} : {A : Type ℓ} {B : Type κ} → Run A → (A → Run B) → Run B
ok a >>= k = k a
fault >>= k = fault
out_of_fuel >>= k = out_of_fuel

-- The code returns, and what it returns satisfies `P`.
pub data Returns {ℓ κ} {A : Type ℓ} (P : A → Type κ) : Run A → Type (ℓ ⊔ κ) where
  returns : {a : A} → P a → Returns P (ok a)

pub Returns-eq_ok {ℓ κ} :
    {A : Type ℓ} {P : A → Type κ} {r : Run A} → Returns P r → (a : A) × (r ≡ ok a) × P a
Returns-eq_ok (returns {a} p) = (a, refl, p)

pub Returns-weaken {ℓ κ μ} :
    {A : Type ℓ} {P : A → Type κ} {Q : A → Type μ} {r : Run A}
    → Returns P r
    → ((a : A) → P a → Q a)
    → Returns Q r
Returns-weaken (returns {a} p) f = returns (f a p)

pub Returns-bind {ℓ κ μ ν} :
    {A : Type ℓ} {B : Type κ} {P : A → Type μ} {Q : B → Type ν} {r : Run A} {k : A → Run B}
    → Returns P r
    → ((a : A) → P a → Returns Q (k a))
    → Returns Q (r >>= k)
Returns-bind (returns {a} p) next = next a p
