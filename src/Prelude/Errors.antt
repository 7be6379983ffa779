-- ===== src/Prelude/Errors.antt =====
-- `std::expected`, and exceptions as values.
use mathlib.Core.Path.{◌≡◌, refl}
use mathlib.Core.Logic.{◌⊎◌, inl, inr}
use mathlib.Core.Bool.{Bool, true, false}

pub data Result {ℓ κ} (E : Type ℓ) (A : Type κ) : Type (ℓ ⊔ κ) where
  ok : A → Result E A
  err : E → Result E A

module _ {ℓ κ} {E : Type ℓ} {A : Type κ} where
  infixl 5 ◌>>=◌
  abbrev pub ◌>>=◌ {μ} : {B : Type μ} → Result E A → (A → Result E B) → Result E B
  ◌>>=◌ (err thrown) next = err thrown
  ◌>>=◌ (ok value) next = next value

  -- `if (test) throw error;`
  abbrev pub throw_if : Bool → E → Result E A → Result E A
  throw_if true e next = err e
  throw_if false e next = next

  pub Result-cases : (r : Result E A) → ((a : A) × (r ≡ ok a)) ⊎ ((e : E) × (r ≡ err e))
  Result-cases (ok a) = inl (a, refl)
  Result-cases (err e) = inr (e, refl)

  pub throw_if-eq-ok :
      (b : Bool) (e : E) (next : Result E A) (a : A)
      → throw_if b e next ≡ ok a
      → (b ≡ false) × (next ≡ ok a)
  throw_if-eq-ok true e next a h = cc
  throw_if-eq-ok false e next a h = (refl, h)

  -- A chain that returns has returned at its first step.
  pub bind-eq-ok {μ} :
      {B : Type μ} (first : Result E A) (next : A → Result E B) {last : B}
      → ◌≡◌ {A = Result E B} (first >>= next) (ok last)
      → (mid : A) × (first ≡ ok mid) × (next mid ≡ ok last)
  bind-eq-ok (err thrown) next stop = cc
  bind-eq-ok (ok mid) next done = (mid, refl, done)

  pub ok-injective : {a b : A} → ◌≡◌ {A = Result E A} (ok a) (ok b) → a ≡ b
  ok-injective e = cc
