-- ===== src/Prelude/Results.antt =====
-- A value or an error, as Go returns them in a pair.
use mathlib.Core.Bool.{Bool, true, false}
use mathlib.Core.Logic.{◌⊎◌, inl, inr}
use mathlib.Core.Path.{◌≡◌, refl}
use pangolin_gateway.Prelude.Tests.{if◌then◌else◌}

pub data Result {ℓ} (E A : Type ℓ) : Type ℓ where
  err : E → Result E A
  ok : A → Result E A

-- `if err != nil { return err }` between two steps.
infixl 5 ◌>>=◌
abbrev pub ◌>>=◌ {ℓ} : {E A B : Type ℓ} → Result E A → (A → Result E B) → Result E B
err reason >>= next = err reason
ok value >>= next = next value

-- A check that is passed: its test is false, and the rest succeeds.
pub guard-eq-ok {ℓ} :
    {E A : Type ℓ} {a : A} (bad : Bool) (reason : E) (rest : Result E A)
    → (if bad then err reason else rest) ≡ ok a
    → (bad ≡ false) × (rest ≡ ok a)
guard-eq-ok true reason rest h = cc
guard-eq-ok false reason rest h = (refl, h)

-- The same for a last check, whose test is true.
pub last-eq-ok {ℓ} :
    {E A : Type ℓ} {b : A} (good : Bool) (reason : E) (a : A)
    → (if good then ok a else err reason) ≡ ok b
    → (good ≡ true) × (a ≡ b)
last-eq-ok true reason a h = (refl, cc)
last-eq-ok false reason a h = cc

module _ {ℓ} {E A B : Type ℓ} where
  -- A chain that succeeds: its first step succeeds, and the rest does on that value.
  pub >>=-eq-ok :
      (step : Result E A) (next : A → Result E B) {result : B}
      → (step >>= next) ≡ ok result
      → (value : A) × (step ≡ ok value) × (next value ≡ ok result)
  >>=-eq-ok (ok value) next chain = (value, refl, chain)
  >>=-eq-ok (err reason) next chain = cc

  -- Two continuations that agree give the same chain.
  pub >>=-congruent :
      (m : Result E A) (f g : A → Result E B) → ((a : A) → f a ≡ g a) → (m >>= f) ≡ (m >>= g)
  >>=-congruent (ok a) f g h = h a
  >>=-congruent (err e) f g h = refl

pub ok-injective {ℓ} : {E A : Type ℓ} {a b : A} → (let m : Result E A = ok a in m) ≡ ok b → a ≡ b
ok-injective h = cc

pub Result-cases {ℓ} :
    {E A : Type ℓ} (r : Result E A) → ((e : E) × (r ≡ err e)) ⊎ ((a : A) × (r ≡ ok a))
Result-cases (err e) = inl (e, refl)
Result-cases (ok a) = inr (a, refl)
