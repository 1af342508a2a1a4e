-- ===== src/Effect/Keeping.antt =====
-- Calls that keep a property of the world, whatever they give: how the handlers of
-- internal/controller are followed through their calls.
use pangolin_gateway.Prelude.{Bool, Result, String, err, false, if◌then◌else◌, ok, true, ◌≡◌}
use pangolin_gateway.Effect.{Effect, after, attempt, pure, raise, wrapped, ◌>>=◌}

pub record Keeps {W : Type 0} (Kept : W → Type 0) {A : Type 0} (m : Effect W A) : Type 0 where
  pub keeps : (w : W) → Kept w → Kept (m w).1

module _ {W : Type 0} {Kept : W → Type 0} where
  pub pure-Keeps : {A : Type 0} (a : A) → Keeps Kept {A = A} (pure a)
  pure-Keeps a = record { keeps = λ w h. h }

  pub raise-Keeps : {A : Type 0} (e : String) → Keeps Kept {A = A} (raise e)
  raise-Keeps e = record { keeps = λ w h. h }

  after-Keeps :
      {A B : Type 0} (made : Result String A × W) (f : A → Effect W B)
      → Kept made.1
      → ((a : A) → Keeps Kept (f a))
      → Kept (after made f).1
  after-Keeps (ok a, w) f h k = (k a).keeps w h
  after-Keeps (err e, w) f h k = h

  pub >>=-Keeps :
      {A B : Type 0} {m : Effect W A} {f : A → Effect W B}
      → Keeps Kept m
      → ((a : A) → Keeps Kept (f a))
      → Keeps Kept (m >>= f)
  >>=-Keeps {m} {f} p k = record { keeps = λ w h. after-Keeps (m w) f (p.keeps w h) k }

  pub attempt-Keeps : {A : Type 0} {m : Effect W A} → Keeps Kept m → Keeps Kept (attempt m)
  attempt-Keeps p = record { keeps = λ w h. p.keeps w h }

  pub wrapped-Keeps :
      {A : Type 0} {m : Effect W A} (f : String → String) → Keeps Kept m → Keeps Kept (wrapped f m)
  wrapped-Keeps f p = record { keeps = λ w h. p.keeps w h }

  pub if-Keeps :
      {A : Type 0} (b : Bool) {m n : Effect W A}
      → Keeps Kept m
      → Keeps Kept n
      → Keeps Kept (if b then m else n)
  if-Keeps true p q = p
  if-Keeps false p q = q

  -- A call that fails, whose failure the caller looks at.
  pub attempt_failed-Keeps :
      {A B : Type 0} {m : Effect W A} (f : Result String A → Effect W B)
      → Keeps Kept m
      → ((w : W) → (e : String) × ((m w).0 ≡ err e))
      → ((e : String) → Keeps Kept (f (err e)))
      → Keeps Kept (attempt m >>= f)
  attempt_failed-Keeps {m} f p fails k = record {
    keeps = λ w h. (let (e, q) = fails w in rw q ((k e).keeps ((m w).1) (p.keeps w h)));
  }
