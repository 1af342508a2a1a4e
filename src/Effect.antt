-- ===== src/Effect.antt =====
-- Calls that change a world and may fail with a message, as the handlers of internal/controller make
-- them.
pub mod Keeping
use pangolin_gateway.Prelude.{◌≡◌, refl, Result, ok, err, String, Option, none, some}

abbrev pub Effect : Type 0 → Type 0 → Type 0
Effect W A = W → Result String A × W

abbrev pub after : {W A B : Type 0} → Result String A × W → (A → Effect W B) → Result String B × W
after (ok a, w) f = f a w
after (err e, w) f = (err e, w)

infixl 5 ◌>>=◌
abbrev pub ◌>>=◌ : {W A B : Type 0} → Effect W A → (A → Effect W B) → Effect W B
m >>= f = λ w. after (m w) f

abbrev pub pure : {W A : Type 0} → A → Effect W A
pure a = λ w. (ok a, w)

abbrev pub raise : {W A : Type 0} → String → Effect W A
raise e = λ w. (err e, w)

-- A call whose failure the caller looks at.
abbrev pub attempt : {W A : Type 0} → Effect W A → Effect W (Result String A)
attempt m = λ w. (ok ((m w).0), (m w).1)

abbrev pub failure : {A : Type 0} → Result String A → Option String
failure (ok a) = none
failure (err e) = some e

abbrev explain : {A : Type 0} → (String → String) → Result String A → Result String A
explain f (ok a) = ok a
explain f (err e) = err (f e)

-- `fmt.Errorf` around the failure of a call.
abbrev pub wrapped : {W A : Type 0} → (String → String) → Effect W A → Effect W A
wrapped f m = λ w. (explain f ((m w).0), (m w).1)

-- A chain that succeeds: its first step succeeds, and the rest does from where that leaves off.
pub after-eq-ok :
    {W A B : Type 0} (made : Result String A × W) (rest : A → Effect W B) {b : B}
    → (after made rest).0 ≡ ok b
    → (a : A) × (made.0 ≡ ok a) × ((rest a made.1).0 ≡ ok b)
after-eq-ok (ok a, w) rest h = (a, refl, h)
after-eq-ok (err e, w) rest h = cc
