-- ===== src/Pincode/Digits.antt =====
-- internal/gateway/pincode.go: a PIN that is accepted has six digits.
use pangolin_gateway.Annotation
use Prim.Native.String.{len, [], ◌∷◌}
use pangolin_gateway.Prelude.{
  ==_sound, Bool-cases, Char, Option, String, arith, code, false, inl, inr, none, ok, refl, some, ℕ,
  ◌==◌, ◌≡◌, ◌≤◌, ◌⊎◌, string_eq, nat_eq,
}
use pangolin_gateway.Annotations.{Annotations, value_of}
use pangolin_gateway.Pincode.{pincode_for, kept_pin, bad_first}
use pangolin_gateway.Prelude.Int.{ℤ, pos, negsuc}
use pangolin_gateway.Text.{atoi, trim_space}
use pangolin_gateway.Text.Digits.{
  digit-len, digits_from-next, digits_from-end, digits_from-step, atoi-digits,
}

abbrev pub IsPin : ℕ → Type 0
IsPin n = (100000 ≤ n) × (n ≤ 999999)

first_digit : (c : Char) (s : String) → bad_first (c ∷ s) ≡ false → (49 ≤ code c) × (code c ≤ 57)
first_digit c s h = (ground arith, ground arith)

-- Six bytes that are read as a number and do not start with 0.
six_long :
    (raw : String) {n : ℕ} → len raw ≡ 6 → bad_first raw ≡ false → atoi raw ≡ some (pos n) → IsPin n
six_long [] l first h = absurd (cc)
six_long (c ∷ s) {n} l first h =
    let (low, high) = first_digit c s first in
    let (_, _, q₁) = digits_from-step 0 c s (atoi-digits c s (omega arith) h) in
    let (d, t, hd, lt, q₂) =
      digits_from-next _ s 4 (let e = digit-len c s high in omega arith) q₁ in
    let (e, u, he, lu, q₃) = digits_from-next _ t 3 lt q₂ in
    let (f, v, hf, lv, q₄) = digits_from-next _ u 2 lu q₃ in
    let (g, w, hg, lw, q₅) = digits_from-next _ v 1 lv q₄ in
    let (i, x, hi, lx, q₆) = digits_from-next _ w 0 lw q₅ in
    let sum = digits_from-end _ x lx q₆ in (omega arith, omega arith)

kept_pin-IsPin :
    (raw : String) (v : Option ℤ) {o : Option ℕ}
    → atoi raw ≡ v
    → kept_pin raw v ≡ ok o
    → (n : ℕ) × (o ≡ some n) × IsPin n
kept_pin-IsPin raw none e h = absurd (cc)
kept_pin-IsPin raw (some (negsuc n)) e h = absurd (cc)
kept_pin-IsPin raw (some (pos n)) e h = elim (Bool-cases (len raw == 6)) [
  | inr short ↦ absurd (let q = rw short at h in cc)
  | inl long ↦ elim (Bool-cases (bad_first raw)) [
    | inl bad ↦ absurd (let q = rw (long, bad) at h in cc)
    | inr first ↦
        let q = rw (long, first) at h in (n, cc, six_long raw (==_sound (len raw) 6 long) first e)
  ]
]

-- A PIN that is accepted is a number of six digits, and a route without the annotation has none.
pub pincode_for-IsPin :
    (m : Annotations) {o : Option ℕ}
    → pincode_for m ≡ ok o
    → ((trim_space (value_of m Annotation.pincode) ≡ "") × (o ≡ none))
      ⊎ ((n : ℕ) × (o ≡ some n) × IsPin n)
unfolding pincode_for
pincode_for-IsPin m {o} h =
    let raw = trim_space (value_of m Annotation.pincode) in
    elim (Bool-cases (raw == "")) [
      | inl blank ↦ (let q = rw (blank, pincode_for) at h in inl (==_sound raw "" blank, cc))
      | inr filled ↦ inr (kept_pin-IsPin raw (atoi raw) refl (rw (filled, pincode_for) at h))
    ]
