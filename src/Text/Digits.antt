-- ===== src/Text/Digits.antt =====
-- The decimal digits that strconv.Atoi reads, one at a time.
use Prim.Native.String.len
use Prim.Native.Char.{len_utf8, len_utf8_def, width}
use Prim.Native.Nat.{compare, Ordering}
use Prim.Native.String.{[], ◌∷◌, len}
use pangolin_gateway.Prelude.{
  Bool-cases, Char, Option, String, arith, code, false, inl, inr, nat_beq, none, some, ℕ, ◌*◌, ◌+◌,
  ◌-◌, ◌≡◌, ◌≤◌, suc, sym, ◌∙◌, ap, string_eq, nat_eq,
}
use pangolin_gateway.Prelude.Int.{pos}
use pangolin_gateway.Text.Atoi.{digits_from, digits_value, atoi, is_digit, to_positive}

-- One digit is read on to ten times what was read before.
pub digits_from-step :
    (acc : ℕ) (c : Char) (s : String) {n : ℕ}
    → digits_from acc (c ∷ s) ≡ some n
    → (48 ≤ code c) × (code c ≤ 57) × (digits_from (10 * acc + (code c - 48)) s ≡ some n)
unfolding digits_from is_digit
digits_from-step acc c s h = elim (Bool-cases (is_digit c)) [
  | inl digit ↦
      let low : 48 ≤ code c = ground arith in
      let high : code c ≤ 57 = ground arith in (low, high, rw (digit, digits_from) at h)
  | inr other ↦ absurd (let q = rw (other, digits_from) at h in cc)
]

pub digits_from-nil : (acc : ℕ) {n : ℕ} → digits_from acc [] ≡ some n → acc ≡ n
unfolding digits_from
digits_from-nil acc h = cc

-- A text that starts with a digit is read as the number of its digits.
pub atoi-digits :
    (c : Char) (s : String) {n : ℕ}
    → 48 ≤ code c
    → atoi (c ∷ s) ≡ some (pos n)
    → digits_from 0 (c ∷ s) ≡ some n
unfolding atoi digits_value
atoi-digits c s {n} d h =
    let no_minus : nat_beq (code c) b'-' ≡ false = ground arith in
    let no_plus : nat_beq (code c) b'+' ≡ false = ground arith in
    kept (digits_from 0 (c ∷ s)) (rw (no_minus, no_plus, atoi) at h)
  where
    kept : (o : Option ℕ) {n : ℕ} → to_positive o ≡ some (pos n) → o ≡ some n
    kept none q = cc
    kept (some m) q = ground arith

pub digit-len : (c : Char) (s : String) → code c ≤ 57 → len (c ∷ s) ≡ suc (len s)
digit-len c s d =
    let ascii : compare (code c) 128 ≡ Ordering.lt = ground arith in
    let one : len_utf8 c ≡ 1 =
      (λ i. len_utf8_def c i)
      ∙ ap (λ o. width o (compare (code c) 2048) (compare (code c) 65536)) ascii in
    len.cons c s ∙ ap (λ w. w + len s) one ∙ omega arith

-- A text of digits has a first digit where it is not empty.
pub digits_from-next :
    (acc : ℕ) (s : String) (k : ℕ) {n : ℕ}
    → len s ≡ suc k
    → digits_from acc s ≡ some n
    → (d : ℕ) × (t : String) × (d ≤ 9) × (len t ≡ k) × (digits_from (10 * acc + d) t ≡ some n)
digits_from-next acc [] k l h = absurd (let e = sym len.nil ∙ l in omega arith)
digits_from-next acc (c ∷ s) k l h =
    let (low, high, q) = digits_from-step acc c s h in
    let e = digit-len c s high in (code c - 48, s, omega arith, omega arith, q)

pub digits_from-end :
    (acc : ℕ) (s : String) {n : ℕ} → len s ≡ 0 → digits_from acc s ≡ some n → acc ≡ n
digits_from-end acc [] l h = digits_from-nil acc h
digits_from-end acc (c ∷ s) l h =
    let (low, high, q) = digits_from-step acc c s h in
    let e = digit-len c s high in absurd (omega arith)
