-- ===== src/Order/Comparison.antt =====
-- The laws of a three-way comparison, and the comparisons that the source sorts by.
use Prim.Native.Nat.{Ordering, compare}
use Prim.Native.String.{[], ◌∷◌, then, compare as compare_str}
use Prim.Native.String.compare as clause
use text.Mathlib.TextEquality.{path_by_compare}
use pangolin_gateway.Prelude.{◌≡◌, refl, sym, ap, ◌∙◌, String, code, arith}

abbrev pub flip : Ordering → Ordering
flip Ordering.lt = Ordering.gt
flip Ordering.eq = Ordering.eq
flip Ordering.gt = Ordering.lt

pub flip-then : (o r : Ordering) → then (flip o) (flip r) ≡ flip (then o r)
flip-then Ordering.lt r = refl
flip-then Ordering.eq r = refl
flip-then Ordering.gt r = refl

pub then-eq : (o r : Ordering) → then o r ≡ Ordering.eq → (o ≡ Ordering.eq) × (r ≡ Ordering.eq)
then-eq Ordering.lt r h = absurd (cc)
then-eq Ordering.eq r h = (refl, h)
then-eq Ordering.gt r h = absurd (cc)

-- Values that compare as equal are compared alike with every other.
pub record IsComparison {ℓ} {A : Type ℓ} (cmp : A → A → Ordering) : Type ℓ where
  pub flips : (a b : A) → cmp b a ≡ flip (cmp a b)
  pub lt_trans : (a b c : A) → cmp a b ≡ Ordering.lt → cmp b c ≡ Ordering.lt → cmp a c ≡ Ordering.lt
  pub alike : (a b c : A) → cmp a b ≡ Ordering.eq → cmp b c ≡ cmp a c

module _ {ℓ} {A : Type ℓ} (cmp : A → A → Ordering) (law : IsComparison cmp) where
  pub same_eq : (a : A) → cmp a a ≡ Ordering.eq
  same_eq a = ground (arith, law.flips a a)

  pub alike_right : (a b c : A) → cmp b c ≡ Ordering.eq → cmp a b ≡ cmp a c
  alike_right a b c h = law.flips b a ∙ ap flip (sym (law.alike b c a h)) ∙ sym (law.flips c a)

module _ {ℓ} {A : Type ℓ} (first second : A → A → Ordering) where
  abbrev pub lexicographic : A → A → Ordering
  lexicographic a b = then (first a b) (second a b)

  then_trans :
      IsComparison first
      → IsComparison second
      → (a b c : A) (o r : Ordering) → first a b ≡ o
      → first b c ≡ r
      → then o (second a b) ≡ Ordering.lt
      → then r (second b c) ≡ Ordering.lt
      → lexicographic a c ≡ Ordering.lt
  then_trans f s a b c Ordering.lt Ordering.lt p q h k = rw (f.lt_trans a b c p q)
  then_trans f s a b c Ordering.lt Ordering.eq p q h k = rw (sym (alike_right first f a b c q) ∙ p)
  then_trans f s a b c Ordering.lt Ordering.gt p q h k = absurd (cc)
  then_trans f s a b c Ordering.eq Ordering.lt p q h k = rw (sym (f.alike a b c p) ∙ q)
  then_trans f s a b c Ordering.eq Ordering.eq p q h k =
      rw (sym (f.alike a b c p) ∙ q) (s.lt_trans a b c h k)
  then_trans f s a b c Ordering.eq Ordering.gt p q h k = absurd (cc)
  then_trans f s a b c Ordering.gt r p q h k = absurd (cc)

  pub lexicographic-IsComparison :
      IsComparison first → IsComparison second → IsComparison lexicographic
  lexicographic-IsComparison f s = record {
    flips = λ a b. rw (f.flips a b, s.flips a b) (flip-then (first a b) (second a b));
    lt_trans = λ a b c h k. then_trans f s a b c (first a b) (first b c) refl refl h k;
    alike = λ a b c h.
        let (p, q) = then-eq (first a b) (second a b) h in rw (f.alike a b c p, s.alike a b c q);
  }

-- Numbers.
pub compare-IsComparison : IsComparison compare
compare-IsComparison = record {
  flips = λ a b. ground arith;
  lt_trans = λ a b c h k. ground arith;
  alike = λ a b c h. ground arith;
}

compare_str-flips : (s t : String) → compare_str t s ≡ flip (compare_str s t)
compare_str-flips [] [] = refl
compare_str-flips [] (d ∷ t) = rw (clause.nil-cons d t) (clause.cons-nil d t)
compare_str-flips (c ∷ s) [] = rw (clause.cons-nil c s) (clause.nil-cons c s)
compare_str-flips (c ∷ s) (d ∷ t) = rw (clause.cons-cons c d s t) (
    rw (clause.cons-cons d c t s) (
      rw (compare-IsComparison.flips (code c) (code d), compare_str-flips s t)
        (flip-then (compare (code c) (code d)) (compare_str s t))))

-- Texts that compare as equal are equal.
compare_str-alike :
    (s t u : String) → compare_str s t ≡ Ordering.eq → compare_str t u ≡ compare_str s u
compare_str-alike s t u h = ap (λ x. compare_str x u) (sym (path_by_compare s t h))

compare_str_trans :
    (s t u : String)
    → compare_str s t ≡ Ordering.lt
    → compare_str t u ≡ Ordering.lt
    → compare_str s u ≡ Ordering.lt
compare_str_trans [] [] u h k = k
compare_str_trans [] (d ∷ t) [] h k = absurd (let e = sym (clause.cons-nil d t) ∙ k in cc)
compare_str_trans [] (d ∷ t) (x ∷ u) h k = clause.nil-cons x u
compare_str_trans (c ∷ s) [] u h k = absurd (let e = sym (clause.cons-nil c s) ∙ h in cc)
compare_str_trans (c ∷ s) (d ∷ t) [] h k = absurd (let e = sym (clause.cons-nil d t) ∙ k in cc)
compare_str_trans (c ∷ s) (d ∷ t) (x ∷ u) h k =
    clause.cons-cons c x s u
    ∙ tails (compare (code c) (code d)) (compare (code d) (code x)) refl refl
        (sym (clause.cons-cons c d s t) ∙ h) (sym (clause.cons-cons d x t u) ∙ k)
        (compare_str_trans s t u)
  where
    tails :
        (o r : Ordering)
        → compare (code c) (code d) ≡ o
        → compare (code d) (code x) ≡ r
        → then o (compare_str s t) ≡ Ordering.lt
        → then r (compare_str t u) ≡ Ordering.lt
        → (compare_str s t ≡ Ordering.lt
            → compare_str t u ≡ Ordering.lt
            → compare_str s u ≡ Ordering.lt)
        → then (compare (code c) (code x)) (compare_str s u) ≡ Ordering.lt
    tails Ordering.lt Ordering.lt p q h k ih =
        rw (compare-IsComparison.lt_trans (code c) (code d) (code x) p q)
    tails Ordering.lt Ordering.eq p q h k ih =
        rw (sym (alike_right compare compare-IsComparison (code c) (code d) (code x) q) ∙ p)
    tails Ordering.lt Ordering.gt p q h k ih = absurd (cc)
    tails Ordering.eq Ordering.lt p q h k ih =
        rw (sym (compare-IsComparison.alike (code c) (code d) (code x) p) ∙ q)
    tails Ordering.eq Ordering.eq p q h k ih =
        rw (sym (compare-IsComparison.alike (code c) (code d) (code x) p) ∙ q) (ih h k)
    tails Ordering.eq Ordering.gt p q h k ih = absurd (cc)
    tails Ordering.gt r p q h k ih = absurd (cc)

-- Texts.
pub compare_str-IsComparison : IsComparison compare_str
compare_str-IsComparison = record {
  flips = compare_str-flips;
  lt_trans = compare_str_trans;
  alike = compare_str-alike;
}

module _ {ℓ κ} {A : Type ℓ} {B : Type κ} where
  -- To compare by a field.
  pub on-IsComparison :
      (f : A → B) (cmp : B → B → Ordering)
      → IsComparison cmp
      → IsComparison (λ a b. cmp (f a) (f b))
  on-IsComparison f cmp law = record {
    flips = λ a b. law.flips (f a) (f b);
    lt_trans = λ a b c. law.lt_trans (f a) (f b) (f c);
    alike = λ a b c. law.alike (f a) (f b) (f c);
  }
