-- ===== src/Order/Stable.antt =====
-- sort.SliceStable as insertion from the left, which has the result that a stable sort must have.
-- A stable sort of pairwise different values forgets the order that it was given.
use Prim.Native.Nat.{Ordering}
use mathlib.Core.List.{Permᴰ, Memᴰ}
use mathlib.Core.List.Permᴰ as Permutation
use pangolin_gateway.Prelude.{
  ◌≡◌, ◌≢◌, refl, sym, ap, ◌∙◌, Bool, true, false, List, [], ◌∷◌, if◌then◌else◌, All, arith, subst,
  Bool-cases, inl, inr,
}
use pangolin_gateway.Order.Comparison.{IsComparison, flip}

abbrev pub is_lt : Ordering → Bool
is_lt Ordering.lt = true
is_lt _ = false

module _ {ℓ} {A : Type ℓ} (cmp : A → A → Ordering) where
  -- In front of the first value that is not smaller.
  unfoldable pub insert_sorted : A → List A → List A
  insert_sorted x [] = x ∷ []
  insert_sorted x (y ∷ ys) = if is_lt (cmp y x) then y ∷ insert_sorted x ys else x ∷ y ∷ ys

  unfoldable pub stable_sort : List A → List A
  unfolding insert_sorted
  stable_sort [] = []
  stable_sort (x ∷ xs) = insert_sorted x (stable_sort xs)

  -- No value compares as greater than one behind it.
  abbrev pub Sorted : List A → Type 0
  Sorted [] = Unit
  Sorted (x ∷ xs) = All (λ y. cmp x y ≢ Ordering.gt) xs × Sorted xs

  -- No two of the values compare as equal.
  abbrev pub Distinct : List A → Type 0
  Distinct [] = Unit
  Distinct (x ∷ xs) = All (λ y. cmp x y ≢ Ordering.eq) xs × Distinct xs

pub All-Permᴰ {ℓ} : {A : Type ℓ} (P : A → Type 0) {l m : List A} → Permᴰ l m → All P l → All P m
All-Permᴰ P Permᴰ.nil h = tt
All-Permᴰ P (Permᴰ.cons e p) h = (subst P e h.0, All-Permᴰ P p h.1)
All-Permᴰ P (Permᴰ.swap e f) (a, (b, h)) = (subst P f b, (subst P e a, h))
All-Permᴰ P (Permᴰ.trans p q) h = All-Permᴰ P q (All-Permᴰ P p h)

pub Memᴰ-Permᴰ {ℓ} : {A : Type ℓ} {x : A} {l m : List A} → Permᴰ l m → Memᴰ x l → Memᴰ x m
Memᴰ-Permᴰ Permᴰ.nil h = h
Memᴰ-Permᴰ (Permᴰ.cons e p) (Memᴰ.head q) = Memᴰ.head (q ∙ e)
Memᴰ-Permᴰ (Permᴰ.cons e p) (Memᴰ.tail h) = Memᴰ.tail (Memᴰ-Permᴰ p h)
Memᴰ-Permᴰ (Permᴰ.swap e f) (Memᴰ.head q) = Memᴰ.tail (Memᴰ.head (q ∙ e))
Memᴰ-Permᴰ (Permᴰ.swap e f) (Memᴰ.tail (Memᴰ.head q)) = Memᴰ.head (q ∙ f)
Memᴰ-Permᴰ (Permᴰ.swap e f) (Memᴰ.tail (Memᴰ.tail h)) = Memᴰ.tail (Memᴰ.tail h)
Memᴰ-Permᴰ (Permᴰ.trans p q) h = Memᴰ-Permᴰ q (Memᴰ-Permᴰ p h)

module _ {ℓ} {A : Type ℓ} (cmp : A → A → Ordering) (law : IsComparison cmp) where
  insert_comm_lt :
      (x y : A) (l : List A)
      → cmp x y ≡ Ordering.lt
      → insert_sorted cmp x (insert_sorted cmp y l) ≡ insert_sorted cmp y (insert_sorted cmp x l)
  unfolding insert_sorted
  insert_comm_lt x y [] h = ground (arith, law.flips x y)
  insert_comm_lt x y (z ∷ zs) h =
      ground (arith, insert_comm_lt x y zs h, law.flips x y, law.lt_trans z x y)

  insert_comm :
      (x y : A) (l : List A)
      → cmp x y ≢ Ordering.eq
      → insert_sorted cmp x (insert_sorted cmp y l) ≡ insert_sorted cmp y (insert_sorted cmp x l)
  insert_comm x y l h = go (cmp x y) refl
    where
      go :
          (o : Ordering)
          → cmp x y ≡ o
          → insert_sorted cmp x (insert_sorted cmp y l)
            ≡ insert_sorted cmp y (insert_sorted cmp x l)
      go Ordering.lt p = insert_comm_lt x y l p
      go Ordering.eq p = absurd (h p)
      go Ordering.gt p = sym (insert_comm_lt y x l (law.flips x y ∙ ap flip p))

  differs_symm : (x y : A) → cmp x y ≢ Ordering.eq → cmp y x ≢ Ordering.eq
  differs_symm x y h e = h (law.flips y x ∙ ap flip e)

  pub Distinct-Permᴰ : {l m : List A} → Permᴰ l m → Distinct cmp l → Distinct cmp m
  Distinct-Permᴰ Permᴰ.nil d = tt
  Distinct-Permᴰ (Permᴰ.cons {a} {b} {l₂ = m} e p) (h, d) = (
    subst (λ x. All (λ y. cmp x y ≢ Ordering.eq) m) e (All-Permᴰ (λ y. cmp a y ≢ Ordering.eq) p h),
    Distinct-Permᴰ p d,
  )
  Distinct-Permᴰ (Permᴰ.swap {a} {b} {a'} {b'} {l} e f) ((k, h), (h', d)) = (
    (rw (← e, ← f) (differs_symm a b k), subst (λ x. All (λ y. cmp x y ≢ Ordering.eq) l) f h'),
    (subst (λ x. All (λ y. cmp x y ≢ Ordering.eq) l) e h, d),
  )
  Distinct-Permᴰ (Permᴰ.trans p q) d = Distinct-Permᴰ q (Distinct-Permᴰ p d)

  -- The order of the input is forgotten.
  pub Permᴰ-stable_sort :
      {l m : List A} → Permᴰ l m → Distinct cmp l → stable_sort cmp l ≡ stable_sort cmp m
  unfolding stable_sort
  Permᴰ-stable_sort Permᴰ.nil d = refl
  Permᴰ-stable_sort (Permᴰ.cons e p) (h, d) = λ i. insert_sorted cmp (e i) (Permᴰ-stable_sort p d i)
  Permᴰ-stable_sort (Permᴰ.swap {a} {b} {l} e f) ((k, h), d) =
      insert_comm a b (stable_sort cmp l) k
      ∙ (λ i. insert_sorted cmp (f i) (insert_sorted cmp (e i) (stable_sort cmp l)))
  Permᴰ-stable_sort (Permᴰ.trans p q) d =
      Permᴰ-stable_sort p d ∙ Permᴰ-stable_sort q (Distinct-Permᴰ p d)

  insert_sorted-perm : (x : A) (l : List A) → Permᴰ (x ∷ l) (insert_sorted cmp x l)
  unfolding insert_sorted
  insert_sorted-perm x [] = Permutation.refl (x ∷ [])
  insert_sorted-perm x (y ∷ ys) = elim (Bool-cases (is_lt (cmp y x))) [
    | inl smaller ↦
        rw smaller (Permᴰ.trans (Permᴰ.swap refl refl) (Permᴰ.cons refl (insert_sorted-perm x ys)))
    | inr not ↦ rw not (Permutation.refl (x ∷ y ∷ ys))
  ]

  pub stable_sort-perm : (l : List A) → Permᴰ l (stable_sort cmp l)
  unfolding stable_sort
  stable_sort-perm [] = Permᴰ.nil
  stable_sort-perm (x ∷ xs) =
      Permᴰ.trans (Permᴰ.cons refl (stable_sort-perm xs))
        (insert_sorted-perm x (stable_sort cmp xs))

  insert_sorted-NotAfter :
      (x y : A) (l : List A)
      → cmp y x ≡ Ordering.lt
      → All (λ z. cmp y z ≢ Ordering.gt) l
      → All (λ z. cmp y z ≢ Ordering.gt) (insert_sorted cmp x l)
  insert_sorted-NotAfter x y l h k = All-Permᴰ _ (insert_sorted-perm x l) ((λ e. cc), k)

  not_after : (x y z : A) → cmp y x ≢ Ordering.lt → cmp y z ≢ Ordering.gt → cmp x z ≢ Ordering.gt
  not_after x y z h k = ground (arith, law.flips x z, law.lt_trans y z x, law.alike y z x)

  not_after-All :
      (x y : A) (l : List A)
      → cmp y x ≢ Ordering.lt
      → All (λ z. cmp y z ≢ Ordering.gt) l
      → All (λ z. cmp x z ≢ Ordering.gt) l
  not_after-All x y [] h _ = tt
  not_after-All x y (z ∷ zs) h (k, ks) = (not_after x y z h k, not_after-All x y zs h ks)

  in_front :
      (x y : A) (ys : List A)
      → cmp y x ≢ Ordering.lt
      → Sorted cmp (y ∷ ys)
      → Sorted cmp (x ∷ y ∷ ys)
  in_front x y ys h (k, s) =
      (((λ e. ground (arith, law.flips x y)), not_after-All x y ys h k), (k, s))

  insert_sorted-Sorted : (x : A) (l : List A) → Sorted cmp l → Sorted cmp (insert_sorted cmp x l)
  unfolding insert_sorted
  insert_sorted-Sorted x [] s = (tt, tt)
  insert_sorted-Sorted x (y ∷ ys) (h, s) = elim (Bool-cases (is_lt (cmp y x))) [
    | inl smaller ↦
        rw smaller (insert_sorted-NotAfter x y ys (ground arith) h, insert_sorted-Sorted x ys s)
    | inr later ↦ rw later (in_front x y ys (ground arith) (h, s))
  ]

  pub stable_sort-Sorted : (l : List A) → Sorted cmp (stable_sort cmp l)
  unfolding stable_sort
  stable_sort-Sorted [] = tt
  stable_sort-Sorted (x ∷ xs) = insert_sorted-Sorted x (stable_sort cmp xs) (stable_sort-Sorted xs)
