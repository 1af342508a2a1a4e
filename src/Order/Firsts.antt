-- ===== src/Order/Firsts.antt =====
-- sort.SliceStable and the search for the first value that passes a test: the stable sort leaves the
-- first such value first, and a sorted list as it is.
use Prim.Native.Nat.{Ordering}
use pangolin_gateway.Prelude.{
  ◌≡◌, ◌≢◌, refl, ap, ◌∙◌, Bool, true, false, List, [], ◌∷◌, Bool-cases, inl, inr, arith,
}
use pangolin_gateway.Order.Comparison.{IsComparison}
use pangolin_gateway.Order.Stable.{insert_sorted, stable_sort, is_lt, Sorted}

-- The first value that passes `test` is there, and `P` holds of it.
pub data First {ℓ} {A : Type ℓ} (test : A → Bool) (P : A → Type 0) : List A → Type ℓ where
  here : {x : A} {xs : List A} → test x ≡ true → P x → First test P (x ∷ xs)
  there : {x : A} {xs : List A} → test x ≡ false → First test P xs → First test P (x ∷ xs)

module _ {ℓ} {A : Type ℓ} (cmp : A → A → Ordering) (test : A → Bool) (P : A → Type 0)
    (alike : (x y : A) → test x ≡ true → test y ≡ true → cmp y x ≢ Ordering.lt) where
  insert_sorted-First :
      (x : A) (l : List A) → First test P (x ∷ l) → First test P (insert_sorted cmp x l)
  unfolding insert_sorted
  insert_sorted-First x [] w = w
  insert_sorted-First x (y ∷ ys) (First.here e h) = elim (Bool-cases (is_lt (cmp y x))) [
    | inl smaller ↦ elim (Bool-cases (test y)) [
      | inl same ↦ absurd (alike x y e same (ground arith))
      | inr other ↦ rw smaller (First.there other (insert_sorted-First x ys (First.here e h)))
    ]
    | inr later ↦ rw later (First.here e h)
  ]
  insert_sorted-First x (y ∷ ys) (First.there e (First.here f h)) =
      elim (Bool-cases (is_lt (cmp y x))) [
        | inl smaller ↦ rw smaller (First.here f h)
        | inr later ↦ rw later (First.there e (First.here f h))
      ]
  insert_sorted-First x (y ∷ ys) (First.there e (First.there f w)) =
      elim (Bool-cases (is_lt (cmp y x))) [
        | inl smaller ↦ rw smaller (First.there f (insert_sorted-First x ys (First.there e w)))
        | inr later ↦ rw later (First.there e (First.there f w))
      ]

  pub stable_sort-First : (l : List A) → First test P l → First test P (stable_sort cmp l)
  unfolding stable_sort
  stable_sort-First [] w = elim w [ ]
  stable_sort-First (x ∷ xs) (First.here e h) =
      insert_sorted-First x (stable_sort cmp xs) (First.here e h)
  stable_sort-First (x ∷ xs) (First.there e w) =
      insert_sorted-First x (stable_sort cmp xs) (First.there e (stable_sort-First xs w))

module _ {ℓ} {A : Type ℓ} (cmp : A → A → Ordering) (law : IsComparison cmp) where
  insert_sorted-Sorted_front :
      (x : A) (l : List A) → Sorted cmp (x ∷ l) → insert_sorted cmp x l ≡ x ∷ l
  unfolding insert_sorted
  insert_sorted-Sorted_front x [] s = refl
  insert_sorted-Sorted_front x (y ∷ ys) ((h, _), s) = ground (arith, law.flips x y, h)

  pub stable_sort-Sorted_lem : (l : List A) → Sorted cmp l → stable_sort cmp l ≡ l
  unfolding stable_sort
  stable_sort-Sorted_lem [] s = refl
  stable_sort-Sorted_lem (x ∷ xs) (h, s) =
      ap (insert_sorted cmp x) (stable_sort-Sorted_lem xs s)
      ∙ insert_sorted-Sorted_front x xs (h, s)
