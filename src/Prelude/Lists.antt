-- ===== src/Prelude/Lists.antt =====
-- Lists over the native numbers, a predicate on all members, and a membership test.
use Prim.Native.Nat.{ℕ, suc, ◌+◌}
use mathlib.Core.Path.{◌≡◌, refl}
use mathlib.Core.Bool.{Bool, true, false, ◌||◌}
use mathlib.Core.List.{List, [], ◌∷◌, ◌++◌, Memᴰ}
use native.Mathlib.Omega.{arith}
use pangolin_gateway.Prelude.Equality.{Eq, ◌==◌, ==_sound, ==_refl}
use pangolin_gateway.Prelude.Tests.{Bool-cases}
use mathlib.Core.Logic.{inl, inr}

module _ {ℓ} {A : Type ℓ} where
  abbrev pub length : List A → ℕ
  length [] = 0
  length (x ∷ xs) = suc (length xs)

  pub length-append : (xs ys : List A) → length (xs ++ ys) ≡ length xs + length ys
  length-append [] ys = omega arith
  length-append (x ∷ xs) ys = omega (arith, length-append xs ys)

module _ {ℓ κ} {A : Type ℓ} (P : A → Type κ) where
  abbrev pub All : List A → Type κ
  All [] = Unit
  All (x ∷ xs) = P x × All xs

  pub All-append : (xs ys : List A) → All xs → All ys → All (xs ++ ys)
  All-append [] ys _ k = k
  All-append (x ∷ xs) ys (p, h) k = (p, All-append xs ys h k)

  pub All-Memᴰ : (xs : List A) → All xs → (x : A) → Memᴰ x xs → P x
  All-Memᴰ [] _ x m = elim m [ ]
  All-Memᴰ (y ∷ ys) (p, h) x (Memᴰ.head e) = rw e p
  All-Memᴰ (y ∷ ys) (p, h) x (Memᴰ.tail m) = All-Memᴰ ys h x m

  -- What holds of the head and of every member of the tail holds of every member.
  pub Memᴰ-cons_elim :
      (x : A) (xs : List A) → P x → ((y : A) → Memᴰ y xs → P y) → (y : A) → Memᴰ y (x ∷ xs) → P y
  Memᴰ-cons_elim x xs p f y (Memᴰ.head e) = rw e p
  Memᴰ-cons_elim x xs p f y (Memᴰ.tail m) = f y m

  pub All-of_Memᴰ : (xs : List A) → ((x : A) → Memᴰ x xs → P x) → All xs
  All-of_Memᴰ [] f = tt
  All-of_Memᴰ (x ∷ xs) f = (f x (Memᴰ.head refl), All-of_Memᴰ xs (λ y m. f y (Memᴰ.tail m)))

module _ {ℓ} {A : Type ℓ} ⦃e : Eq A⦄ where
  unfoldable pub contains : List A → A → Bool
  contains [] a = false
  contains (x ∷ xs) a = x == a || contains xs a

  pub contains_sound : (xs : List A) (a : A) → contains xs a ≡ true → Memᴰ a xs
  unfolding contains
  contains_sound [] a h = cc
  contains_sound (x ∷ xs) a h = elim (Bool-cases (x == a)) [
    | inl same ↦ let p : x ≡ a = ==_sound x a same in rw p (Memᴰ.head refl)
    | inr other ↦ Memᴰ.tail (contains_sound xs a (rw (other, contains) at h))
  ]

  pub contains_complete : (xs : List A) (a : A) → Memᴰ a xs → contains xs a ≡ true
  unfolding contains
  contains_complete [] a m = elim m [ ]
  contains_complete (x ∷ xs) a (Memᴰ.head p) = rw p (rw (==_refl x))
  contains_complete (x ∷ xs) a (Memᴰ.tail m) = elim (x == a) as (λ b. (b || contains xs a) ≡ true) [
    | true ↦ refl
    | false ↦ contains_complete xs a m
  ]
