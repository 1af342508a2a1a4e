-- ===== src/Map.antt =====
-- Go's `map` as an association list with at most one entry for a key: `m[k]`, `m[k] = v`.
-- The order of the entries is that of the first writes. The source never lets a result depend on
-- the order of an iteration.
use pangolin_gateway.Prelude.{
  ◌≡◌, refl, ap, Bool, true, false, Option, none, some, List, [], ◌∷◌, Eq, ◌==◌, ==_sound, ==_refl,
  if◌then◌else◌, Bool-cases, inl, inr, ◌||◌, ◌≢◌, ==_of_ne, ◌++◌, ==_false, All,
}

abbrev pub Map {ℓ} : Type ℓ → Type ℓ → Type ℓ
Map K V = List (K × V)

module _ {ℓ} {K V : Type ℓ} ⦃e : Eq K⦄ where
  unfoldable pub lookup : K → Map K V → Option V
  lookup key [] = none
  lookup key ((k, value) ∷ rest) = if k == key then some value else lookup key rest

  unfoldable pub insert : K → V → Map K V → Map K V
  insert key value [] = (key, value) ∷ []
  insert key value ((k, old) ∷ rest) =
      if k == key then (key, value) ∷ rest else (k, old) ∷ insert key value rest

  -- Whether the key is present: the second value of `_, ok := m[k]`.
  unfoldable pub has_key : K → Map K V → Bool
  has_key k [] = false
  has_key k ((j, v) ∷ m) = j == k || has_key k m

  pub lookup-insert_self : (k : K) (v : V) (m : Map K V) → lookup k (insert k v m) ≡ some v
  unfolding lookup insert
  lookup-insert_self k v [] = rw (==_refl k)
  lookup-insert_self k v ((j, w) ∷ m) = elim (Bool-cases (j == k)) [
    | inl same ↦ rw same (rw (==_refl k))
    | inr other ↦ rw other (rw other (lookup-insert_self k v m))
  ]

  pub lookup-insert_ne :
      (k j : K) (v : V) (m : Map K V) → k ≢ j → lookup j (insert k v m) ≡ lookup j m
  unfolding lookup insert
  lookup-insert_ne k j v [] h = rw (==_of_ne k j h)
  lookup-insert_ne k j v ((i, w) ∷ m) h = elim (Bool-cases (i == k)) [
    | inl same ↦
        let p : i ≡ k = ==_sound i k same in
        rw same (rw (==_of_ne k j h) (rw p (rw (==_of_ne k j h))))
    | inr other ↦ rw other (ap (λ r. if i == j then some w else r) (lookup-insert_ne k j v m h))
  ]

  pub has_key_of_lookup : (k : K) (v : V) (m : Map K V) → lookup k m ≡ some v → has_key k m ≡ true
  unfolding lookup has_key
  has_key_of_lookup k v [] h = cc
  has_key_of_lookup k v ((j, w) ∷ m) h = elim (Bool-cases (j == k)) [
    | inl same ↦ rw same
    | inr other ↦ rw other (has_key_of_lookup k v m (rw (other, lookup) at h))
  ]

  pub lookup_of_has_key :
      (k : K) (m : Map K V) → has_key k m ≡ true → (v : V) × (lookup k m ≡ some v)
  unfolding lookup has_key
  lookup_of_has_key k [] h = absurd (cc)
  lookup_of_has_key k ((j, w) ∷ m) h = elim (Bool-cases (j == k)) [
    | inl same ↦ (w, rw same)
    | inr other ↦ let (v, p) = lookup_of_has_key k m (rw (other, has_key) at h) in (v, rw other p)
  ]

  pub has_key-false : (k : K) (m : Map K V) → has_key k m ≡ false → lookup k m ≡ none
  unfolding lookup has_key
  has_key-false k [] h = refl
  has_key-false k ((j, w) ∷ m) h = elim (Bool-cases (j == k)) [
    | inl same ↦ absurd (let q : true ≡ false = rw (same, has_key) at h in cc)
    | inr other ↦ rw other (has_key-false k m (rw (other, has_key) at h))
  ]

  pub lookup-insert :
      (written read : K) (value : V) (m : Map K V)
      → lookup read (insert written value m)
        ≡ (if written == read then some value else lookup read m)
  lookup-insert written read value m = elim (Bool-cases (written == read)) [
    | inl same ↦
        let p : written ≡ read = ==_sound written read same in
        rw same (rw (← p) (lookup-insert_self written value m))
    | inr other ↦
        rw other (lookup-insert_ne written read value m (λ p. ==_false written read other p))
  ]

  -- A new key goes behind the others.
  pub insert_new :
      (k : K) (v : V) (m : Map K V) → lookup k m ≡ none → insert k v m ≡ m ++ ((k, v) ∷ [])
  unfolding lookup insert
  insert_new k v [] h = refl
  insert_new k v ((j, w) ∷ m) h = elim (Bool-cases (j == k)) [
    | inl same ↦ absurd (let q : some w ≡ none = rw (same, lookup) at h in cc)
    | inr other ↦ rw other (ap (λ r. (j, w) ∷ r) (insert_new k v m (rw (other, lookup) at h)))
  ]

  pub lookup-append_none :
      (k : K) (l m : Map K V) → lookup k l ≡ none → lookup k (l ++ m) ≡ lookup k m
  unfolding lookup
  lookup-append_none k [] m h = refl
  lookup-append_none k ((j, w) ∷ l) m h = elim (Bool-cases (j == k)) [
    | inl same ↦ absurd (let q : some w ≡ none = rw (same, lookup) at h in cc)
    | inr other ↦ rw other (lookup-append_none k l m (rw (other, lookup) at h))
  ]

  pub has_key-insert :
      (written read : K) (value : V) (m : Map K V)
      → has_key read (insert written value m) ≡ (written == read || has_key read m)
  unfolding has_key insert
  has_key-insert written read value [] = refl
  has_key-insert written read value ((k, old) ∷ rest) = elim (Bool-cases (k == written)) [
    | inl same ↦
        let p : k ≡ written = ==_sound k written same in
        rw same (
          rw p
            (elim (written == read)
              as (λ b. (b || has_key read rest) ≡ (b || (b || has_key read rest))) [
                | true ↦ refl
                | false ↦ refl
              ]))
    | inr other ↦ rw other (
        rw (has_key-insert written read value rest)
          (elim (k == read)
            as (λ b.
              (b || (written == read || has_key read rest))
              ≡ (written == read || (b || has_key read rest))) [
                | false ↦ refl
                | true ↦ elim (written == read) as (λ b. true ≡ (b || true)) [
                  | true ↦ refl
                  | false ↦ refl
                ]
              ]))
  ]

  -- What holds of the written entry and of all others holds of all entries afterwards.
  pub All-insert {κ} :
      (P : K × V → Type κ) (key : K) (value : V) (m : Map K V)
      → P (key, value)
      → All P m
      → All P (insert key value m)
  unfolding insert
  All-insert P key value [] p _ = (p, tt)
  All-insert P key value ((k, old) ∷ rest) p (q, h) = elim (Bool-cases (k == key)) [
    | inl same ↦ rw same (p, h)
    | inr other ↦ rw other (q, All-insert P key value rest p h)
  ]
