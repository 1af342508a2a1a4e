-- ===== src/Collisions/Rivals.antt =====
-- Why a candidate loses: an older winner holds its key, or one of its hostnames in its section.
use mathlib.Core.List.Memᴰ
use Prim.Native.Nat.{Ordering}
use mathlib.Core.Bool.{and-eq-true_iff}
use mathlib.Core.List.{Memᴰ}
use pangolin_gateway.Prelude.{
  ==_sound, Bool, Bool-cases, List, Option-cases, String, [], arith, contains, inl, inr, refl, some,
  true, ◌&&◌, ◌==◌, ◌∷◌, ◌≡◌, ◌⊎◌, All, All-Memᴰ, ap, subst, sym, ◌++◌, ◌∙◌, ◌≢◌, string_eq,
}
use pangolin_gateway.Collisions.{Candidate, Claimant, is_public, Outcome, by_age, won, claimant_eq}
use pangolin_gateway.Collisions.Reference.{
  first_owned, in_section, lowered, owner_of_host, owner_of_key, verdict_against, DistinctClaimants,
  joined, verdicts, winners,
}
use pangolin_gateway.Collisions.Refinement.{joined-lost, joined-won, verdict_against-won}
use pangolin_gateway.Collisions.Winners.{Memᴰ-winners, lookup-verdicts_head, lookup-verdicts_tail}
use pangolin_gateway.Map.{lookup}
use pangolin_gateway.Order.{Distinct, Sorted}
use pangolin_gateway.Text.{to_lower}
use pangolin_gateway.Verdict.{ConditionResult}

-- `w` holds what `c` asks for.
abbrev pub Clash : Candidate → Candidate → Type 0
Clash w c =
    (w.entry.key ≡ c.entry.key)
    ⊎ ((in_section (is_public c.entry) w.entry ≡ true)
        × ((h : String) × Memᴰ h c.entry.hostnames
            × (contains (lowered w.entry) (to_lower h) ≡ true)))

holder_of_key :
    (k : String) (ws : List Candidate) {o : Claimant}
    → owner_of_key k ws ≡ some o
    → (w : Candidate) × Memᴰ w ws × (w.entry.key ≡ k)
unfolding owner_of_key
holder_of_key k [] h = absurd (cc)
holder_of_key k (w ∷ ws) h = elim (Bool-cases (w.entry.key == k)) [
  | inl same ↦ (w, Memᴰ.head refl, ==_sound w.entry.key k same)
  | inr other ↦
      let (v, m, e) = holder_of_key k ws (rw (other, owner_of_key) at h) in (v, Memᴰ.tail m, e)
]

holder_of_host :
    (b : Bool) (h : String) (ws : List Candidate) {o : Claimant}
    → owner_of_host b h ws ≡ some o
    → (w : Candidate) × Memᴰ w ws
      × (in_section b w.entry ≡ true)
      × (contains (lowered w.entry) h ≡ true)
unfolding owner_of_host
holder_of_host b h [] e = absurd (cc)
holder_of_host b h (w ∷ ws) e =
    elim (Bool-cases (in_section b w.entry && contains (lowered w.entry) h)) [
      | inl both ↦ let (p, q) = (and-eq-true_iff _ _).0 both in (w, Memᴰ.head refl, p, q)
      | inr other ↦
          let (v, m, p, q) = holder_of_host b h ws (rw (other, owner_of_host) at e) in
          (v, Memᴰ.tail m, p, q)
    ]

holder_of_first :
    (b : Bool) (hs : List String) (ws : List Candidate) {found : String × Claimant}
    → first_owned b hs ws ≡ some found
    → (w : Candidate) × Memᴰ w ws
      × (in_section b w.entry ≡ true)
      × ((h : String) × Memᴰ h hs × (contains (lowered w.entry) (to_lower h) ≡ true))
unfolding first_owned
holder_of_first b [] ws e = absurd (cc)
holder_of_first b (h ∷ hs) ws e = elim (Option-cases (owner_of_host b (to_lower h) ws)) [
  | inl free ↦
      let (w, m, p, (g, n, q)) = holder_of_first b hs ws (rw (free, first_owned) at e) in
      (w, m, p, (g, Memᴰ.tail n, q))
  | inr (o, owned) ↦
      let (w, m, p, q) = holder_of_host b (to_lower h) ws owned in (w, m, p, (h, Memᴰ.head refl, q))
]

-- A rejection has a rival among the winners.
rival_of_verdict :
    (ws : List Candidate) (c : Candidate) {reason : ConditionResult}
    → (verdict_against ws c).rejected ≡ some reason
    → (w : Candidate) × Memᴰ w ws × Clash w c
unfolding verdict_against
rival_of_verdict ws c h = elim (Option-cases (owner_of_key c.entry.key ws)) [
  | inr (o, owned) ↦ let (w, m, e) = holder_of_key c.entry.key ws owned in (w, m, inl e)
  | inl free ↦ elim (Option-cases (first_owned (is_public c.entry) c.entry.hostnames ws)) [
    | inr (found, owned) ↦
        let (w, m, p, q) = holder_of_first (is_public c.entry) c.entry.hostnames ws owned in
        (w, m, inr (p, q))
    | inl free_hosts ↦ absurd (ground arith)
  ]
]

-- Every winner was older than the candidates that are still to come.
abbrev Older : List Candidate → List Candidate → Type 0
Older ws cs = (w d : Candidate) → Memᴰ w ws → Memᴰ d cs → by_age w d ≡ Ordering.lt

Memᴰ-joined_cases :
    (w : Candidate) (ws : List Candidate) (c : Candidate)
    → Memᴰ w (joined ws c)
    → Memᴰ w ws ⊎ ((w ≡ c) × (verdict_against ws c ≡ won c.entry.key))
Memᴰ-joined_cases w ws c m = elim (Option-cases (verdict_against ws c).rejected) [
  | inl free ↦
      let appended : Memᴰ w (ws ++ (c ∷ [])) = subst (Memᴰ w) (joined-won ws c free) m in
      elim (Memᴰ.append_cases ws appended) [
        | inl old ↦ inl old
        | inr new ↦ inr (Memᴰ.eq_of_singleton new, (verdict_against-won ws c free).2)
      ]
  | inr (reason, refused) ↦ inl (subst (Memᴰ w) (joined-lost ws c refused) m)
]

first_is_older :
    (c : Candidate) (cs : List Candidate)
    → All (λ d. by_age c d ≢ Ordering.gt) cs
    → All (λ d. by_age c d ≢ Ordering.eq) cs
    → (d : Candidate) → Memᴰ d cs
    → by_age c d ≡ Ordering.lt
first_is_older c cs s t d m = go (by_age c d) refl (All-Memᴰ _ cs s d m) (All-Memᴰ _ cs t d m)
  where
    go :
        (o : Ordering)
        → by_age c d ≡ o
        → by_age c d ≢ Ordering.gt
        → by_age c d ≢ Ordering.eq
        → by_age c d ≡ Ordering.lt
    go Ordering.lt p h k = p
    go Ordering.eq p h k = absurd (k p)
    go Ordering.gt p h k = absurd (h p)

Older-joined :
    (ws : List Candidate) (c : Candidate) (cs : List Candidate)
    → Older ws (c ∷ cs)
    → ((d : Candidate) → Memᴰ d cs → by_age c d ≡ Ordering.lt)
    → Older (joined ws c) cs
Older-joined ws c cs old first w d m n = elim (Memᴰ-joined_cases w ws c m) [
  | inl was ↦ old w d was (Memᴰ.tail n)
  | inr (e, _) ↦ rw e (first d n)
]

-- A rejected candidate of a sorted list has an older winner as its rival.
pub rival :
    (cs ws : List Candidate) (c : Candidate) (o : Outcome) {reason : ConditionResult}
    → DistinctClaimants cs
    → Distinct by_age cs
    → Sorted by_age cs
    → Older ws cs
    → Memᴰ c cs
    → lookup c.claimant (verdicts ws cs) ≡ some o
    → o.rejected ≡ some reason
    → (w : Candidate) × Memᴰ w (winners ws cs) × (by_age w c ≡ Ordering.lt) × Clash w c
unfolding winners
rival [] ws c o d t s old m h r = elim m [ ]
rival (x ∷ xs) ws c o (apart, d) (t, ts) (s, ss) old (Memᴰ.head e) h r =
    let found : some (verdict_against ws c) ≡ some o =
      sym (lookup-verdicts_head c xs ws)
      ∙ subst (λ (y : Candidate). lookup c.claimant (verdicts ws (y ∷ xs)) ≡ some o) (sym e) h in
    let same : verdict_against ws c ≡ o = cc in
    let (w, n, clash) = rival_of_verdict ws c (ap (λ (v : Outcome). v.rejected) same ∙ r) in
    (w, Memᴰ-winners w (x ∷ xs) ws n, old w c n (Memᴰ.head e), clash)
rival (x ∷ xs) ws c o (apart, d) (t, ts) (s, ss) old (Memᴰ.tail m) h r =
    rival xs (joined ws x) c o d ts ss (Older-joined ws x xs old (first_is_older x xs s t)) m
      (sym (lookup-verdicts_tail c x xs ws (All-Memᴰ _ xs apart c m)) ∙ h) r

-- Every winner has an outcome that awards it its key.
pub winner_outcome :
    (cs ws : List Candidate) (w : Candidate)
    → DistinctClaimants cs
    → Memᴰ w (winners ws cs)
    → Memᴰ w ws ⊎ (Memᴰ w cs × (lookup w.claimant (verdicts ws cs) ≡ some (won w.entry.key)))
unfolding winners
winner_outcome [] ws w d m = inl m
winner_outcome (x ∷ xs) ws w (apart, d) m = elim (winner_outcome xs (joined ws x) w d m) [
  | inl n ↦ elim (Memᴰ-joined_cases w ws x n) [
    | inl old ↦ inl old
    | inr (e, v) ↦ inr (Memᴰ.head e, rw e (lookup-verdicts_head x xs ws ∙ ap some v))
  ]
  | inr (n, found) ↦
      inr (Memᴰ.tail n, lookup-verdicts_tail w x xs ws (All-Memᴰ _ xs apart w n) ∙ found)
]
