-- ===== src/Collisions/Awards.antt =====
-- What the loop of the awards guarantees, whatever the candidates.
use mathlib.Core.List.Permᴰ as Permutation
use Prim.Native.Nat.{Ordering}
use mathlib.Core.List.{Memᴰ, Permᴰ}
use pangolin_gateway.Prelude.{
  All, List, String, [], ap, contains, false, inl, inr, none, refl, some, sym, true, ◌∙◌, ◌∷◌, ◌≡◌,
  string_eq,
}
use pangolin_gateway.Collisions.{
  Candidate, Outcome, by_age, is_public, nothing_awarded, resolve_collisions, won, claimant_eq,
}
use pangolin_gateway.Collisions.Outcomes.{outcomes-award_all}
use pangolin_gateway.Collisions.Permuted.{
  DistinctClaimants-Distinct, DistinctClaimants-Permᴰ, by_age-IsComparison,
}
use pangolin_gateway.Collisions.Reference.{
  DistinctClaimants, lowered, owner_of_host, owner_of_key, private_of, public_of, verdicts, winners,
}
use pangolin_gateway.Collisions.Refinement.{Tracks, award_all-Tracks}
use pangolin_gateway.Collisions.Rivals.{Clash, rival, winner_outcome}
use pangolin_gateway.Collisions.Winners.{Owned, Owned-winners, winner_of_verdict}
use pangolin_gateway.Map.{lookup}
use pangolin_gateway.Order.{Memᴰ-Permᴰ, stable_sort, stable_sort-Sorted, stable_sort-perm}
use pangolin_gateway.Verdict.{ConditionResult}

abbrev pub aged : List Candidate → List Candidate
aged cs = stable_sort by_age cs

Tracks-nothing : Tracks nothing_awarded []
unfolding lookup owner_of_key owner_of_host public_of private_of
Tracks-nothing = record {
  keys = λ k. refl;
  hosts = elim [ true ↦ λ h. refl | false ↦ λ h. refl ];
  publics = λ k. refl;
  privates = λ k. refl;
}

All-Pending :
    (cs : List Candidate) → All (λ c. lookup c.claimant nothing_awarded.outcomes ≡ none) cs
unfolding lookup
All-Pending [] = tt
All-Pending (c ∷ cs) = (refl, All-Pending cs)

-- The loop over the maps of owners does what comparing every candidate with all the winners before
-- it does: the same outcomes, in the same order, and in each section of the blueprint, under each
-- key, the entry of the winner of that key.
pub resolve_collisions-eq-reference :
    (cs : List Candidate)
    → DistinctClaimants cs
    → ((resolve_collisions cs).outcomes ≡ verdicts [] (aged cs))
      × ((k : String)
          → lookup k (resolve_collisions cs).public_resources ≡ public_of k (winners [] (aged cs)))
      × ((k : String)
          → lookup k (resolve_collisions cs).private_resources
            ≡ private_of k (winners [] (aged cs)))
unfolding resolve_collisions
resolve_collisions-eq-reference cs d =
    let tracked = award_all-Tracks (aged cs) nothing_awarded [] Tracks-nothing in
    (
      outcomes-award_all (aged cs) nothing_awarded [] Tracks-nothing
          (DistinctClaimants-Permᴰ (stable_sort-perm by_age by_age-IsComparison cs) d)
          (All-Pending (aged cs)),
      tracked.publics,
      tracked.privates,
    )

-- `c` is a candidate that the loop publishes.
abbrev pub IsPublished : List Candidate → Candidate → Type 0
IsPublished cs c =
    Memᴰ c cs × (lookup c.claimant (resolve_collisions cs).outcomes ≡ some (won c.entry.key))

module _ (cs : List Candidate) (d : DistinctClaimants cs) where
  sorted_perm : Permᴰ cs (aged cs)
  sorted_perm = stable_sort-perm by_age by_age-IsComparison cs

  sorted_distinct : DistinctClaimants (aged cs)
  sorted_distinct = DistinctClaimants-Permᴰ sorted_perm d

  to_aged : (c : Candidate) → Memᴰ c cs → Memᴰ c (aged cs)
  to_aged c m = Memᴰ-Permᴰ sorted_perm m

  outcome-eq-verdict :
      (c : Candidate)
      → lookup c.claimant (resolve_collisions cs).outcomes
        ≡ lookup c.claimant (verdicts [] (aged cs))
  outcome-eq-verdict c = ap (lookup c.claimant) (resolve_collisions-eq-reference cs d).0

  winner_of_published : (c : Candidate) → IsPublished cs c → Memᴰ c (winners [] (aged cs))
  winner_of_published c (m, h) =
      winner_of_verdict c (aged cs) [] (won c.entry.key) sorted_distinct (to_aged c m)
        (sym (outcome-eq-verdict c) ∙ h) refl

  owned : Owned (winners [] (aged cs))
  owned = Owned-winners (aged cs) [] (λ w m. elim m [ ])

  IsPublished-of_winner : (w : Candidate) → Memᴰ w (winners [] (aged cs)) → IsPublished cs w
  IsPublished-of_winner w m = elim (winner_outcome (aged cs) [] w sorted_distinct m) [
    | inl impossible ↦ elim impossible [ ]
    | inr (n, found) ↦ (Memᴰ-Permᴰ (Permutation.symm sorted_perm) n, outcome-eq-verdict w ∙ found)
  ]

  -- Two published candidates with one key are one object.
  pub published_key_unique :
      (a b : Candidate)
      → IsPublished cs a
      → IsPublished cs b
      → a.entry.key ≡ b.entry.key
      → a.claimant ≡ b.claimant
  published_key_unique a b pa pb e =
      let p = (owned a (winner_of_published a pa)).0 in
      let q = (owned b (winner_of_published b pb)).0 in
      let same : some a.claimant ≡ some b.claimant =
        sym p ∙ ap (λ k. owner_of_key k (winners [] (aged cs))) e ∙ q in
      cc

  -- Two published candidates of one section that claim one hostname, in whatever case, are one
  -- object.
  pub published_hostname_unique :
      (a b : Candidate) (h : String)
      → IsPublished cs a
      → IsPublished cs b
      → is_public a.entry ≡ is_public b.entry
      → contains (lowered a.entry) h ≡ true
      → contains (lowered b.entry) h ≡ true
      → a.claimant ≡ b.claimant
  published_hostname_unique a b h pa pb section ha hb =
      let p = (owned a (winner_of_published a pa)).1 h ha in
      let q = (owned b (winner_of_published b pb)).1 h hb in
      let same : some a.claimant ≡ some b.claimant =
        sym p ∙ ap (λ s. owner_of_host s h (winners [] (aged cs))) section ∙ q in
      cc

  -- A candidate that is rejected has a published rival that comes before it in the order of age
  -- and holds its key, or one of its hostnames in its section.
  pub rejected_has_older_rival :
      (c : Candidate) (o : Outcome) {reason : ConditionResult}
      → Memᴰ c cs
      → lookup c.claimant (resolve_collisions cs).outcomes ≡ some o
      → o.rejected ≡ some reason
      → (w : Candidate) × IsPublished cs w × (by_age w c ≡ Ordering.lt) × Clash w c
  rejected_has_older_rival c o m h r =
      let (w, n, older, clash) =
        rival (aged cs) [] c o sorted_distinct
          (DistinctClaimants-Distinct (aged cs) sorted_distinct)
          (stable_sort-Sorted by_age by_age-IsComparison cs) (λ w d n. elim n [ ]) (to_aged c m)
          (sym (outcome-eq-verdict c) ∙ h) r in
      (w, IsPublished-of_winner w n, older, clash)
