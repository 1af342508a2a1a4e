-- ===== src/Collisions/Backed.antt =====
-- What a published outcome is backed by: an entry of the blueprint under its key.
use pangolin_gateway.Prelude.{
  Option-cases, false, refl, ==_refl, All, List, String, [], arith, inl, inr, none, some, subst,
  sym, true, ◌||◌, ◌∷◌, ◌≡◌, ◌⊎◌, string_eq,
}
use pangolin_gateway.Blueprint.{PrivateResource, PublicResource}
use pangolin_gateway.Collisions.{
  Claimant, Candidate, Outcome, Award, Rendered, award, award_all, judge, claim, publish,
  resolve_collisions, nothing_awarded, by_age, first_claimed, host_owner, is_public, settle, won,
  claimant_eq,
}
use pangolin_gateway.Collisions.Outcomes.{outcomes-award}
use pangolin_gateway.Collisions.Permuted.{by_age-IsComparison}
use pangolin_gateway.Map.{has_key, has_key-insert, lookup, All-insert}
use pangolin_gateway.Order.{All-Permᴰ, stable_sort, stable_sort-perm}
use pangolin_gateway.Verdict.{published}

-- An entry of one of the two sections.
abbrev pub InBlueprint : String → Award → Type 0
InBlueprint k s = (has_key k s.public_resources || has_key k s.private_resources) ≡ true

-- An entry that has a public or a private part.
abbrev pub IsWhole : Rendered → Type 0
IsWhole e =
    ((r : PublicResource) × (e.public ≡ some r))
    ⊎ ((e.public ≡ none) × ((r : PrivateResource) × (e.private ≡ some r)))

-- A published outcome names an entry.
abbrev pub IsBacked : Award → Claimant × Outcome → Type 0
IsBacked s p = published (p.1).key ≡ true → InBlueprint (p.1).key s

abbrev pub Backed : Award → Type 0
Backed s = All (IsBacked s) s.outcomes

award-keeps :
    (c : Candidate) (s : Award) (k : String)
    → IsWhole c.entry
    → InBlueprint k s
    → InBlueprint k (award s c)
unfolding award claim publish
award-keeps c s k (inl (r, p)) h = ground (arith, has_key-insert c.entry.key k r s.public_resources)
award-keeps c s k (inr (p, (r, q))) h =
    ground (arith, has_key-insert c.entry.key k r s.private_resources)

-- Only a winner's outcome has a key, its own.
judge-won :
    (c : Candidate) (s : Award) → published (judge c s).key ≡ true → judge c s ≡ won c.entry.key
unfolding judge
judge-won c s h = elim (Option-cases (lookup c.entry.key s.key_owner)) [
  | inr (owner, p) ↦ absurd (let q : false ≡ true = rw (p, judge) at h in cc)
  | inl free ↦
      elim (Option-cases (first_claimed c.entry.hostnames (host_owner (is_public c.entry) s))) [
        | inr ((host, owner), p) ↦ absurd (let q : false ≡ true = rw (free, p, judge) at h in cc)
        | inl open_hosts ↦ rw (free, open_hosts, judge) refl
      ]
]

settle-adds :
    (c : Candidate) (s : Award)
    → IsWhole c.entry
    → InBlueprint c.entry.key (settle c (won c.entry.key) s)
unfolding claim publish
settle-adds c s (inl (r, p)) =
    ground (arith, has_key-insert c.entry.key c.entry.key r s.public_resources, ==_refl c.entry.key)
settle-adds c s (inr (p, (r, q))) =
    ground
      (arith, has_key-insert c.entry.key c.entry.key r s.private_resources, ==_refl c.entry.key)

award-adds :
    (c : Candidate) (s : Award)
    → IsWhole c.entry
    → published (judge c s).key ≡ true
    → InBlueprint (judge c s).key (award s c)
unfolding award
award-adds c s whole h =
    subst (λ o. InBlueprint o.key (settle c o s)) (sym (judge-won c s h)) (settle-adds c s whole)

All-keeps :
    (c : Candidate) (s : Award) (os : List (Claimant × Outcome))
    → IsWhole c.entry
    → All (IsBacked s) os
    → All (IsBacked (award s c)) os
All-keeps c s [] whole h = tt
All-keeps c s (o ∷ os) whole (h, hs) =
    (λ p. award-keeps c s (o.1).key whole (h p), All-keeps c s os whole hs)

award-Backed : (c : Candidate) (s : Award) → IsWhole c.entry → Backed s → Backed (award s c)
award-Backed c s whole h = subst (All (IsBacked (award s c))) (sym (outcomes-award c s)) (
    All-insert (IsBacked (award s c)) c.claimant (judge c s) s.outcomes (award-adds c s whole)
      (All-keeps c s s.outcomes whole h))

award_all-Backed :
    (cs : List Candidate) (s : Award)
    → All (λ c. IsWhole c.entry) cs
    → Backed s
    → Backed (award_all s cs)
unfolding award_all
award_all-Backed [] s _ h = h
award_all-Backed (c ∷ cs) s (w, ws) h = award_all-Backed cs (award s c) ws (award-Backed c s w h)

-- Every object that resolveCollisions reports as published has an entry under its key in a section
-- of the blueprint.
pub resolve_collisions-Backed :
    (cs : List Candidate) → All (λ c. IsWhole c.entry) cs → Backed (resolve_collisions cs)
unfolding resolve_collisions
resolve_collisions-Backed cs whole =
    award_all-Backed (stable_sort by_age cs) nothing_awarded
      (All-Permᴰ (λ c. IsWhole c.entry) (stable_sort-perm by_age by_age-IsComparison cs) whole) tt
