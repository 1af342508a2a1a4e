-- ===== src/Collisions/Outcomes.antt =====
-- The outcomes that the loop writes down are the verdicts of the reference, in order.
use mathlib.Core.List.{append-nil, append_assoc}
use pangolin_gateway.Prelude.{
  ◌≡◌, ◌≢◌, sym, ap, ◌∙◌, none, List, [], ◌∷◌, ◌++◌, All, arith, string_eq,
}
use pangolin_gateway.Collisions.{
  Claimant, Candidate, Outcome, Award, publish, claim, judge, award, award_all, claimant_eq,
}
use pangolin_gateway.Collisions.Reference.{verdict_against, joined, verdicts, DistinctClaimants}
use pangolin_gateway.Collisions.Refinement.{Tracks, award-Tracks, judge-eq-verdict_against}
use pangolin_gateway.Map.{Map, lookup, insert, lookup-insert_ne, insert_new}

pub outcomes-publish :
    (c : Candidate) (s : Award) → (publish c.entry (claim c s)).outcomes ≡ s.outcomes
unfolding publish claim
outcomes-publish c s = ground arith

pub outcomes-award :
    (c : Candidate) (s : Award) → (award s c).outcomes ≡ insert c.claimant (judge c s) s.outcomes
unfolding award
outcomes-award c s = ground (arith, outcomes-publish c s)

-- The claimant has no outcome yet.
abbrev Pending : Map Claimant Outcome → Candidate → Type 0
Pending m c = lookup c.claimant m ≡ none

pub Pending-insert :
    (c : Candidate) (o : Outcome) (m : Map Claimant Outcome) (cs : List Candidate)
    → All (λ d. c.claimant ≢ d.claimant) cs
    → All (Pending m) cs
    → All (Pending (insert c.claimant o m)) cs
Pending-insert c o m [] _ _ = tt
Pending-insert c o m (d ∷ ds) (p, ps) (q, qs) =
    (lookup-insert_ne c.claimant d.claimant o m p ∙ q, Pending-insert c o m ds ps qs)

pub outcomes-award_all :
    (cs : List Candidate) (s : Award) (ws : List Candidate)
    → Tracks s ws
    → DistinctClaimants cs
    → All (Pending s.outcomes) cs
    → (award_all s cs).outcomes ≡ s.outcomes ++ verdicts ws cs
unfolding award_all verdicts
outcomes-award_all [] s ws t d fresh = sym (append-nil s.outcomes)
outcomes-award_all (c ∷ cs) s ws t (apart, d) (free, fresh) =
    let written : (award s c).outcomes ≡ s.outcomes ++ ((c.claimant, verdict_against ws c) ∷ []) =
      outcomes-award c s
      ∙ insert_new c.claimant (judge c s) s.outcomes free
      ∙ ap (λ o. s.outcomes ++ ((c.claimant, o) ∷ [])) (judge-eq-verdict_against c s ws t) in
    let pending : All (Pending (award s c).outcomes) cs =
      rw (outcomes-award c s) (Pending-insert c (judge c s) s.outcomes cs apart fresh) in
    outcomes-award_all cs (award s c) (joined ws c) (award-Tracks c s ws t) d pending
    ∙ ap (λ m. m ++ verdicts (joined ws c) cs) written
    ∙ append_assoc s.outcomes ((c.claimant, verdict_against ws c) ∷ []) (verdicts (joined ws c) cs)
