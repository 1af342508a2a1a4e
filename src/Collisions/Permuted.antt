-- ===== src/Collisions/Permuted.antt =====
-- The published set does not depend on the order in which the candidates come.
use Prim.Native.Nat.{Ordering, compare}
use Prim.Native.String.{compare as compare_str}
use mathlib.Core.List.{Permᴰ}
use text.Mathlib.TextEquality.{path_by_compare}
use pangolin_gateway.Prelude.{All, List, [], ap, subst, sym, ◌∷◌, ◌≡◌, ◌≢◌}
use pangolin_gateway.Collisions.{
  Candidate, award_all, by_age, by_name, nothing_awarded, resolve_collisions,
}
use pangolin_gateway.Collisions.Reference.{DistinctClaimants}
use pangolin_gateway.Order.{
  All-Permᴰ, Distinct, IsComparison, Permᴰ-stable_sort, compare-IsComparison,
  compare_str-IsComparison, lexicographic-IsComparison, on-IsComparison, then-eq,
}

claimant_of_by_age : (c d : Candidate) → by_age c d ≡ Ordering.eq → c.claimant ≡ d.claimant
unfolding by_age by_name
claimant_of_by_age c d h =
    let (_, named) = then-eq (compare c.created_at d.created_at) _ h in
    let (space, rest) =
      then-eq (compare_str c.claimant.name.namespace d.claimant.name.namespace) _ named in
    let (name, kind) = then-eq (compare_str c.claimant.name.name d.claimant.name.name) _ rest in
    let p = path_by_compare c.claimant.name.namespace d.claimant.name.namespace space in
    let q = path_by_compare c.claimant.name.name d.claimant.name.name name in
    let r = path_by_compare c.claimant.kind d.claimant.kind kind in
    λ i. record { kind = r i; name = record { namespace = p i; name = q i } }

-- Different objects differ in the order of the sort, even at equal times.
pub DistinctClaimants-Distinct : (cs : List Candidate) → DistinctClaimants cs → Distinct by_age cs
DistinctClaimants-Distinct [] d = tt
DistinctClaimants-Distinct (c ∷ cs) (h, d) = (apart cs h, DistinctClaimants-Distinct cs d)
  where
    apart :
        (ds : List Candidate)
        → All (λ d. c.claimant ≢ d.claimant) ds
        → All (λ d. by_age c d ≢ Ordering.eq) ds
    apart [] _ = tt
    apart (d ∷ ds) (p, ps) = ((λ e. p (claimant_of_by_age c d e)), apart ds ps)

pub by_age-IsComparison : IsComparison by_age
unfolding by_age by_name
by_age-IsComparison =
    lexicographic-IsComparison _ _
      (on-IsComparison (λ (c : Candidate). c.created_at) compare compare-IsComparison)
      (lexicographic-IsComparison _ _
        (on-IsComparison (λ (c : Candidate). c.claimant.name.namespace) compare_str
          compare_str-IsComparison)
        (lexicographic-IsComparison _ _
          (on-IsComparison (λ (c : Candidate). c.claimant.name.name) compare_str
            compare_str-IsComparison)
          (on-IsComparison (λ (c : Candidate). c.claimant.kind) compare_str
            compare_str-IsComparison)))

-- Of pairwise different objects, any two orders of the candidates give the same awards: the same
-- owners, the same two sections of the blueprint and the same outcomes.
pub resolve_collisions-Permᴰ :
    {cs ds : List Candidate}
    → Permᴰ cs ds
    → DistinctClaimants cs
    → resolve_collisions cs ≡ resolve_collisions ds
unfolding resolve_collisions
resolve_collisions-Permᴰ {cs} p d =
    ap (award_all nothing_awarded)
      (Permᴰ-stable_sort by_age by_age-IsComparison p (DistinctClaimants-Distinct cs d))

-- Sorting keeps the objects different.
pub DistinctClaimants-Permᴰ :
    {cs ds : List Candidate} → Permᴰ cs ds → DistinctClaimants cs → DistinctClaimants ds
DistinctClaimants-Permᴰ Permᴰ.nil d = tt
DistinctClaimants-Permᴰ (Permᴰ.cons {l₂ = m} e p) (h, d) = (
  subst (λ x. All (λ y. x.claimant ≢ y.claimant) m) e (All-Permᴰ _ p h),
  DistinctClaimants-Permᴰ p d,
)
DistinctClaimants-Permᴰ (Permᴰ.swap {a} {b} {l} e f) ((k, h), (h', d)) = (
  (
    rw (← e, ← f) (λ q. k (sym q)),
    subst (λ (x : Candidate). All (λ y. x.claimant ≢ y.claimant) l) f h',
  ),
  (subst (λ (x : Candidate). All (λ y. x.claimant ≢ y.claimant) l) e h, d),
)
DistinctClaimants-Permᴰ (Permᴰ.trans p q) d =
    DistinctClaimants-Permᴰ q (DistinctClaimants-Permᴰ p d)
