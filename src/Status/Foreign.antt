-- ===== src/Status/Foreign.antt =====
-- internal/gateway/status.go: the entries of other controllers, which SetRouteStatus leaves alone.
use mathlib.Core.List.Permᴰ as Permutation
use Prim.Native.String.{compare as compare_str}
use mathlib.Core.List.{Permᴰ}
use pangolin_gateway.Prelude.{
  ==_refl, Bool, Bool-cases, List, String, [], ap, contains, if◌then◌else◌, inl, inr, refl, ◌==◌,
  ◌∙◌, ◌∷◌, ◌≡◌, subst, string_eq, nat_eq,
}
use pangolin_gateway.Api.{Condition, ParentReference, RouteParentStatus, HttpRoute}
use pangolin_gateway.Order.{
  on-IsComparison, compare_str-IsComparison, lexicographic-IsComparison, stable_sort-perm,
  IsComparison,
}
use pangolin_gateway.Status.{
  is_ours, retained, settle_parent, settle_parents, ref_key, set_route_status, status_order,
  wanted_keys,
}
use pangolin_gateway.Verdict.{Verdict}

module _ (controller namespace : String) where
  -- The entries that another controller wrote, in their order.
  unfoldable pub foreign : List RouteParentStatus → List RouteParentStatus
  foreign [] = []
  foreign (ps ∷ rest) =
      let others = foreign rest in if is_ours controller namespace ps then others else ps ∷ others

  foreign-retained :
      (wanted : List String) (parents : List RouteParentStatus)
      → foreign (retained controller namespace wanted parents).0 ≡ foreign parents
  unfolding retained foreign
  foreign-retained wanted [] = refl
  foreign-retained wanted (ps ∷ rest) = elim (Bool-cases (is_ours controller namespace ps)) [
    | inr theirs ↦ rw theirs (rw theirs (ap (λ xs. ps ∷ xs) (foreign-retained wanted rest)))
    | inl ours ↦ elim (Bool-cases (contains wanted (ref_key ps.parent_ref namespace))) [
      | inl kept ↦ rw (ours, kept) (rw ours (foreign-retained wanted rest))
      | inr gone ↦ rw (ours, gone) (foreign-retained wanted rest)
    ]
  ]

  foreign-same_head :
      (a : RouteParentStatus) (l m : List RouteParentStatus)
      → Permᴰ (foreign l) (foreign m)
      → Permᴰ (foreign (a ∷ l)) (foreign (a ∷ m))
  unfolding foreign
  foreign-same_head a l m p = elim (Bool-cases (is_ours controller namespace a)) [
    | inl ours ↦ rw ours p
    | inr theirs ↦ rw theirs (Permᴰ.cons refl p)
  ]

  foreign-swap :
      (a b : RouteParentStatus) (l : List RouteParentStatus)
      → Permᴰ (foreign (a ∷ b ∷ l)) (foreign (b ∷ a ∷ l))
  unfolding foreign
  foreign-swap a b l = elim (Bool-cases (is_ours controller namespace a)) [
    | inl ours ↦ elim (Bool-cases (is_ours controller namespace b)) [
      | inl too ↦ rw (ours, too) (Permutation.refl (foreign l))
      | inr theirs ↦ rw (ours, theirs) (Permutation.refl (b ∷ foreign l))
    ]
    | inr theirs ↦ elim (Bool-cases (is_ours controller namespace b)) [
      | inl ours ↦ rw (theirs, ours) (Permutation.refl (a ∷ foreign l))
      | inr too ↦ rw (theirs, too) (Permᴰ.swap refl refl)
    ]
  ]

  foreign-Permᴰ : {l m : List RouteParentStatus} → Permᴰ l m → Permᴰ (foreign l) (foreign m)
  foreign-Permᴰ Permᴰ.nil = Permutation.refl (foreign [])
  foreign-Permᴰ (Permᴰ.cons {a} {b} {l₁} {l₂} e p) =
      subst (λ x. Permᴰ (foreign (a ∷ l₁)) (foreign (x ∷ l₂))) e
        (foreign-same_head a l₁ l₂ (foreign-Permᴰ p))
  foreign-Permᴰ (Permᴰ.swap {a} {b} {a'} {b'} {l} e f) =
      subst (λ x. Permᴰ (foreign (a ∷ b ∷ l)) (foreign (x ∷ b' ∷ l))) f
        (subst (λ x. Permᴰ (foreign (a ∷ b ∷ l)) (foreign (b ∷ x ∷ l))) e (foreign-swap a b l))
  foreign-Permᴰ (Permᴰ.trans p q) = Permᴰ.trans (foreign-Permᴰ p) (foreign-Permᴰ q)

module _ (set_condition : List Condition → Condition → List Condition × Bool)
    (controller namespace : String) (v : Verdict) where
  foreign-settle_parent :
      (ref : ParentReference) (kept : List RouteParentStatus)
      → foreign controller namespace (settle_parent set_condition controller namespace v ref kept).0
        ≡ foreign controller namespace kept
  unfolding settle_parent foreign
  foreign-settle_parent ref [] = rw (==_refl controller) refl
  foreign-settle_parent ref (ps ∷ rest) = elim (Bool-cases (is_ours controller namespace ps)) [
    | inr theirs ↦ rw theirs (rw theirs (ap (λ xs. ps ∷ xs) (foreign-settle_parent ref rest)))
    | inl ours ↦ elim (Bool-cases (ref_key ps.parent_ref namespace == ref_key ref namespace)) [
      | inl same ↦ rw (ours, same) (rw ours refl)
      | inr other ↦ rw (ours, other) (rw ours (foreign-settle_parent ref rest))
    ]
  ]

  foreign-settle_parents :
      (refs : List ParentReference) (kept : List RouteParentStatus)
      → foreign controller namespace
          (settle_parents set_condition controller namespace v refs kept).0
        ≡ foreign controller namespace kept
  unfolding settle_parents
  foreign-settle_parents [] kept = refl
  foreign-settle_parents (ref ∷ refs) kept =
      foreign-settle_parents refs _ ∙ foreign-settle_parent ref kept

pub status_order-IsComparison :
    (controller namespace : String) → IsComparison (status_order controller namespace)
unfolding status_order
status_order-IsComparison controller namespace =
    lexicographic-IsComparison _ _
      (on-IsComparison (λ (ps : RouteParentStatus). ps.controller_name) compare_str
        compare_str-IsComparison)
      (on-IsComparison (λ (ps : RouteParentStatus). ref_key ps.parent_ref namespace) compare_str
        compare_str-IsComparison)

-- Of the entries that another controller wrote, SetRouteStatus drops none, adds none and changes
-- none: it may only put them in another order.
pub set_route_status-foreign :
    (set_condition : List Condition → Condition → List Condition × Bool) (r : HttpRoute)
    (v : Verdict) (controller : String)
    → Permᴰ
        (foreign controller r.namespace r.parents)
        (foreign controller r.namespace (set_route_status set_condition r v controller).0)
unfolding set_route_status
set_route_status-foreign set_condition r v controller =
    let kept =
      (retained controller r.namespace (wanted_keys v.parent_refs r.namespace) r.parents).0 in
    let same =
      foreign-settle_parents set_condition controller r.namespace v v.parent_refs kept
      ∙ foreign-retained controller r.namespace (wanted_keys v.parent_refs r.namespace) r.parents in
    subst
      (λ x.
        Permᴰ x (foreign controller r.namespace (set_route_status set_condition r v controller).0))
      same
      (foreign-Permᴰ controller r.namespace (
        stable_sort-perm (status_order controller r.namespace)
          (status_order-IsComparison controller r.namespace) _))
