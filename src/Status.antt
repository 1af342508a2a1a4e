-- ===== src/Status.antt =====
-- internal/gateway/status.go: SetRouteStatus, which brings a route's status in line with its verdict
-- and says whether anything changed. `set_condition` is meta.SetStatusCondition: the conditions after
-- it, and whether they changed.
pub mod Foreign
pub mod Settled
pub mod Again
use Prim.Native.String
use Prim.Native.Nat.{Ordering}
use Prim.Native.String.{compare as compare_str}
use pangolin_gateway.Prelude.{
  Bool, List, Option, String, [], contains, false, if◌then◌else◌, none, not, some, true, ℕ, ◌&&◌,
  ◌++◌, ◌==◌, ◌||◌, ◌∷◌, string_eq, nat_eq,
}
use pangolin_gateway.Api.{Condition, ParentReference, RouteParentStatus, HttpRoute}
use pangolin_gateway.Order.{lexicographic, stable_sort}
use pangolin_gateway.Text.{concat}
use pangolin_gateway.Verdict.{ConditionResult, Verdict, accepted}

-- normaliseRef: the group, kind and namespace that the API server leaves implicit.
abbrev group_or_default : Option String → String
group_or_default none = "gateway.networking.k8s.io"
group_or_default (some g) = if g == "" then "gateway.networking.k8s.io" else g

abbrev or_text : String → Option String → String
or_text fallback none = fallback
or_text fallback (some t) = t

unfoldable pub normalise_ref : ParentReference → String → ParentReference
normalise_ref ref route_namespace = record ref {
  group = some (group_or_default ref.group);
  kind = some (or_text "Gateway" ref.kind);
  namespace = some (or_text route_namespace ref.namespace);
}

abbrev section_suffix : Option String → List String
section_suffix none = []
section_suffix (some s) = "/" ∷ s ∷ []

-- refKey
unfoldable pub ref_key : ParentReference → String → String
unfolding normalise_ref
ref_key ref route_namespace =
    let n = normalise_ref ref route_namespace in
    concat (
      (or_text "" n.group
        ∷ "/"
        ∷ or_text "" n.kind
        ∷ "/"
        ∷ or_text "" n.namespace
        ∷ "/"
        ∷ n.name
        ∷ [])
      ++ section_suffix n.section_name)

-- sameOrder
unfoldable pub same_order : List RouteParentStatus → List RouteParentStatus → String → Bool
unfolding ref_key
same_order [] [] namespace = true
same_order (a ∷ as') (b ∷ bs) namespace =
    a.controller_name == b.controller_name
    && ref_key a.parent_ref namespace == ref_key b.parent_ref namespace
    && same_order as' bs namespace
same_order [] (b ∷ bs) namespace = false
same_order (a ∷ as') [] namespace = false

-- The keys of the parents that a verdict speaks of.
unfoldable pub wanted_keys : List ParentReference → String → List String
unfolding ref_key
wanted_keys [] namespace = []
wanted_keys (ref ∷ refs) namespace = ref_key ref namespace ∷ wanted_keys refs namespace

module _ (controller namespace : String) where
  abbrev pub is_ours : RouteParentStatus → Bool
  is_ours ps = ps.controller_name == controller

  -- The first loop: another controller's entries stay, ours while the verdict names their parent.
  unfoldable pub retained : List String → List RouteParentStatus → List RouteParentStatus × Bool
  unfolding ref_key
  retained wanted [] = ([], false)
  retained wanted (ps ∷ rest) =
      let (kept, changed) = retained wanted rest in
      if not (is_ours ps) || contains wanted (ref_key ps.parent_ref namespace)
      then (ps ∷ kept, changed)
      else (kept, true)

  -- The order of the sort: controller, then key.
  pub status_order : RouteParentStatus → RouteParentStatus → Ordering
  unfolding ref_key
  status_order =
      lexicographic (λ a b. compare_str a.controller_name b.controller_name)
        (λ a b. compare_str (ref_key a.parent_ref namespace) (ref_key b.parent_ref namespace))

module _ (set_condition : List Condition → Condition → List Condition × Bool) where
  abbrev pub condition_of : String → ℕ → ConditionResult → Condition
  condition_of typ generation result = record {
    typ = typ;
    status = result.status;
    reason = result.reason;
    message = result.message;
    observed_generation = generation;
  }

  -- A row of calls of SetStatusCondition, as both status writers make it.
  unfoldable pub set_conditions : List Condition → List Condition → List Condition × Bool
  set_conditions target [] = (target, false)
  set_conditions target (c ∷ cs) =
      let (once, changed) = set_condition target c in
      let (all, later) = set_conditions once cs in (all, changed || later)

  abbrev pub verdict_conditions : Verdict → List Condition
  verdict_conditions v =
      condition_of "Accepted" v.generation v.accepted
      ∷ condition_of "ResolvedRefs" v.generation v.resolved_refs
      ∷ []

  module _ (controller namespace : String) (v : Verdict) where
    -- The second loop for one parent: its entry, or a new one behind the others.
    unfoldable pub settle_parent :
        ParentReference → List RouteParentStatus → List RouteParentStatus × Bool
    unfolding ref_key set_conditions
    settle_parent ref [] =
        let (conditions, changed) = set_conditions [] (verdict_conditions v) in
        (
          record { parent_ref = ref; controller_name = controller; conditions = conditions } ∷ [],
          true,
        )
    settle_parent ref (ps ∷ rest) =
        let (settled, changed) = settle_parent ref rest in
        let (conditions, set) = set_conditions ps.conditions (verdict_conditions v) in
        if is_ours controller namespace ps
          && ref_key ps.parent_ref namespace == ref_key ref namespace
        then (record ps { conditions = conditions } ∷ rest, set)
        else (ps ∷ settled, changed)

    unfoldable pub settle_parents :
        List ParentReference → List RouteParentStatus → List RouteParentStatus × Bool
    unfolding settle_parent
    settle_parents [] kept = (kept, false)
    settle_parents (ref ∷ refs) kept =
        let (once, changed) = settle_parent ref kept in
        let (all, later) = settle_parents refs once in (all, changed || later)

  -- SetRouteStatus: the new parents of the status, and whether the status changed.
  unfoldable pub set_route_status : HttpRoute → Verdict → String → List RouteParentStatus × Bool
  unfolding retained settle_parents wanted_keys same_order status_order
  set_route_status r v controller =
      let (kept, dropped) =
        retained controller r.namespace (wanted_keys v.parent_refs r.namespace) r.parents in
      let (settled, set) = settle_parents controller r.namespace v v.parent_refs kept in
      let sorted = stable_sort (status_order controller r.namespace) settled in
      (sorted, dropped || set || not (same_order r.parents sorted r.namespace))
