-- ===== src/Status/Again.antt =====
-- internal/gateway/status.go: SetRouteStatus tells every parent that the verdict speaks of, and says
-- that nothing changed when it runs again on what it wrote, so that a status write, which is a watch
-- event itself, is not answered by another.
use Prim.Native.Nat.{Ordering}
use Prim.Native.String.{compare as compare_str}
use mathlib.Core.List.{Memᴰ}
use pangolin_gateway.Prelude.{
  ==_refl, ==_sound, All, All-Memᴰ, All-of_Memᴰ, Bool, Bool-cases, List, String, [], ap, contains,
  contains_complete, false, inl, inr, refl, sym, true, ◌∙◌, ◌∷◌, ◌≡◌, ◌≢◌, string_eq,
}
use pangolin_gateway.Api.{Condition, HttpRoute, ParentReference, RouteParentStatus}
use pangolin_gateway.Order.{
  All-Permᴰ, stable_sort, stable_sort-First, stable_sort-Sorted, stable_sort-Sorted_lem,
  stable_sort-perm, Sorted, same_eq, compare_str-IsComparison,
}
use pangolin_gateway.Status.{
  is_ours, ref_key, retained, same_order, set_route_status, settle_parents, status_order,
  wanted_keys,
}
use pangolin_gateway.Status.Foreign.{status_order-IsComparison}
use pangolin_gateway.Status.Settled.{
  Idempotent, Reports, is_entry, retained-All, retained_lem, settle_parents-Reports,
  settle_parents-stays, settle_parents_lem, stays,
}
use pangolin_gateway.Verdict.{Verdict}

same_order_refl :
    (l : List RouteParentStatus) (namespace : String) → same_order l l namespace ≡ true
unfolding same_order
same_order_refl [] namespace = refl
same_order_refl (ps ∷ rest) namespace =
    rw (==_refl ps.controller_name, ==_refl (ref_key ps.parent_ref namespace))
      (same_order_refl rest namespace)

Memᴰ-wanted_keys :
    (refs : List ParentReference) (namespace : String) (ref : ParentReference)
    → Memᴰ ref refs
    → Memᴰ (ref_key ref namespace) (wanted_keys refs namespace)
unfolding wanted_keys
Memᴰ-wanted_keys [] namespace ref m = elim m [ ]
Memᴰ-wanted_keys (r ∷ refs) namespace ref (Memᴰ.head e) =
    Memᴰ.head (ap (λ x. ref_key x namespace) e)
Memᴰ-wanted_keys (r ∷ refs) namespace ref (Memᴰ.tail m) =
    Memᴰ.tail (Memᴰ-wanted_keys refs namespace ref m)

wanted_keys-All :
    (refs : List ParentReference) (namespace : String)
    → All (λ ref. contains (wanted_keys refs namespace) (ref_key ref namespace) ≡ true) refs
wanted_keys-All refs namespace = All-of_Memᴰ _ refs (λ ref m.
    contains_complete (wanted_keys refs namespace) (ref_key ref namespace)
      (Memᴰ-wanted_keys refs namespace ref m))

module _ (controller namespace : String) where
  is_entry_lem :
      (key : String) (ps : RouteParentStatus)
      → is_entry controller namespace key ps ≡ true
      → (ps.controller_name ≡ controller) × (ref_key ps.parent_ref namespace ≡ key)
  is_entry_lem key ps h = elim (Bool-cases (is_ours controller namespace ps)) [
    | inl ours ↦ (
      ==_sound ps.controller_name controller ours,
      ==_sound (ref_key ps.parent_ref namespace) key (rw ours at h),
    )
    | inr theirs ↦ absurd (let q : false ≡ true = rw theirs at h in cc)
  ]

  -- The sort does not tell two entries of ours for one parent apart.
  entries_alike :
      (key : String) (a b : RouteParentStatus)
      → is_entry controller namespace key a ≡ true
      → is_entry controller namespace key b ≡ true
      → status_order controller namespace b a ≢ Ordering.lt
  unfolding status_order
  entries_alike key a b h k =
      let (p, q) = is_entry_lem key a h in
      let (p', q') = is_entry_lem key b k in
      let same_controller = ap (compare_str b.controller_name) (p ∙ sym p') in
      let same_key = ap (compare_str (ref_key b.parent_ref namespace)) (q ∙ sym q') in
      rw
        (
          same_controller ∙ same_eq compare_str compare_str-IsComparison b.controller_name,
          same_key ∙ same_eq compare_str compare_str-IsComparison (ref_key b.parent_ref namespace),
        )
        (λ e. cc)

module _ (set_condition : List Condition → Condition → List Condition × Bool)
    (law : Idempotent set_condition) (r : HttpRoute) (v : Verdict) (controller : String) where
  -- After SetRouteStatus, the first entry of ours for each parent that the verdict speaks of has the
  -- verdict's conditions: to set them once more would change nothing.
  pub set_route_status-Reports :
      All
        (λ ref.
          Reports set_condition controller r.namespace v
            (ref_key ref r.namespace)
            (set_route_status set_condition r v controller).0)
        v.parent_refs
  unfolding set_route_status
  set_route_status-Reports = All-of_Memᴰ _ v.parent_refs (λ ref m.
      stable_sort-First _ _ _ (entries_alike controller r.namespace (ref_key ref r.namespace)) _ (
        All-Memᴰ _ v.parent_refs
          (settle_parents-Reports set_condition law controller r.namespace v v.parent_refs _) ref
          m))

  set_route_status-settled :
      (l : List RouteParentStatus)
      → All (λ ps. stays controller r.namespace (wanted_keys v.parent_refs r.namespace) ps ≡ true) l
      → All
          (λ ref. Reports set_condition controller r.namespace v (ref_key ref r.namespace) l)
          v.parent_refs
      → Sorted (status_order controller r.namespace) l
      → set_route_status set_condition (record r { parents = l }) v controller ≡ (l, false)
  unfolding set_route_status
  set_route_status-settled l kept told sorted =
      rw
        (
          retained_lem controller r.namespace (wanted_keys v.parent_refs r.namespace) l kept,
          settle_parents_lem set_condition law controller r.namespace v v.parent_refs l told,
          stable_sort-Sorted_lem _ (status_order-IsComparison controller r.namespace) l sorted,
          same_order_refl l r.namespace,
        )
        refl

  -- To run it again on the parents that it wrote gives these parents and says that nothing changed.
  pub set_route_status_again :
      set_route_status set_condition
        (record r { parents = (set_route_status set_condition r v controller).0 })
        v
        controller
      ≡ ((set_route_status set_condition r v controller).0, false)
  unfolding set_route_status
  set_route_status_again =
      let order = status_order controller r.namespace in
      let wanted = wanted_keys v.parent_refs r.namespace in
      let kept = (retained controller r.namespace wanted r.parents).0 in
      let settled = (settle_parents set_condition controller r.namespace v v.parent_refs kept).0 in
      set_route_status-settled (stable_sort order settled)
        (All-Permᴰ _
          (stable_sort-perm order (status_order-IsComparison controller r.namespace) settled)
          (settle_parents-stays set_condition law controller r.namespace v wanted v.parent_refs kept
            (wanted_keys-All v.parent_refs r.namespace)
            (retained-All controller r.namespace wanted r.parents)))
        set_route_status-Reports
        (stable_sort-Sorted order (status_order-IsComparison controller r.namespace) settled)
