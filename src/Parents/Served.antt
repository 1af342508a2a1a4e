-- ===== src/Parents/Served.antt =====
-- internal/gateway/render.go: the parents that servedParents returns.
use mathlib.Core.List.{Memᴰ}
use pangolin_gateway.Prelude.{
  Bool, Bool-cases, List, Memᴰ-cons_elim, Option-cases, String, [], inl, inr, refl, some, true, ◌∷◌,
  ◌≡◌, ==_sound, false, subst, sym, ◌==◌, ◌∙◌, ◌⊎◌, none, string_eq,
}
use pangolin_gateway.Api.{
  Gateway, ParentReference, NamespacedName, GatewayClass, HttpRoute, name_eq,
}
use pangolin_gateway.Inputs.{member, Inputs}
use pangolin_gateway.Map.{Map, insert, lookup, lookup-insert}
use pangolin_gateway.Parents.{
  gateway_of, served_refs, gateways_from, served_classes, gateways_by_name, parent_key,
  refers_to_gateway, served_parents,
}

module _ (gateways : Map NamespacedName Gateway) (classes : Map String Bool) where
  -- A parentRef that names an existing Gateway of a served class.
  abbrev pub IsServed : String → ParentReference → Type 0
  IsServed namespace ref =
      (g : Gateway) × (gateway_of gateways namespace ref ≡ some g)
      × (member g.class_name classes ≡ true)

  served_refs_sound :
      (namespace : String) (refs : List ParentReference) (ref : ParentReference)
      → Memᴰ ref (served_refs gateways classes namespace refs).0
      → Memᴰ ref refs × IsServed namespace ref
  unfolding served_refs
  served_refs_sound namespace [] ref m = elim m [ ]
  served_refs_sound namespace (r ∷ rs) ref m =
      elim (Option-cases (gateway_of gateways namespace r)) [
        | inl p ↦
            let (n, s) = served_refs_sound namespace rs ref (rw (p, served_refs) at m) in
            (Memᴰ.tail n, s)
        | inr (g, p) ↦ elim (Bool-cases (member g.class_name classes)) [
          | inl served ↦
              Memᴰ-cons_elim (λ x. Memᴰ x (r ∷ rs) × IsServed namespace x) r _
                (Memᴰ.head refl, (g, p, served))
                (λ y n. let (k, s) = served_refs_sound namespace rs y n in (Memᴰ.tail k, s)) ref
                (rw (p, served, served_refs) at m)
          | inr other_class ↦
              let (n, s) =
                served_refs_sound namespace rs ref (rw (p, other_class, served_refs) at m) in
              (Memᴰ.tail n, s)
        ]
      ]

abbrev pub gateway_name : Gateway → NamespacedName
gateway_name g = record { namespace = g.namespace; name = g.name }

gateways_from-Memᴰ :
    (found : Map NamespacedName Gateway) (gs : List Gateway) (k : NamespacedName) {g : Gateway}
    → lookup k (gateways_from found gs) ≡ some g
    → (lookup k found ≡ some g) ⊎ (Memᴰ g gs × (gateway_name g ≡ k))
unfolding gateways_from
gateways_from-Memᴰ found [] k h = inl h
gateways_from-Memᴰ found (x ∷ xs) k {g} h =
    elim (gateways_from-Memᴰ (insert (gateway_name x) x found) xs k h) [
      | inr (m, e) ↦ inr (Memᴰ.tail m, e)
      | inl q ↦
          let at_x = sym (lookup-insert (gateway_name x) k x found) ∙ q in
          elim (Bool-cases (gateway_name x == k)) [
            | inl same ↦
                let eq : x ≡ g = (let f : some x ≡ some g = rw same at at_x in cc) in
                inr (
                  Memᴰ.head (sym eq),
                  subst (λ y. gateway_name y ≡ k) eq (==_sound (gateway_name x) k same),
                )
            | inr other ↦ inl (rw other at at_x)
          ]
    ]

served_classes_sound :
    (cs : List GatewayClass) (controller class_name : String)
    → member class_name (served_classes cs controller) ≡ true
    → (c : GatewayClass) × Memᴰ c cs × (c.name ≡ class_name) × (c.controller_name ≡ controller)
unfolding served_classes member lookup
served_classes_sound [] controller class_name h = absurd (let q : false ≡ true = h in cc)
served_classes_sound (c ∷ cs) controller class_name h =
    elim (Bool-cases (c.controller_name == controller)) [
      | inr other ↦
          let (d, m, named, by) =
            served_classes_sound cs controller class_name (rw (other, served_classes) at h) in
          (d, Memᴰ.tail m, named, by)
      | inl ours ↦
          let q = rw (ours, served_classes) at h in
          elim (Bool-cases (c.name == class_name)) [
            | inl same ↦ (
              c,
              Memᴰ.head refl,
              ==_sound c.name class_name same,
              ==_sound c.controller_name controller ours,
            )
            | inr different ↦
                let (d, m, named, by) = served_classes_sound cs controller class_name (
                  rw
                    (
                      lookup-insert c.name class_name true (served_classes cs controller),
                      different,
                      member,
                    )
                    at q) in
                (d, Memᴰ.tail m, named, by)
          ]
    ]

-- A parentRef of the route that names a Gateway of the cluster, whose class the controller serves.
abbrev pub IsServedBy : Inputs → HttpRoute → ParentReference → Type 0
IsServedBy inputs r ref =
    Memᴰ ref r.parent_refs
    × (refers_to_gateway ref ≡ true)
    × ((g : Gateway) × (c : GatewayClass) × Memᴰ g inputs.gateways
        × (gateway_name g ≡ parent_key ref r.namespace)
        × Memᴰ c inputs.gateway_classes
        × (c.name ≡ g.class_name)
        × (c.controller_name ≡ inputs.controller_name))

gateway_of-found :
    (gateways : Map NamespacedName Gateway) (namespace : String) (ref : ParentReference)
    {g : Gateway}
    → gateway_of gateways namespace ref ≡ some g
    → (refers_to_gateway ref ≡ true) × (lookup (parent_key ref namespace) gateways ≡ some g)
unfolding gateway_of
gateway_of-found gateways namespace ref h = elim (Bool-cases (refers_to_gateway ref)) [
  | inl refers ↦ (refers, rw (refers, gateway_of) at h)
  | inr other ↦ absurd (let q = rw (other, gateway_of) at h in cc)
]

-- The parents that a render takes a route to be served under are its own parentRefs, each of which
-- names a Gateway that exists and whose class is of this controller.
pub served_parents-IsServedBy :
    (inputs : Inputs) (r : HttpRoute) (ref : ParentReference)
    → Memᴰ ref
        (served_parents r
          (gateways_by_name inputs.gateways)
          (served_classes inputs.gateway_classes inputs.controller_name)).0
    → IsServedBy inputs r ref
unfolding served_parents gateways_by_name lookup
served_parents-IsServedBy inputs r ref m =
    let gateways = gateways_by_name inputs.gateways in
    let classes = served_classes inputs.gateway_classes inputs.controller_name in
    let (own, (g, found, ours)) =
      served_refs_sound gateways classes r.namespace r.parent_refs ref m in
    let (refers, there) = gateway_of-found gateways r.namespace ref found in
    let (c, n, named, by) =
      served_classes_sound inputs.gateway_classes inputs.controller_name g.class_name ours in
    elim (gateways_from-Memᴰ [] inputs.gateways (parent_key ref r.namespace) there) [
      | inl none_found ↦ absurd (let q : none ≡ some g = none_found in cc)
      | inr (k, e) ↦ (own, refers, (g, c, k, e, n, named, by))
    ]
