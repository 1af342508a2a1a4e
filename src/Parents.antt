-- ===== src/Parents.antt =====
-- internal/gateway/render.go: which parents of a route this controller serves.
pub mod Served
use pangolin_gateway.Prelude.{
  Bool, List, Option, String, [], false, if◌then◌else◌, none, not, some, true, ◌&&◌, ◌==◌, ◌||◌,
  ◌∷◌, string_eq,
}
use pangolin_gateway.Api.{
  Gateway, GatewayClass, HttpRoute, NamespacedName, ParentReference, name_eq,
}
use pangolin_gateway.Inputs.{Inputs, member}
use pangolin_gateway.Map.{Map, has_key, insert, lookup}

-- servedClasses: the map holds only true.
unfoldable pub served_classes : List GatewayClass → String → Map String Bool
served_classes [] controller = []
served_classes (c ∷ cs) controller =
    let rest = served_classes cs controller in
    if c.controller_name == controller then insert c.name true rest else rest

unfoldable pub gateways_from :
    Map NamespacedName Gateway → List Gateway → Map NamespacedName Gateway
gateways_from found [] = found
gateways_from found (g ∷ gs) =
    gateways_from (insert (record { namespace = g.namespace; name = g.name }) g found) gs

-- gatewaysByName: a later Gateway of the same name takes the place of an earlier one.
unfoldable pub gateways_by_name : List Gateway → Map NamespacedName Gateway
unfolding gateways_from
gateways_by_name gs = gateways_from [] gs

abbrev is_gateway_group : Option String → Bool
is_gateway_group none = true
is_gateway_group (some g) = g == "gateway.networking.k8s.io" || g == ""

abbrev is_gateway_kind : Option String → Bool
is_gateway_kind none = true
is_gateway_kind (some k) = k == "Gateway"

-- refersToGateway
unfoldable pub refers_to_gateway : ParentReference → Bool
refers_to_gateway ref = is_gateway_group ref.group && is_gateway_kind ref.kind

-- parentKey
unfoldable pub parent_key : ParentReference → String → NamespacedName
parent_key ref route_namespace = record {
  namespace = elim (ref.namespace) [ none ↦ route_namespace | some ns ↦ ns ];
  name = ref.name;
}

-- The Gateway that a parentRef names, where it names one that exists.
unfoldable pub gateway_of : Map NamespacedName Gateway → String → ParentReference → Option Gateway
unfolding refers_to_gateway parent_key
gateway_of gateways namespace ref =
    if refers_to_gateway ref then lookup (parent_key ref namespace) gateways else none

-- servedParents, over the refs of a route: the served ones, and whether any Gateway was found.
unfoldable pub served_refs :
    Map NamespacedName Gateway
    → Map String Bool
    → String
    → List ParentReference
    → List ParentReference × Bool
unfolding gateway_of
served_refs gateways classes namespace [] = ([], false)
served_refs gateways classes namespace (ref ∷ refs) =
    let (served, found) = served_refs gateways classes namespace refs in
    elim (gateway_of gateways namespace ref) [
      | none ↦ (served, found)
      | some g ↦ (if member g.class_name classes then ref ∷ served else served, true)
    ]

unfoldable pub served_parents :
    HttpRoute → Map NamespacedName Gateway → Map String Bool → List ParentReference × Bool
unfolding served_refs
served_parents r gateways classes = served_refs gateways classes r.namespace r.parent_refs

-- hasOnlyUnresolvableParents, over the refs: `seen` says that one before referred to a Gateway.
unfoldable pub only_unresolvable :
    Map NamespacedName Gateway → String → Bool → List ParentReference → Bool
unfolding refers_to_gateway parent_key
only_unresolvable gateways namespace seen [] = seen
only_unresolvable gateways namespace seen (ref ∷ refs) =
    let skipped = only_unresolvable gateways namespace seen refs in
    let counted = only_unresolvable gateways namespace true refs in
    if not (refers_to_gateway ref)
    then skipped
    else if has_key (parent_key ref namespace) gateways
    then false
    else counted

unfoldable pub has_only_unresolvable_parents : HttpRoute → Map NamespacedName Gateway → Bool
unfolding only_unresolvable
has_only_unresolvable_parents r gateways =
    only_unresolvable gateways r.namespace false r.parent_refs

unfoldable pub served_routes_from :
    Map NamespacedName Gateway → Map String Bool → List HttpRoute → List HttpRoute
unfolding served_parents
served_routes_from gateways classes [] = []
served_routes_from gateways classes (r ∷ rs) =
    let rest = served_routes_from gateways classes rs in
    elim ((served_parents r gateways classes).0) [ [] ↦ rest | ref ∷ refs ↦ r ∷ rest ]

-- ServedRoutes
unfoldable pub served_routes : Inputs → List HttpRoute
unfolding served_routes_from gateways_by_name served_classes
served_routes inputs =
    served_routes_from (gateways_by_name inputs.gateways)
      (served_classes inputs.gateway_classes inputs.controller_name) inputs.routes
