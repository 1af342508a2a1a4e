-- ===== src/Examples/Render.antt =====
-- Instances for a whole render: one class, one Gateway, one route and one policy.
use mathlib.Core.List.{Memᴰ}
use pangolin_gateway.Prelude.{
  All, [], none, refl, some, subst, sym, true, ◌∷◌, ◌≡◌, string_eq, nat_eq,
}
use pangolin_gateway.Api.{
  Gateway, GatewayClass, HttpRoute, ParentReference, ResourcePolicy, same_name, name_eq,
}
use pangolin_gateway.Examples.Routes.{no_rules, route, inputs}
use pangolin_gateway.Inputs.{Inputs, member}
use pangolin_gateway.Map.{insert, lookup}
use pangolin_gateway.Parents.{gateways_by_name, served_classes, served_parents}
use pangolin_gateway.Parents.Served.{IsServedBy, served_parents-IsServedBy}
use pangolin_gateway.Policies.Keys.{Backed, render_policies-Backed}
use pangolin_gateway.Policies.Translate.{render_policies, translate_policy}
use pangolin_gateway.Render.{render_all}
use pangolin_gateway.Render.Backed.{InSections, render_all-InSections}
use pangolin_gateway.Verdict.{published}

abbrev pub parent : ParentReference
parent = record {
  group = none;
  kind = none;
  namespace = some "infra";
  name = "edge";
  section_name = none;
  port = none;
}

abbrev pub edge : Gateway
edge = record {
  namespace = "infra";
  name = "edge";
  class_name = "pangolin";
  generation = 1;
  conditions = [];
}

abbrev pub class : GatewayClass
class = record {
  name = "pangolin";
  controller_name = "p3l1.de/pangolin";
  generation = 1;
  conditions = [];
}

abbrev pub staff : ResourcePolicy
staff = record {
  namespace = "shop";
  name = "staff";
  generation = 1;
  created_at = 5;
  display_name = "Staff";
  sso = some true;
  roles = "staff" ∷ [];
  users = [];
  email_whitelist = [];
  pincode = "";
  rules = [];
  conditions = [];
  policy_key = "";
}

abbrev pub attached : HttpRoute
attached = record route { parent_refs = parent ∷ [] }

abbrev pub cluster : Inputs
cluster = record inputs {
  routes = attached ∷ [];
  gateways = edge ∷ [];
  gateway_classes = class ∷ [];
  licensed = true;
  resource_policies = staff ∷ [];
}

parents :
    (served_parents attached
      (gateways_by_name cluster.gateways)
      (served_classes cluster.gateway_classes cluster.controller_name)).0
    ≡ parent ∷ []
unfolding served_parents gateways_by_name served_classes lookup insert same_name member
parents = refl

served_parents-IsServedBy_example : IsServedBy cluster attached parent
served_parents-IsServedBy_example =
    served_parents-IsServedBy cluster attached parent
      (subst (λ ps. Memᴰ parent ps) (sym parents) (Memᴰ.head refl))

render_policies-Backed_example :
    Backed (translate_policy true) (staff ∷ []) (render_policies cluster)
render_policies-Backed_example = render_policies-Backed cluster

render_all-InSections_example :
    All
      (λ p.
        published (p.1).key ≡ true → InSections (render_all no_rules cluster).blueprint (p.1).key)
      (render_all no_rules cluster).routes
    × All
        (λ p.
          published (p.1).key ≡ true → InSections (render_all no_rules cluster).blueprint (p.1).key)
        (render_all no_rules cluster).private_resources
render_all-InSections_example = render_all-InSections no_rules cluster
