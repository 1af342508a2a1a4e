-- ===== src/Examples/Routes.antt =====
-- Tests and instances for the translation of a route.
use pangolin_gateway.Annotation
use pangolin_gateway.Prelude.{
  List, Result, String, [], contains, false, none, ok, refl, some, true, ◌∷◌, ◌≡◌, ◌≢◌, string_eq,
  nat_eq,
}
use pangolin_gateway.Annotations.{
  bool_annotation, grant_list, refuse_annotations, sso_for, value_of, visibility_for,
}
use pangolin_gateway.Api.{HttpRoute, BackendRef, same_name, name_eq}
use pangolin_gateway.Blueprint.{PublicResource, Auth, BasicAuth, Mtls, Target}
use pangolin_gateway.Collisions.{Rendered}
use pangolin_gateway.Emails.{email_whitelist_for}
use pangolin_gateway.Healthcheck.{healthcheck_for}
use pangolin_gateway.Inputs.{Inputs, BasicAuthResult, MtlsResult, name_of}
use pangolin_gateway.Map.{has_key, lookup}
use pangolin_gateway.Pincode.{pincode_for}
use pangolin_gateway.Policies.{policy_for}
use pangolin_gateway.Protection.{basic_auth_requested, mtls_requested, mtls_for, basic_auth_for}
use pangolin_gateway.Render.Policy.{translate-basic_auth, translate-mtls, translate-unlicensed}
use pangolin_gateway.Routes.{key_of}
use pangolin_gateway.Routes.Entries.{translate}
use pangolin_gateway.Rules.{RuleSpec, rules_for}
use pangolin_gateway.Text.{concat, has_prefix, to_lower, trim_space}

abbrev pub no_rules : String → Result String (List RuleSpec)
no_rules raw = ok []

abbrev backend : BackendRef
backend = record {
  group = none;
  kind = some "Service";
  namespace = none;
  name = "web";
  port = some 8080;
}

abbrev pub route : HttpRoute
route = record {
  namespace = "shop";
  name = "web";
  uid = "u1";
  generation = 3;
  created_at = 10;
  annotations = (Annotation.basic_auth, "true") ∷ (Annotation.mtls_ca, "PEM") ∷ [];
  parent_refs = [];
  hostnames = "shop.example.com" ∷ [];
  rules = record { filters = []; backend_refs = backend ∷ [] } ∷ [];
  parents = [];
}

abbrev credentials : BasicAuth
credentials = record { user = "web"; password = "s3cret"; extended_compatibility = false }

abbrev given_credentials : BasicAuthResult
given_credentials = record { credentials = some credentials; reason = "" }

abbrev given_ca : MtlsResult
given_ca = record { ca_certificates = "CA" ∷ []; reason = "" }

abbrev pub inputs : Inputs
inputs = record {
  routes = route ∷ [];
  gateways = [];
  gateway_classes = [];
  controller_name = "p3l1.de/pangolin";
  default_site = "home";
  basic_auth = (name_of route, given_credentials) ∷ [];
  mtls = (name_of route, given_ca) ∷ [];
  known_sites = none;
  private_resources = [];
  known_machines = none;
  known_users = none;
  licensed = false;
  resource_policies = [];
}

abbrev checked_by : Mtls
checked_by = record { enabled = true; ca_certificates = "CA" ∷ [] }

abbrev auth : Auth
auth = record {
  sso_enabled = true;
  basic_auth = some (record credentials { extended_compatibility = true });
  pincode = none;
  mtls = some checked_by;
  sso_roles = [];
  sso_users = [];
  whitelist_users = [];
}

abbrev target : Target
target = record {
  site = "home";
  method = "http";
  hostname = "web.shop.svc.cluster.local";
  port = 8080;
  healthcheck = none;
}

abbrev resource : PublicResource
resource = record {
  name = "shop/web";
  mode = "http";
  full_domain = "shop.example.com";
  auth = some auth;
  policy = "";
  targets = target ∷ [];
  rules = [];
}

abbrev entry : Rendered
entry = record {
  key = "gw-shop-web";
  hostnames = "shop.example.com" ∷ [];
  notes = [];
  public = some resource;
  private = none;
}

translated : translate no_rules route inputs [] ≡ ok entry
unfolding translate lookup has_key value_of has_prefix contains concat trim_space sso_for
    bool_annotation grant_list basic_auth_for pincode_for email_whitelist_for mtls_for rules_for
    policy_for healthcheck_for visibility_for refuse_annotations key_of to_lower same_name
translated = refl

asks_for_auth : basic_auth_requested route ≡ ok true
unfolding basic_auth_requested lookup bool_annotation to_lower
asks_for_auth = refl

asks_for_mtls : mtls_requested route ≡ true
unfolding mtls_requested lookup value_of
asks_for_mtls = refl

translate-basic_auth_example :
    (a : Auth) × (found : BasicAuthResult) × (c : BasicAuth) × (resource.auth ≡ some a)
    × (lookup (name_of route) inputs.basic_auth ≡ some found)
    × (found.credentials ≡ some c)
    × (a.basic_auth ≡ some (record c { extended_compatibility = true }))
translate-basic_auth_example =
    translate-basic_auth no_rules route inputs [] translated refl refl asks_for_auth

translate-mtls_example :
    (a : Auth) × (m : Mtls) × (found : MtlsResult) × (resource.auth ≡ some a)
    × (a.mtls ≡ some m)
    × (m.enabled ≡ true)
    × (lookup (name_of route) inputs.mtls ≡ some found)
    × (m.ca_certificates ≡ found.ca_certificates)
    × (m.ca_certificates ≢ [])
translate-mtls_example = translate-mtls no_rules route inputs [] translated refl refl asks_for_mtls

translate-unlicensed_example : resource.policy ≡ ""
translate-unlicensed_example = translate-unlicensed no_rules route inputs [] refl translated refl
