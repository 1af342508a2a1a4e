-- ===== src/Examples/Controller.antt =====
-- Tests and instances for the statuses, the dry run and the outcomes of an apply.
use mathlib.Core.List.{Permᴰ}
use pangolin_gateway.Prelude.{
  ◌⊎◌, Bool, List, String, [], contains, none, ok, refl, some, true, ◌++◌, ◌∷◌, ◌≡◌, string_eq,
  nat_eq,
}
use pangolin_gateway.Api.{
  Condition, HttpRoute, NamespacedName, ParentReference, RouteParentStatus, same_name, name_eq,
}
use pangolin_gateway.Blueprint.{Resource}
use pangolin_gateway.Certificates.{covers_fingerprints}
use pangolin_gateway.Effect.{pure}
use pangolin_gateway.Map.{Map, insert, lookup}
use pangolin_gateway.Prune.{SectionApi}
use pangolin_gateway.Publisher.{PangolinApi}
use pangolin_gateway.Inputs.{MtlsResult}
use pangolin_gateway.Publisher.Confirm.{Marked, unconfirmed, verify_mtls-Marked}
use pangolin_gateway.Publisher.Enforced.{Covered, verify_mtls_enforces}
use pangolin_gateway.Publisher.Verify.{ca_set_of, fingerprints, not_effective, verify_mtls}
use pangolin_gateway.Status.{set_route_status}
use pangolin_gateway.Status.Foreign.{foreign, set_route_status-foreign}
use pangolin_gateway.Verdict.{Verdict, accepted, resolved}

abbrev name : NamespacedName
name = record { namespace = "shop"; name = "web" }

abbrev parent : String → ParentReference
parent gateway = record {
  group = none;
  kind = none;
  namespace = none;
  name = gateway;
  section_name = none;
  port = none;
}

abbrev verdict : Verdict
verdict = record {
  key = "gw-shop-web";
  generation = 3;
  parent_refs = parent "public" ∷ [];
  accepted = accepted;
  resolved_refs = resolved;
}

abbrev verdicts : Map NamespacedName Verdict
verdicts = (name, verdict) ∷ []

found : lookup name verdicts ≡ some verdict
unfolding lookup same_name
found = refl

abbrev foreign_entry : RouteParentStatus
foreign_entry = record {
  parent_ref = parent "internal";
  controller_name = "example.com/other";
  conditions = [];
}

abbrev stale_entry : RouteParentStatus
stale_entry = record {
  parent_ref = parent "retired";
  controller_name = "p3l1.de/pangolin";
  conditions = [];
}

abbrev route : HttpRoute
route = record {
  namespace = "shop";
  name = "web";
  uid = "u1";
  generation = 3;
  created_at = 10;
  annotations = [];
  parent_refs = parent "public" ∷ [];
  hostnames = [];
  rules = [];
  parents = stale_entry ∷ foreign_entry ∷ [];
}

-- Conditions that are written behind the others, whatever is there.
abbrev append_condition : List Condition → Condition → List Condition × Bool
append_condition cs c = (cs ++ (c ∷ []), true)

set_route_status-foreign_example : Permᴰ (foreign "p3l1.de/pangolin" "shop" route.parents) (
    foreign "p3l1.de/pangolin" "shop"
      (set_route_status append_condition route verdict "p3l1.de/pangolin").0)
set_route_status-foreign_example =
    set_route_status-foreign append_condition route verdict "p3l1.de/pangolin"

abbrev table : SectionApi (List Resource)
table = record { list = λ w. (ok w, w); del = λ id w. (none, []) }

abbrev pangolin : PangolinApi (List Resource)
pangolin = record {
  apply_blueprint = λ bp w. (ok tt, []);
  list_sites = pure [];
  list_machines = pure [];
  list_users = pure [];
  public_section = table;
  private_section = table;
  policy_section = table;
  list_certificates = λ id. pure [];
}

-- A route that wants a CA which Pangolin does not list.
abbrev wanted : Map NamespacedName MtlsResult
wanted = (name, record { ca_certificates = "ca" ∷ []; reason = "" }) ∷ []

abbrev live : List Resource
live = record { resource_id = 1; nice_id = "gw-shop-web" } ∷ []

wanted_ca : ca_set_of (λ c. "ab:01") (lookup name wanted) ≡ "ca" ∷ []
unfolding lookup same_name
wanted_ca = refl

not_applied :
    (verify_mtls pangolin (λ c. "ab:01") wanted verdicts live).0
    ≡ ok ((name, unconfirmed verdict not_effective) ∷ [])
unfolding verify_mtls lookup same_name insert covers_fingerprints contains
not_applied = refl

verify_mtls-Marked_example :
    (ws : Map NamespacedName Verdict) × ((verify_mtls pangolin
        (λ c. "ab:01")
        wanted
        verdicts
        live).0
      ≡ ok ws)
    × (u : Verdict) × (lookup name ws ≡ some u)
    × Marked verdict u
verify_mtls-Marked_example =
    verify_mtls-Marked pangolin (λ c. "ab:01") wanted verdicts name verdict live found

verify_mtls_enforces_example :
    (ws : Map NamespacedName Verdict) × ((verify_mtls pangolin
        (λ c. "ab:01")
        wanted
        verdicts
        live).0
      ≡ ok ws)
    × (Covered
          (λ id. ok [])
          ((pangolin.public_section.list live).0)
          verdict.key
          (fingerprints (λ c. "ab:01") ("ca" ∷ []))
        ⊎ ((message : String) × (lookup name ws ≡ some (unconfirmed verdict message))))
verify_mtls_enforces_example =
    verify_mtls_enforces pangolin (λ id. ok []) (λ id w. refl) (λ c. "ab:01") wanted verdicts name
      verdict "ca" [] live found refl wanted_ca
