-- ===== src/Publisher/Reconcile.antt =====
-- internal/controller/publisher.go: Reconcile, one pass over the whole state.
use Prim.Native.String
use pangolin_gateway.Annotation
use pangolin_gateway.Api
use pangolin_gateway.Prelude.{
  Bool, List, Option, Result, String, [], err, false, if◌then◌else◌, length, none, ok, some, true,
  ◌++◌, ◌==◌, ◌||◌, ◌∷◌, string_eq,
}
use pangolin_gateway.Api.{
  NamespacedName, HttpRoute, Gateway, GatewayClass, ResourcePolicy, Condition, name_eq,
}
use pangolin_gateway.Blueprint.{Blueprint, Site, Machine, User}
use pangolin_gateway.Certificates.{Pem}
use pangolin_gateway.Effect.{Effect, pure, attempt, raise, failure, wrapped, ◌>>=◌}
use pangolin_gateway.Inputs.{Inputs, MtlsResult}
use pangolin_gateway.Map.{Map, has_key}
use pangolin_gateway.Parents.{served_routes}
use pangolin_gateway.Prelude.Int.{ℤ}
use pangolin_gateway.Prune.{
  Pass, count, join_errors, prune, resources_desired, routes_rejected, private_resources_rejected,
  policies_rejected, publish_total, prune_skipped_total,
}
use pangolin_gateway.Publisher.{
  ClusterApi, PangolinApi, Publisher, in_pass, mark_publish_failed, mark_dry_run, count_rejected,
  count_rejected_resources, resync_interval,
}
use pangolin_gateway.Publisher.Statuses.{write_status, write_resources, write_policies}
use pangolin_gateway.Publisher.Verify.{verify_mtls}
use pangolin_gateway.Render.{Rendering, render_all}
use pangolin_gateway.Rules.{RuleSpec}
use pangolin_gateway.Secrets.{resolve_basic_auth_from, resolve_mtls_from}
use pangolin_gateway.Verdict.{Verdict, published}

abbrev pub site_names : List Site → Map String Bool
site_names [] = []
site_names (s ∷ ss) = (s.nice_id, true) ∷ site_names ss

abbrev pub machine_names : List Machine → Map String Bool
machine_names [] = []
machine_names (m ∷ ms) = (m.nice_id, true) ∷ machine_names ms

abbrev add_id : String → Map String Bool → Map String Bool
add_id id names = if id == "" then names else (id, true) ∷ names

abbrev pub user_names : List User → Map String Bool
user_names [] = []
user_names (u ∷ us) = add_id u.username (add_id u.email (user_names us))

-- A listing that fails disables its check.
abbrev pub known_names :
    {T : Type 0} → (List T → Map String Bool) → Result String (List T) → Option (Map String Bool)
known_names names (ok rows) = some (names rows)
known_names names (err e) = none

abbrev nonempty : {A : Type 0} → List A → Bool
nonempty [] = false
nonempty (a ∷ as') = true

abbrev pub wants_machines : List Api.PrivateResource → Bool
wants_machines [] = false
wants_machines (r ∷ rs) = nonempty r.machines || wants_machines rs

abbrev pub wants_users : List Api.PrivateResource → Bool
wants_users [] = false
wants_users (r ∷ rs) = nonempty r.users || wants_users rs

abbrev pub routes_want_users : List HttpRoute → Bool
routes_want_users [] = false
routes_want_users (r ∷ rs) = has_key Annotation.users r.annotations || routes_want_users rs

-- Each listing of grantees only while something names one.
abbrev pub known_if :
    {W T : Type 0}
    → Bool
    → (List T → Map String Bool)
    → Effect W (List T)
    → Effect W (Option (Map String Bool))
known_if true names listing = attempt listing >>= λ listed. pure (known_names names listed)
known_if false names listing = pure none

module _ {W : Type 0} (pangolin : PangolinApi W) where
  -- knownGrantees
  unfoldable pub known_grantees :
      List HttpRoute
      → List Api.PrivateResource
      → Effect W (Option (Map String Bool) × Option (Map String Bool))
  known_grantees routes resources =
      known_if (wants_machines resources) machine_names pangolin.list_machines >>= λ machines.
      known_if (wants_users resources || routes_want_users routes) user_names pangolin.list_users
      >>= λ users. pure (machines, users)

-- The gauges of a render.
abbrev pub tally : {W : Type 0} → Rendering → Effect (Pass W) (Unit {0})
tally result = λ p. (
  ok tt,
  record p {
    metrics =
        p.metrics
        ++ (resources_desired "public" (length result.blueprint.public_resources)
            ∷ resources_desired "private" (length result.blueprint.private_resources)
            ∷ resources_desired "policy" (length result.blueprint.public_policies)
            ∷ routes_rejected (count_rejected result.routes)
            ∷ private_resources_rejected (count_rejected_resources result.private_resources)
            ∷ policies_rejected (count_rejected_resources result.policies)
            ∷ []);
  },
)

abbrev skip_policies : {W : Type 0} → Bool → Pass W → Pass W
skip_policies true p = count (prune_skipped_total "apply_failed" "policy") p
skip_policies false p = p

-- The prune that a failed apply skips.
abbrev pub skip_prune : {W : Type 0} → Bool → Pass W → Pass W
skip_prune licensed p = skip_policies licensed (
    count (prune_skipped_total "apply_failed" "private")
      (count (prune_skipped_total "apply_failed" "public") p))

module _ {W : Type 0} (pangolin : PangolinApi W) (p : Publisher)
    (fingerprint_of : String → String) where
  -- prune, as a call that never fails and gives its error as a value.
  abbrev pub pruned : Blueprint → Effect (Pass W) (Option String)
  pruned bp = λ s.
      let made =
        prune pangolin.public_section pangolin.private_section pangolin.policy_section p.licensed bp
          s in
      (ok (made.1), made.0)

  -- The verdicts once the apply is through, and what verifyMTLS leaves of them.
  abbrev pub confirm :
      Bool
      → Map NamespacedName MtlsResult
      → Map NamespacedName Verdict
      → Effect (Pass W) (Map NamespacedName Verdict)
  confirm true mtls verdicts = pure (mark_dry_run verdicts)
  confirm false mtls verdicts = in_pass (verify_mtls pangolin fingerprint_of mtls verdicts)

  -- What follows the apply: the verdicts for the status, and the error of the prune.
  unfoldable pub after_apply :
      Rendering
      → Map NamespacedName MtlsResult
      → Option String
      → Effect (Pass W) (Map NamespacedName Verdict × Option String)
  after_apply result mtls (some e) = λ s. (
    ok (mark_publish_failed e result.routes, none),
    skip_prune p.licensed (count (publish_total "error") s),
  )
  after_apply result mtls none = λ s.
      (confirm p.dry_run mtls result.routes >>= λ verdicts.
      pruned result.blueprint >>= λ prune_error. pure (verdicts, prune_error))
        (count (publish_total "success") s)

-- The inputs of a render, before the Secrets are read.
abbrev pub gathered :
    Publisher
    → List GatewayClass
    → List Gateway
    → List HttpRoute
    → List Api.PrivateResource
    → List ResourcePolicy
    → Result String (List Site)
    → Option (Map String Bool) × Option (Map String Bool)
    → Inputs
gathered p classes gateways routes resources policies sites grantees = record {
  routes = routes;
  gateways = gateways;
  gateway_classes = classes;
  controller_name = p.controller_name;
  default_site = p.default_site;
  basic_auth = [];
  mtls = [];
  known_sites = known_names site_names sites;
  private_resources = resources;
  known_machines = grantees.0;
  known_users = grantees.1;
  licensed = p.licensed;
  resource_policies = policies;
}

module _ {W : Type 0} (cluster : ClusterApi W) (pangolin : PangolinApi W) (p : Publisher)
    (pem : Pem) (fingerprint_of : String → String)
    (set_condition : List Condition → Condition → List Condition × Bool)
    (decode : String → Result String (List RuleSpec)) where
  -- The credentials and the CAs of the served routes.
  unfoldable pub resolve_protection : Inputs → Effect W Inputs
  resolve_protection inputs = do
    basic_auth ←
        wrapped (String.◌++◌ "resolving basic auth credentials: ")
          (resolve_basic_auth_from cluster.secrets p.dry_run [] (served_routes inputs))
    mtls ←
        wrapped (String.◌++◌ "resolving mTLS CAs: ")
          (resolve_mtls_from cluster.secrets pem [] (served_routes inputs))
    pure (record inputs { basic_auth = basic_auth; mtls = mtls })

  -- What the pass reads before it writes anything to Pangolin.
  unfoldable pub read_inputs : Effect W Inputs
  unfolding known_grantees resolve_protection
  read_inputs = do
    classes ← wrapped (String.◌++◌ "listing GatewayClasses: ") cluster.list_classes
    gateways ← wrapped (String.◌++◌ "listing Gateways: ") cluster.list_gateways
    routes ← wrapped (String.◌++◌ "listing HTTPRoutes: ") cluster.list_routes
    resources ← wrapped (String.◌++◌ "listing PrivateResources: ") cluster.list_resources
    policies ← wrapped (String.◌++◌ "listing ResourcePolicies: ") cluster.list_policies
    sites ← attempt pangolin.list_sites
    grantees ← known_grantees pangolin routes resources
    resolve_protection (gathered p classes gateways routes resources policies sites grantees)

  -- The three writers of statuses.
  unfoldable pub write_statuses :
      Inputs → Rendering → Map NamespacedName Verdict → Option String → Effect W (Option String)
  write_statuses inputs result verdicts publish_error = do
    routes ←
        write_status cluster p set_condition verdicts inputs.routes inputs.gateways
          inputs.gateway_classes
    resources ←
        write_resources cluster p set_condition publish_error result.private_resources
          inputs.private_resources
    policies ←
        write_policies cluster p set_condition publish_error result.policies
          inputs.resource_policies
    pure (join_errors (join_errors routes ∷ join_errors resources ∷ join_errors policies ∷ []))

  -- The end of a pass: the next one is due after the resync interval.
  abbrev pub finish : Option String → Effect (Pass W) ℤ
  finish none = pure (resync_interval p)
  finish (some e) = raise e

  -- What follows the outcome of the apply.
  unfoldable pub conclude : Inputs → Rendering → Result String (Unit {0}) → Effect (Pass W) ℤ
  unfolding after_apply write_statuses
  conclude inputs result applied = do
    published ← after_apply pangolin p fingerprint_of result inputs.mtls (failure applied)
    status_error ← in_pass (write_statuses inputs result (published.0) (failure applied))
    finish (join_errors (failure applied ∷ published.1 ∷ status_error ∷ []))

  -- Reconcile: when the next pass is due.
  unfoldable pub reconcile : Effect (Pass W) ℤ
  unfolding read_inputs conclude
  reconcile = do
    inputs ← in_pass read_inputs
    let result = render_all decode inputs
    _ ← tally result
    applied ← attempt (in_pass (pangolin.apply_blueprint result.blueprint))
    conclude inputs result applied
