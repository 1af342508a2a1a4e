-- ===== src/Publisher/Keeping.antt =====
-- internal/controller/publisher.go: what the stages of a pass keep, if their calls keep it.
use Prim.Native.String
use pangolin_gateway.Api
use pangolin_gateway.Prelude.{
  Bool, List, Option, Result, String, [], false, none, some, true, ◌∷◌, ◌||◌,
}
use pangolin_gateway.Api.{Condition, HttpRoute, NamespacedName}
use pangolin_gateway.Certificates.{Pem}
use pangolin_gateway.Effect.{Effect}
use pangolin_gateway.Effect.Keeping.{
  Keeps, attempt-Keeps, pure-Keeps, raise-Keeps, >>=-Keeps, wrapped-Keeps,
}
use pangolin_gateway.Inputs.{Inputs}
use pangolin_gateway.Map.{Map}
use pangolin_gateway.Parents.{served_routes}
use pangolin_gateway.Prune.{Pass, join_errors}
use pangolin_gateway.Publisher.{ClusterApi, PangolinApi, Publisher, in_pass}
use pangolin_gateway.Publisher.Reconcile.{
  finish, gathered, known_grantees, known_if, known_names, machine_names, routes_want_users,
  user_names, wants_machines, wants_users, read_inputs, resolve_protection, skip_prune, tally,
  write_statuses,
}
use pangolin_gateway.Publisher.Statuses.Keeping.{
  UpdatesKeep, write_policies-Keeps, write_resources-Keeps, write_status-Keeps,
}
use pangolin_gateway.Render.{Rendering}
use pangolin_gateway.Rules.{RuleSpec}
use pangolin_gateway.Secrets.Keeping.{
  SecretsKeep, resolve_basic_auth_from-Keeps, resolve_mtls_from-Keeps,
}
use pangolin_gateway.Verdict.{Verdict}

-- The reads of the cluster keep it: listings, and the calls about Secrets and ConfigMaps.
pub record ReadsKeep {W : Type 0} (Kept : W → Type 0) (cluster : ClusterApi W) : Type 0 where
  pub lists_classes : Keeps Kept cluster.list_classes
  pub lists_gateways : Keeps Kept cluster.list_gateways
  pub lists_routes : Keeps Kept cluster.list_routes
  pub lists_resources : Keeps Kept cluster.list_resources
  pub lists_policies : Keeps Kept cluster.list_policies
  pub secret_calls : SecretsKeep Kept cluster.secrets

-- All calls of the cluster keep it.
pub record ClusterKeeps {W : Type 0} (Kept : W → Type 0) (cluster : ClusterApi W) : Type 0 where
  pub cluster_reads : ReadsKeep Kept cluster
  pub updates : UpdatesKeep Kept cluster

-- The listings of Pangolin that a pass makes before the render keep it.
pub record ListingsKeep {W : Type 0} (Kept : W → Type 0) (pangolin : PangolinApi W) : Type 0 where
  pub lists_sites : Keeps Kept pangolin.list_sites
  pub lists_machines : Keeps Kept pangolin.list_machines
  pub lists_users : Keeps Kept pangolin.list_users

module _ {W : Type 0} (Kept : W → Type 0) where
  -- The same of the world of a pass.
  abbrev pub PassKept : Pass W → Type 0
  PassKept s = Kept s.world

  pub in_pass-Keeps : {A : Type 0} {m : Effect W A} → Keeps Kept m → Keeps PassKept (in_pass m)
  in_pass-Keeps p = record { keeps = λ s h. p.keeps s.world h }

  pub tally-Keeps : (result : Rendering) → Keeps PassKept (tally result)
  tally-Keeps result = record { keeps = λ s h. h }

  pub skip_prune-kept :
      (licensed : Bool) (s : Pass W) → Kept s.world → Kept (skip_prune licensed s).world
  skip_prune-kept true s h = h
  skip_prune-kept false s h = h

  known_if-Keeps :
      {T : Type 0} (wanted : Bool) (names : List T → Map String Bool) {listing : Effect W (List T)}
      → Keeps Kept listing
      → Keeps Kept (known_if wanted names listing)
  known_if-Keeps true names p =
      >>=-Keeps (attempt-Keeps p) (λ listed. pure-Keeps (known_names names listed))
  known_if-Keeps false names p = pure-Keeps none

  module _ (cluster : ClusterApi W) (pangolin : PangolinApi W) (p : Publisher) (pem : Pem)
      (fingerprint_of : String → String)
      (set_condition : List Condition → Condition → List Condition × Bool)
      (decode : String → Result String (List RuleSpec)) (calls : ReadsKeep Kept cluster)
      (listings : ListingsKeep Kept pangolin) where
    known_grantees-Keeps :
        (rs : List HttpRoute) (resources : List Api.PrivateResource)
        → Keeps Kept (known_grantees pangolin rs resources)
    unfolding known_grantees
    known_grantees-Keeps rs resources =
        >>=-Keeps (known_if-Keeps (wants_machines resources) machine_names listings.lists_machines)
          (λ machines.
            >>=-Keeps
              (known_if-Keeps (wants_users resources || routes_want_users rs) user_names
                listings.lists_users)
              (λ users. pure-Keeps (machines, users)))

    resolve_protection-Keeps :
        (inputs : Inputs)
        → Keeps Kept
            (resolve_protection cluster pangolin p pem fingerprint_of set_condition decode inputs)
    unfolding resolve_protection
    resolve_protection-Keeps inputs =
        >>=-Keeps
          (wrapped-Keeps (String.◌++◌ "resolving basic auth credentials: ") (
            resolve_basic_auth_from-Keeps Kept cluster.secrets calls.secret_calls p.dry_run []
              (served_routes inputs)))
          (λ basic_auth.
            >>=-Keeps
              (wrapped-Keeps (String.◌++◌ "resolving mTLS CAs: ") (
                resolve_mtls_from-Keeps Kept cluster.secrets calls.secret_calls pem []
                  (served_routes inputs)))
              (λ mtls. pure-Keeps (record inputs { basic_auth = basic_auth; mtls = mtls })))

    pub read_inputs-Keeps :
        Keeps Kept (read_inputs cluster pangolin p pem fingerprint_of set_condition decode)
    unfolding read_inputs
    read_inputs-Keeps = >>=-Keeps (wrapped-Keeps _ calls.lists_classes) (λ classes.
        >>=-Keeps (wrapped-Keeps _ calls.lists_gateways) (λ gateways.
          >>=-Keeps (wrapped-Keeps _ calls.lists_routes) (λ routes.
            >>=-Keeps (wrapped-Keeps _ calls.lists_resources) (λ resources.
              >>=-Keeps (wrapped-Keeps _ calls.lists_policies) (λ policies.
                >>=-Keeps (attempt-Keeps listings.lists_sites) (λ sites.
                  >>=-Keeps (known_grantees-Keeps routes resources) (λ grantees.
                    resolve_protection-Keeps
                      (gathered p classes gateways routes resources policies sites grantees))))))))

    pub finish-Keeps :
        (error : Option String)
        → Keeps PassKept (finish cluster pangolin p pem fingerprint_of set_condition decode error)
    finish-Keeps none = pure-Keeps _
    finish-Keeps (some e) = raise-Keeps e

  module _ (cluster : ClusterApi W) (pangolin : PangolinApi W) (p : Publisher) (pem : Pem)
      (fingerprint_of : String → String)
      (set_condition : List Condition → Condition → List Condition × Bool)
      (decode : String → Result String (List RuleSpec)) (updates : UpdatesKeep Kept cluster) where
    pub write_statuses-Keeps :
        (inputs : Inputs) (result : Rendering) (verdicts : Map NamespacedName Verdict)
        (error : Option String)
        → Keeps Kept (
            write_statuses cluster pangolin p pem fingerprint_of set_condition decode inputs result
              verdicts error)
    unfolding write_statuses
    write_statuses-Keeps inputs result verdicts error =
        >>=-Keeps (write_status-Keeps Kept cluster p set_condition updates _ _ _ _) (λ a.
          >>=-Keeps (write_resources-Keeps Kept cluster p set_condition updates _ _ _) (λ b.
            >>=-Keeps (write_policies-Keeps Kept cluster p set_condition updates _ _ _)
              (λ c. pure-Keeps (join_errors (join_errors a ∷ join_errors b ∷ join_errors c ∷ [])))))
