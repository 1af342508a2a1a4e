-- ===== src/Publisher/Statuses.antt =====
-- internal/controller/publisher.go: the writers of the statuses. `set_condition` is
-- meta.SetStatusCondition.
pub mod Keeping
use pangolin_gateway.Api
use pangolin_gateway.Prelude.{
  Bool, List, Option, String, [], false, none, not, some, true, ℕ, ◌&&◌, ◌++◌, ◌==◌, ◌||◌, ◌∷◌,
  string_eq,
}
use pangolin_gateway.Api.{
  NamespacedName, HttpRoute, Gateway, GatewayClass, ResourcePolicy, Condition, yes_status, name_eq,
}
use pangolin_gateway.Effect.{Effect, pure, attempt, failure, ◌>>=◌}
use pangolin_gateway.Inputs.{member, name_of}
use pangolin_gateway.Map.{Map, lookup}
use pangolin_gateway.Parents.{served_classes}
use pangolin_gateway.Publisher.{ClusterApi, Publisher, programmed, status_key}
use pangolin_gateway.Status.{condition_of, set_conditions, set_route_status}
use pangolin_gateway.Verdict.{ResourceVerdict, Verdict, rejected}

-- One update where something changed, behind the errors so far.
abbrev pub written :
    {W : Type 0}
    → Bool
    → Effect W (Unit {0})
    → Effect W (List (Option String))
    → Effect W (List (Option String))
written true update rest =
    attempt update >>= λ result. rest >>= λ errors. pure (failure result ∷ errors)
written false update rest = rest

-- The verdict that a missing key reads: that of a route which is not served.
abbrev pub no_verdict : Verdict
no_verdict = record {
  key = "";
  generation = 0;
  parent_refs = [];
  accepted = rejected "" "";
  resolved_refs = rejected "" "";
}

abbrev pub no_resource_verdict : ResourceVerdict
no_resource_verdict = record { key = ""; generation = 0; accepted = rejected "" "" }

abbrev pub or_else {ℓ} : {A : Type ℓ} → A → Option A → A
or_else fallback none = fallback
or_else fallback (some a) = a

abbrev pub served_message : String
served_message = "Served by pangolin-gateway"

abbrev pub accepted_condition : ℕ → Condition
accepted_condition generation = record {
  typ = "Accepted";
  status = yes_status;
  reason = "Accepted";
  message = served_message;
  observed_generation = generation;
}

abbrev pub programmed_gateway : ℕ → Condition
programmed_gateway generation = record {
  typ = "Programmed";
  status = yes_status;
  reason = "Programmed";
  message = "Routes are published to Pangolin";
  observed_generation = generation;
}

module _ {W : Type 0} (cluster : ClusterApi W) (p : Publisher)
    (set_condition : List Condition → Condition → List Condition × Bool) where
  -- writeStatus: its loop over the routes.
  unfoldable pub write_routes :
      Map NamespacedName Verdict → List HttpRoute → Effect W (List (Option String))
  write_routes verdicts [] = pure []
  write_routes verdicts (r ∷ rs) =
      let (parents, changed) =
        set_route_status set_condition r (or_else no_verdict (lookup (name_of r) verdicts))
          p.controller_name in
      written changed (cluster.update_route (record r { parents = parents }))
        (write_routes verdicts rs)

  -- writeStatus: its loop over the classes.
  unfoldable pub write_classes :
      Map String Bool → List GatewayClass → Effect W (List (Option String))
  write_classes served [] = pure []
  write_classes served (c ∷ cs) =
      let (conditions, changed) =
        set_conditions set_condition c.conditions (accepted_condition c.generation ∷ []) in
      written (member c.name served && changed)
        (cluster.update_class (record c { conditions = conditions })) (write_classes served cs)

  -- writeStatus: its loop over the Gateways.
  unfoldable pub write_gateways : Map String Bool → List Gateway → Effect W (List (Option String))
  write_gateways served [] = pure []
  write_gateways served (g ∷ gs) =
      let (conditions, changed) =
        set_conditions set_condition g.conditions
          (accepted_condition g.generation ∷ programmed_gateway g.generation ∷ []) in
      written (member g.class_name served && changed)
        (cluster.update_gateway (record g { conditions = conditions })) (write_gateways served gs)

  -- writeStatus
  unfoldable pub write_status :
      Map NamespacedName Verdict
      → List HttpRoute
      → List Gateway
      → List GatewayClass
      → Effect W (List (Option String))
  unfolding write_routes write_classes write_gateways
  write_status verdicts routes gateways classes =
      let served = served_classes classes p.controller_name in
      write_routes verdicts routes >>= λ route_errors.
      write_classes served classes >>= λ class_errors.
      write_gateways served gateways >>= λ gateway_errors.
      pure (route_errors ++ class_errors ++ gateway_errors)

  -- The conditions that a PrivateResource or a ResourcePolicy shows.
  abbrev pub resource_conditions : ℕ → ResourceVerdict → Option String → List Condition
  resource_conditions generation v publish_error =
      condition_of set_condition "Accepted" generation v.accepted
      ∷ condition_of set_condition "Programmed" generation (programmed p.dry_run v publish_error)
      ∷ []

  -- writeResourceStatus
  unfoldable pub write_resources :
      Option String
      → Map NamespacedName ResourceVerdict
      → List Api.PrivateResource
      → Effect W (List (Option String))
  write_resources publish_error verdicts [] = pure []
  write_resources publish_error verdicts (r ∷ rs) =
      let v =
        or_else no_resource_verdict
          (lookup (record { namespace = r.namespace; name = r.name }) verdicts) in
      let (conditions, changed) =
        set_conditions set_condition r.conditions
          (resource_conditions r.generation v publish_error) in
      let key = status_key r.resource_key v publish_error in
      written (changed || not (r.resource_key == key))
        (cluster.update_resource (record r { conditions = conditions; resource_key = key }))
        (write_resources publish_error verdicts rs)

  -- writePolicyStatus
  unfoldable pub write_policies :
      Option String
      → Map NamespacedName ResourceVerdict
      → List ResourcePolicy
      → Effect W (List (Option String))
  write_policies publish_error verdicts [] = pure []
  write_policies publish_error verdicts (r ∷ rs) =
      let v =
        or_else no_resource_verdict
          (lookup (record { namespace = r.namespace; name = r.name }) verdicts) in
      let (conditions, changed) =
        set_conditions set_condition r.conditions
          (resource_conditions r.generation v publish_error) in
      let key = status_key r.policy_key v publish_error in
      written (changed || not (r.policy_key == key))
        (cluster.update_policy (record r { conditions = conditions; policy_key = key }))
        (write_policies publish_error verdicts rs)
