-- ===== src/Publisher/Statuses/Keeping.antt =====
-- internal/controller/publisher.go: what the writers of the statuses keep, if the updates keep it.
use pangolin_gateway.Api
use pangolin_gateway.Prelude.{Bool, List, Option, String, [], false, true, ◌++◌, ◌∷◌}
use pangolin_gateway.Api.{
  Condition, Gateway, GatewayClass, HttpRoute, NamespacedName, ResourcePolicy,
}
use pangolin_gateway.Effect.{Effect, failure}
use pangolin_gateway.Effect.Keeping.{Keeps, attempt-Keeps, pure-Keeps, >>=-Keeps}
use pangolin_gateway.Map.{Map}
use pangolin_gateway.Publisher.{ClusterApi, Publisher}
use pangolin_gateway.Publisher.Statuses.{
  write_classes, write_gateways, write_policies, write_resources, write_routes, write_status,
  written,
}
use pangolin_gateway.Verdict.{ResourceVerdict, Verdict}

-- The status updates keep it.
pub record UpdatesKeep {W : Type 0} (Kept : W → Type 0) (cluster : ClusterApi W) : Type 0 where
  pub updates_route : (r : HttpRoute) → Keeps Kept (cluster.update_route r)
  pub updates_class : (c : GatewayClass) → Keeps Kept (cluster.update_class c)
  pub updates_gateway : (g : Gateway) → Keeps Kept (cluster.update_gateway g)
  pub updates_resource : (r : Api.PrivateResource) → Keeps Kept (cluster.update_resource r)
  pub updates_policy : (r : ResourcePolicy) → Keeps Kept (cluster.update_policy r)

module _ {W : Type 0} (Kept : W → Type 0) (cluster : ClusterApi W) (p : Publisher)
    (set_condition : List Condition → Condition → List Condition × Bool)
    (updates : UpdatesKeep Kept cluster) where
  written-Keeps :
      (changed : Bool) {update : Effect W (Unit {0})} {rest : Effect W (List (Option String))}
      → Keeps Kept update
      → Keeps Kept rest
      → Keeps Kept (written changed update rest)
  written-Keeps true a b =
      >>=-Keeps (attempt-Keeps a)
        (λ result. >>=-Keeps b (λ errors. pure-Keeps (failure result ∷ errors)))
  written-Keeps false a b = b

  write_routes-Keeps :
      (verdicts : Map NamespacedName Verdict) (rs : List HttpRoute)
      → Keeps Kept (write_routes cluster p set_condition verdicts rs)
  unfolding write_routes
  write_routes-Keeps verdicts [] = pure-Keeps _
  write_routes-Keeps verdicts (r ∷ rs) =
      written-Keeps _ (updates.updates_route _) (write_routes-Keeps verdicts rs)

  write_classes-Keeps :
      (served : Map String Bool) (cs : List GatewayClass)
      → Keeps Kept (write_classes cluster p set_condition served cs)
  unfolding write_classes
  write_classes-Keeps served [] = pure-Keeps _
  write_classes-Keeps served (c ∷ cs) =
      written-Keeps _ (updates.updates_class _) (write_classes-Keeps served cs)

  write_gateways-Keeps :
      (served : Map String Bool) (gs : List Gateway)
      → Keeps Kept (write_gateways cluster p set_condition served gs)
  unfolding write_gateways
  write_gateways-Keeps served [] = pure-Keeps _
  write_gateways-Keeps served (g ∷ gs) =
      written-Keeps _ (updates.updates_gateway _) (write_gateways-Keeps served gs)

  pub write_status-Keeps :
      (verdicts : Map NamespacedName Verdict) (rs : List HttpRoute) (gs : List Gateway)
      (cs : List GatewayClass)
      → Keeps Kept (write_status cluster p set_condition verdicts rs gs cs)
  unfolding write_status
  write_status-Keeps verdicts rs gs cs = >>=-Keeps (write_routes-Keeps verdicts rs) (λ a.
      >>=-Keeps (write_classes-Keeps _ cs)
        (λ b. >>=-Keeps (write_gateways-Keeps _ gs) (λ c. pure-Keeps (a ++ b ++ c))))

  pub write_resources-Keeps :
      (error : Option String) (verdicts : Map NamespacedName ResourceVerdict)
      (rs : List Api.PrivateResource)
      → Keeps Kept (write_resources cluster p set_condition error verdicts rs)
  unfolding write_resources
  write_resources-Keeps error verdicts [] = pure-Keeps _
  write_resources-Keeps error verdicts (r ∷ rs) =
      written-Keeps _ (updates.updates_resource _) (write_resources-Keeps error verdicts rs)

  pub write_policies-Keeps :
      (error : Option String) (verdicts : Map NamespacedName ResourceVerdict)
      (rs : List ResourcePolicy)
      → Keeps Kept (write_policies cluster p set_condition error verdicts rs)
  unfolding write_policies
  write_policies-Keeps error verdicts [] = pure-Keeps _
  write_policies-Keeps error verdicts (r ∷ rs) =
      written-Keeps _ (updates.updates_policy _) (write_policies-Keeps error verdicts rs)
