-- ===== src/Publisher/Quiet.antt =====
-- internal/controller/publisher.go: the writers of the statuses make no update when every object
-- shows what they would write, since an update is a watch event, which would start the next pass.
use pangolin_gateway.Api
use pangolin_gateway.Prelude.{
  ok, Result, ==_refl, Bool, Bool-cases, List, Option, String, [], ap, false, inl, inr, map, none,
  not, refl, some, true, ◌&&◌, ◌==◌, ◌||◌, ◌∙◌, ◌∷◌, ◌≡◌, string_eq, ◌++◌,
}
use pangolin_gateway.Api.{
  Condition, Gateway, GatewayClass, HttpRoute, NamespacedName, ResourcePolicy, name_eq,
}
use pangolin_gateway.Effect.{Effect, pure, ◌>>=◌}
use pangolin_gateway.Inputs.{Inputs, member, name_of}
use pangolin_gateway.Map.{Map, lookup}
use pangolin_gateway.Parents.{served_classes}
use pangolin_gateway.Certificates.{Pem}
use pangolin_gateway.Prune.{join_errors}
use pangolin_gateway.Rules.{RuleSpec}
use pangolin_gateway.Render.{Rendering}
use pangolin_gateway.Publisher.Reconcile.{write_statuses}
use pangolin_gateway.Publisher.{PangolinApi, ClusterApi, Publisher, published, status_key}
use pangolin_gateway.Publisher.Statuses.{
  accepted_condition, no_resource_verdict, no_verdict, or_else, programmed_gateway,
  resource_conditions, write_classes, write_gateways, write_policies, write_resources, write_routes,
  write_status, written,
}
use pangolin_gateway.Status.{set_conditions, set_route_status}
use pangolin_gateway.Status.Again.{set_route_status_again}
use pangolin_gateway.Status.Settled.{Idempotent, set_pair_again, set_one_again}
use pangolin_gateway.Verdict.{ResourceVerdict, Verdict}

-- The verdict that an object's status is written from.
abbrev pub verdict_of : Map NamespacedName ResourceVerdict → String → String → ResourceVerdict
verdict_of verdicts namespace name =
    or_else no_resource_verdict (lookup (record { namespace = namespace; name = name }) verdicts)

-- To compute the key of a status from the one that was written gives it again.
status_key_again :
    (old : String) (v : ResourceVerdict) (error : Option String)
    → status_key (status_key old v error) v error ≡ status_key old v error
unfolding status_key
status_key_again old v none = refl
status_key_again old v (some e) = elim (Bool-cases (published v.key)) [
  | inl shown ↦ rw shown refl
  | inr hidden ↦ rw hidden refl
]

status_key_same :
    (old : String) (v : ResourceVerdict) (error : Option String)
    → (status_key old v error == status_key (status_key old v error) v error) ≡ true
status_key_same old v error =
    ap (λ key. status_key old v error == key) (status_key_again old v error)
    ∙ ==_refl (status_key old v error)

module _ {W : Type 0} (cluster : ClusterApi W) (p : Publisher)
    (set_condition : List Condition → Condition → List Condition × Bool) where
  -- The objects as their updates write them.
  abbrev pub told_route : Map NamespacedName Verdict → HttpRoute → HttpRoute
  told_route verdicts r = record r {
    parents =
        (set_route_status set_condition r (or_else no_verdict (lookup (name_of r) verdicts))
          p.controller_name).0;
  }

  abbrev pub told_class : GatewayClass → GatewayClass
  told_class c = record c {
    conditions =
        (set_conditions set_condition c.conditions (accepted_condition c.generation ∷ [])).0;
  }

  abbrev pub told_gateway : Gateway → Gateway
  told_gateway g = record g {
    conditions =
        (set_conditions set_condition g.conditions
          (accepted_condition g.generation ∷ programmed_gateway g.generation ∷ [])).0;
  }

  abbrev pub told_resource :
      Option String → Map NamespacedName ResourceVerdict → Api.PrivateResource → Api.PrivateResource
  told_resource error verdicts r = record r {
    conditions =
        (set_conditions set_condition r.conditions (
          resource_conditions cluster p set_condition r.generation
            (verdict_of verdicts r.namespace r.name) error)).0;
    resource_key = status_key r.resource_key (verdict_of verdicts r.namespace r.name) error;
  }

  abbrev pub told_policy :
      Option String → Map NamespacedName ResourceVerdict → ResourcePolicy → ResourcePolicy
  told_policy error verdicts r = record r {
    conditions =
        (set_conditions set_condition r.conditions (
          resource_conditions cluster p set_condition r.generation
            (verdict_of verdicts r.namespace r.name) error)).0;
    policy_key = status_key r.policy_key (verdict_of verdicts r.namespace r.name) error;
  }

module _ {W : Type 0} (cluster : ClusterApi W) (p : Publisher)
    (set_condition : List Condition → Condition → List Condition × Bool)
    (law : Idempotent set_condition) where
  write_routes_quiet :
      (verdicts : Map NamespacedName Verdict) (rs : List HttpRoute)
      → write_routes cluster p set_condition verdicts
          (map (told_route cluster p set_condition verdicts) rs)
        ≡ pure []
  unfolding write_routes
  write_routes_quiet verdicts [] = refl
  write_routes_quiet verdicts (r ∷ rs) =
      rw
        (set_route_status_again set_condition law r
          (or_else no_verdict (lookup (name_of r) verdicts)) p.controller_name)
        (write_routes_quiet verdicts rs)

  written_quiet :
      (changed : Bool) (update : Effect W (Unit {0})) {rest : Effect W (List (Option String))}
      → changed ≡ false
      → rest ≡ pure []
      → written changed update rest ≡ pure []
  written_quiet changed update {rest} q h = ap (λ (b : Bool). written b update rest) q ∙ h

  and_false : (a b : Bool) → b ≡ false → (a && b) ≡ false
  and_false true b h = h
  and_false false b h = refl

  write_classes_quiet :
      (served : Map String Bool) (cs : List GatewayClass)
      → write_classes cluster p set_condition served (map (told_class cluster p set_condition) cs)
        ≡ pure []
  unfolding write_classes
  write_classes_quiet served [] = refl
  write_classes_quiet served (c ∷ cs) =
      written_quiet _ _
        (and_false (member c.name served) _ (
          ap (λ (r : List Condition × Bool). r.1) (set_one_again set_condition law c.conditions _)))
        (write_classes_quiet served cs)

  write_gateways_quiet :
      (served : Map String Bool) (gs : List Gateway)
      → write_gateways cluster p set_condition served
          (map (told_gateway cluster p set_condition) gs)
        ≡ pure []
  unfolding write_gateways
  write_gateways_quiet served [] = refl
  write_gateways_quiet served (g ∷ gs) =
      written_quiet _ _
        (and_false (member g.class_name served) _ (
          ap (λ (r : List Condition × Bool). r.1)
            (set_pair_again set_condition law g.conditions _ _ (λ e. cc))))
        (write_gateways_quiet served gs)

  or_false : (a b : Bool) → a ≡ false → b ≡ true → (a || not b) ≡ false
  or_false a b h k = rw (h, k) refl

  write_resources_quiet :
      (error : Option String) (verdicts : Map NamespacedName ResourceVerdict)
      (rs : List Api.PrivateResource)
      → write_resources cluster p set_condition error verdicts
          (map (told_resource cluster p set_condition error verdicts) rs)
        ≡ pure []
  unfolding write_resources
  write_resources_quiet error verdicts [] = refl
  write_resources_quiet error verdicts (r ∷ rs) =
      written_quiet _ _
        (or_false _ _
          (ap (λ (r : List Condition × Bool). r.1)
            (set_pair_again set_condition law r.conditions _ _ (λ e. cc)))
          (status_key_same r.resource_key (verdict_of verdicts r.namespace r.name) error))
        (write_resources_quiet error verdicts rs)

  write_policies_quiet :
      (error : Option String) (verdicts : Map NamespacedName ResourceVerdict)
      (rs : List ResourcePolicy)
      → write_policies cluster p set_condition error verdicts
          (map (told_policy cluster p set_condition error verdicts) rs)
        ≡ pure []
  unfolding write_policies
  write_policies_quiet error verdicts [] = refl
  write_policies_quiet error verdicts (r ∷ rs) =
      written_quiet _ _
        (or_false _ _
          (ap (λ (r : List Condition × Bool). r.1)
            (set_pair_again set_condition law r.conditions _ _ (λ e. cc)))
          (status_key_same r.policy_key (verdict_of verdicts r.namespace r.name) error))
        (write_policies_quiet error verdicts rs)

  write_status_quiet :
      (verdicts : Map NamespacedName Verdict) (routes : List HttpRoute) (gateways : List Gateway)
      (classes : List GatewayClass)
      → write_status cluster p set_condition verdicts
          (map (told_route cluster p set_condition verdicts) routes)
          (map (told_gateway cluster p set_condition) gateways)
          (map (told_class cluster p set_condition) classes)
        ≡ pure []
  unfolding write_status
  write_status_quiet verdicts routes gateways classes i =
      let served =
        served_classes (map (told_class cluster p set_condition) classes) p.controller_name in
      write_routes_quiet verdicts routes i >>= λ route_errors.
      write_classes_quiet served classes i >>= λ class_errors.
      write_gateways_quiet served gateways i >>= λ gateway_errors.
      pure (route_errors ++ class_errors ++ gateway_errors)

-- The inputs of a pass with every status as its update writes it.
module _ {W : Type 0} (cluster : ClusterApi W) (p : Publisher)
    (set_condition : List Condition → Condition → List Condition × Bool) (result : Rendering)
    (verdicts : Map NamespacedName Verdict) (error : Option String) where
  abbrev pub told : Inputs → Inputs
  told inputs = record inputs {
    routes = map (told_route cluster p set_condition verdicts) inputs.routes;
    gateways = map (told_gateway cluster p set_condition) inputs.gateways;
    gateway_classes = map (told_class cluster p set_condition) inputs.gateway_classes;
    private_resources =
        map (told_resource cluster p set_condition error result.private_resources)
          inputs.private_resources;
    resource_policies =
        map (told_policy cluster p set_condition error result.policies) inputs.resource_policies;
  }

module _ {W : Type 0} (cluster : ClusterApi W) (pangolin : PangolinApi W) (p : Publisher)
    (pem : Pem) (fingerprint_of : String → String)
    (set_condition : List Condition → Condition → List Condition × Bool)
    (decode : String → Result String (List RuleSpec)) (law : Idempotent set_condition) where
  -- Where every object shows the status that its update writes for the verdicts of the pass, the
  -- writers of the statuses make no update, change nothing of the world and report no error.
  pub write_statuses_quiet :
      (inputs : Inputs) (result : Rendering) (verdicts : Map NamespacedName Verdict)
      (error : Option String) (world : W)
      → write_statuses cluster pangolin p pem fingerprint_of set_condition decode
          (told cluster p set_condition result verdicts error inputs)
          result
          verdicts
          error
          world
        ≡ (ok none, world)
  unfolding write_statuses join_errors
  write_statuses_quiet inputs result verdicts error world i =
      let writes : Effect W (Option String) = do
        routes ←
            write_status_quiet cluster p set_condition law verdicts inputs.routes inputs.gateways
              inputs.gateway_classes i
        resources ←
            write_resources_quiet cluster p set_condition law error result.private_resources
              inputs.private_resources i
        policies ←
            write_policies_quiet cluster p set_condition law error result.policies
              inputs.resource_policies i
        pure (join_errors (join_errors routes ∷ join_errors resources ∷ join_errors policies ∷ []))
      in writes world
