-- ===== src/Render.antt =====
-- internal/gateway/render.go: RenderAll, the whole render: a blueprint and a verdict for every
-- object. `decode` is the YAML decoder of rules.go.
pub mod Policy
pub mod Backed
use Prim.Native.String
use pangolin_gateway.Api
use pangolin_gateway.Prelude.{
  Bool, List, Result, String, [], err, if◌then◌else◌, none, not, ok, some, ℕ, ◌&&◌, ◌++◌, ◌==◌,
  ◌||◌, ◌∷◌, string_eq,
}
use pangolin_gateway.Api.{Gateway, HttpRoute, NamespacedName, ParentReference, name_eq}
use pangolin_gateway.Blueprint.{Blueprint}
use pangolin_gateway.Collisions.{Rendered, Candidate, Claimant, Outcome, resolve_collisions}
use pangolin_gateway.Inputs.{Inputs, name_of}
use pangolin_gateway.Map.{Map, insert, lookup}
use pangolin_gateway.Parents.{
  gateways_by_name, has_only_unresolvable_parents, served_classes, served_parents,
}
use pangolin_gateway.Policies.Translate.{render_policies}
use pangolin_gateway.PrivateResources.{translate_private_resource}
use pangolin_gateway.Routes.Entries.{translate}
use pangolin_gateway.Rules.{RuleSpec}
use pangolin_gateway.Verdict.{
  ConditionResult, ResourceVerdict, Verdict, accepted, rejected, resolved, resource_accepted,
  with_notes,
}

-- isRefReason
unfoldable pub is_ref_reason : String → Bool
is_ref_reason reason =
    reason == "InvalidKind" || reason == "RefNotPermitted" || reason == "BackendNotFound"

-- The verdict of a route that translate refused with `cond`.
unfoldable pub refused_verdict : HttpRoute → List ParentReference → ConditionResult → Verdict
unfolding is_ref_reason
refused_verdict r served cond =
    if is_ref_reason cond.reason
    then record {
      key = "";
      generation = r.generation;
      parent_refs = served;
      accepted = rejected "UnsupportedValue" cond.message;
      resolved_refs = cond;
    }
    else record {
      key = "";
      generation = r.generation;
      parent_refs = served;
      accepted = cond;
      resolved_refs = resolved;
    }

-- The verdict of a route none of whose parents exists.
abbrev pub orphan_verdict : HttpRoute → Verdict
orphan_verdict r = record {
  key = "";
  generation = r.generation;
  parent_refs = r.parent_refs;
  accepted = rejected "NoMatchingParent" "no Gateway found for any parentRef";
  resolved_refs = resolved;
}

abbrev pub pending_verdict : HttpRoute → List ParentReference → Rendered → Verdict
pending_verdict r served entry = record {
  key = "";
  generation = r.generation;
  parent_refs = served;
  accepted = with_notes accepted entry.notes;
  resolved_refs = resolved;
}

abbrev pub candidate_of : String → NamespacedName → ℕ → Rendered → Candidate
candidate_of kind name created_at entry = record {
  claimant = record { kind = kind; name = name };
  created_at = created_at;
  entry = entry;
}

-- What one route adds to a render: its verdict, and the candidate it becomes.
pub data Judged (V : Type 0) : Type 0 where
  unserved : Judged V
  refused : V → Judged V
  competing : V → Candidate → Judged V

module _ (decode : String → Result String (List RuleSpec)) (inputs : Inputs)
    (policies : Map NamespacedName ResourceVerdict) where
  abbrev pub judge_served : HttpRoute → List ParentReference → Judged Verdict
  judge_served r served = elim (translate decode r inputs policies) [
    | err cond ↦ refused (refused_verdict r served cond)
    | ok entry ↦
        competing (pending_verdict r served entry)
          (candidate_of "HTTPRoute" (name_of r) r.created_at entry)
  ]

  -- One round of the loop over the routes.
  unfoldable pub judge_route :
      Map NamespacedName Api.Gateway → Map String Bool → HttpRoute → Judged Verdict
  unfolding refused_verdict
  judge_route gateways classes r =
      let (served, any_found) = served_parents r gateways classes in
      elim served [
        | [] ↦
            if not any_found && has_only_unresolvable_parents r gateways
            then refused (orphan_verdict r)
            else unserved
        | ref ∷ refs ↦ judge_served r (ref ∷ refs)
      ]

-- One round of the loop over the PrivateResources.
unfoldable pub judge_resource : Inputs → Api.PrivateResource → Judged ResourceVerdict
judge_resource inputs pr = elim (translate_private_resource pr inputs) [
  | err cond ↦ refused (record { key = ""; generation = pr.generation; accepted = cond })
  | ok entry ↦
      competing
        (record {
          key = "";
          generation = pr.generation;
          accepted = with_notes resource_accepted entry.notes;
        })
        (candidate_of "PrivateResource" (record { namespace = pr.namespace; name = pr.name })
          pr.created_at entry)
]

module _ {O V : Type 0} (name : O → NamespacedName) (judge : O → Judged V) where
  -- The loop over the objects: the verdicts so far are `found`.
  unfoldable pub verdicts_from : Map NamespacedName V → List O → Map NamespacedName V
  verdicts_from found [] = found
  verdicts_from found (o ∷ os) =
      let unchanged = verdicts_from found os in
      elim (judge o) [
        | unserved ↦ unchanged
        | refused v ↦ verdicts_from (insert (name o) v found) os
        | competing v c ↦ verdicts_from (insert (name o) v found) os
      ]

  unfoldable pub candidates_of : List O → List Candidate
  candidates_of [] = []
  candidates_of (o ∷ os) =
      let rest = candidates_of os in
      elim (judge o) [ unserved ↦ rest | refused v ↦ rest | competing v c ↦ c ∷ rest ]

abbrev pub resource_name : Api.PrivateResource → NamespacedName
resource_name pr = record { namespace = pr.namespace; name = pr.name }

abbrev pub concluded : Outcome → Verdict → Verdict
concluded o v = record v {
  key = o.key;
  accepted = elim (o.rejected) [ none ↦ v.accepted | some cond ↦ cond ];
}

abbrev pub concluded_resource : Outcome → ResourceVerdict → ResourceVerdict
concluded_resource o v = record v {
  key = o.key;
  accepted = elim (o.rejected) [ none ↦ v.accepted | some cond ↦ cond ];
}

-- The last loop of RenderAll for the candidates of one kind. Every candidate has a verdict.
unfoldable pub conclude_all :
    {V : Type 0}
    → String
    → (Outcome → V → V)
    → List (Claimant × Outcome)
    → Map NamespacedName V
    → Map NamespacedName V
conclude_all kind f [] verdicts = verdicts
conclude_all kind f ((c, o) ∷ os) verdicts =
    if c.kind == kind
    then elim (lookup c.name verdicts) [
      | none ↦ conclude_all kind f os verdicts
      | some v ↦ conclude_all kind f os (insert c.name (f o v) verdicts)
    ]
    else conclude_all kind f os verdicts

pub record Rendering : Type 0 where
  pub blueprint : Blueprint
  pub routes : Map NamespacedName Verdict
  pub private_resources : Map NamespacedName ResourceVerdict
  pub policies : Map NamespacedName ResourceVerdict

module _ (decode : String → Result String (List RuleSpec)) (inputs : Inputs) where
  -- The judgement of a route in this render.
  unfoldable pub route_judge : HttpRoute → Judged Verdict
  unfolding judge_route render_policies gateways_by_name served_classes
  route_judge =
      judge_route decode inputs (render_policies inputs).verdicts (gateways_by_name inputs.gateways)
        (served_classes inputs.gateway_classes inputs.controller_name)

  -- The candidates in the order of the two loops.
  unfoldable pub all_candidates : List Candidate
  unfolding candidates_of judge_resource route_judge
  all_candidates =
      candidates_of name_of route_judge inputs.routes
      ++ candidates_of resource_name (judge_resource inputs) inputs.private_resources

  -- RenderAll
  unfoldable pub render_all : Rendering
  unfolding all_candidates verdicts_from conclude_all resolve_collisions
  render_all =
      let award = resolve_collisions all_candidates in
      record {
        blueprint = record {
          public_resources = award.public_resources;
          private_resources = award.private_resources;
          public_policies = (render_policies inputs).entries;
        };
        routes =
            conclude_all "HTTPRoute" concluded award.outcomes
              (verdicts_from name_of route_judge [] inputs.routes);
        private_resources =
            conclude_all "PrivateResource" concluded_resource award.outcomes
              (verdicts_from resource_name (judge_resource inputs) [] inputs.private_resources);
        policies = (render_policies inputs).verdicts;
      }
