-- ===== src/Policies.antt =====
-- internal/gateway/policy.go: the shared policies, and the route's reference to one.
pub mod Translate
pub mod Keys
use Prim.Native.String
use pangolin_gateway.Annotation
use Prim.Native.Nat.{Ordering, compare}
use Prim.Native.String.{compare as compare_str}
use pangolin_gateway.Prelude.{
  List, Option, Result, String, [], err, false, if◌then◌else◌, none, not, ok, some, ◌++◌, ◌==◌,
  ◌>>=◌, ◌∷◌, string_eq,
}
use pangolin_gateway.Annotations.{Annotations, mtls_annotations, value_of}
use pangolin_gateway.Api.{HttpRoute, NamespacedName, ResourcePolicy, name_eq}
use pangolin_gateway.Blueprint.{Auth, PublicPolicy}
use pangolin_gateway.Inputs.{Inputs}
use pangolin_gateway.Map.{Map, insert, lookup}
use pangolin_gateway.Order.{lexicographic}
use pangolin_gateway.Protection.{mtls_for}
use pangolin_gateway.Text.{concat, quote, trim_space}
use pangolin_gateway.Verdict.{
  ConditionResult, ResourceVerdict, published, rejected, resource_accepted, accepted,
}

-- PolicyKey
unfoldable pub policy_key : String → String → String
policy_key namespace name = concat ("gw-" ∷ namespace ∷ "-" ∷ name ∷ [])

abbrev pub policy_conflicts : List String
policy_conflicts =
    (Annotation.sso ∷ Annotation.pincode ∷ Annotation.basic_auth ∷ Annotation.access_rules
      ∷ Annotation.roles ∷ Annotation.users ∷ Annotation.email_whitelist ∷ [])
    ++ mtls_annotations

-- The loop over policyConflicts: the first annotation that is not blank.
unfoldable pub first_conflict : Annotations → List String → Option String
first_conflict m [] = none
first_conflict m (a ∷ rest) =
    let later = first_conflict m rest in if trim_space (value_of m a) == "" then later else some a

abbrev pub named_policy : String → String → Option ResourceVerdict → Result String String
named_policy namespace name none = err (
    concat
      ("ResourcePolicy " ∷ quote name ∷ " does not exist in namespace " ∷ quote namespace ∷ []))
named_policy namespace name (some v) =
    if published v.key
    then ok v.key
    else err
        (concat ("ResourcePolicy " ∷ quote name ∷ " is not accepted: " ∷ v.accepted.message ∷ []))

-- policyFor
unfoldable pub policy_for :
    HttpRoute → Inputs → Map NamespacedName ResourceVerdict → Result String String
unfolding first_conflict
policy_for r inputs policies =
    let name = trim_space (value_of r.annotations Annotation.policy) in
    if name == ""
    then ok ""
    else if not inputs.licensed
    then err (
        concat (
          "annotation " ∷ Annotation.policy
          ∷ " needs shared policies, a licensed Pangolin feature; start the controller with --pangolin-licensed"
          ∷ []))
    else elim (first_conflict r.annotations policy_conflicts) [
      | some a ↦ err (
          concat (
            "annotation " ∷ a ∷ " conflicts with " ∷ Annotation.policy
            ∷ "; the policy decides who may reach the route, so remove it" ∷ []))
      | none ↦
          named_policy r.namespace name
            (lookup (record { namespace = r.namespace; name = name }) policies)
    ]

-- sharedPolicyAuth
unfoldable pub shared_policy_auth : HttpRoute → Inputs → Result String Auth
shared_policy_auth r inputs = mtls_for r inputs >>= λ mtls. ok (record {
  sso_enabled = false;
  basic_auth = none;
  pincode = none;
  mtls = some mtls;
  sso_roles = [];
  sso_users = [];
  whitelist_users = [];
})

-- The order of the sort: creation time, namespace, name.
pub policy_age : ResourcePolicy → ResourcePolicy → Ordering
policy_age =
    lexicographic (λ a b. compare a.created_at b.created_at)
      (lexicographic (λ a b. compare_str a.namespace b.namespace)
        (λ a b. compare_str a.name b.name))

abbrev pub policy_name : ResourcePolicy → NamespacedName
policy_name rp = record { namespace = rp.namespace; name = rp.name }

-- What renderPolicies holds while it runs.
pub record Policies : Type 0 where
  pub owners : Map String NamespacedName
  pub entries : Map String PublicPolicy
  pub verdicts : Map NamespacedName ResourceVerdict

abbrev pub policy_accepted : ConditionResult
policy_accepted = record resource_accepted { message = "Policy is valid and its key is unclaimed" }

abbrev pub duplicate_policy : String → NamespacedName → ConditionResult
duplicate_policy key owner = rejected "DuplicateResourceKey" (
    concat (
      "policy key "
      ∷ quote key
      ∷ " is already claimed by ResourcePolicy "
      ∷ owner.namespace
      ∷ "/"
      ∷ owner.name
      ∷ []))

abbrev pub refuse_policy : ResourcePolicy → ConditionResult → Policies → Policies
refuse_policy rp cond s = record s {
  verdicts =
      insert (policy_name rp) (record { key = ""; generation = rp.generation; accepted = cond })
        s.verdicts;
}

abbrev pub admit_policy : ResourcePolicy → PublicPolicy → Policies → Policies
admit_policy rp entry s =
    let key = policy_key rp.namespace rp.name in
    record {
      owners = insert key (policy_name rp) s.owners;
      entries = insert key entry s.entries;
      verdicts =
          insert (policy_name rp)
            (record { key = key; generation = rp.generation; accepted = policy_accepted })
            s.verdicts;
    }

module _ (translate_policy : ResourcePolicy → Result ConditionResult PublicPolicy) where
  -- One round of the loop of renderPolicies.
  unfoldable pub render_policy : Policies → ResourcePolicy → Policies
  unfolding policy_key
  render_policy s rp = elim (translate_policy rp) [
    | err cond ↦ refuse_policy rp cond s
    | ok entry ↦ elim (lookup (policy_key rp.namespace rp.name) s.owners) [
      | some owner ↦ refuse_policy rp (duplicate_policy (policy_key rp.namespace rp.name) owner) s
      | none ↦ admit_policy rp entry s
    ]
  ]

  unfoldable pub render_policies_from : Policies → List ResourcePolicy → Policies
  unfolding render_policy
  render_policies_from s [] = s
  render_policies_from s (rp ∷ rps) = render_policies_from (render_policy s rp) rps

abbrev pub no_policies : Policies
no_policies = record { owners = []; entries = []; verdicts = [] }
