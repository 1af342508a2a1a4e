-- ===== src/Publisher.antt =====
-- internal/controller/publisher.go: the reconciler. The cluster and Pangolin are one world `W` that
-- each call may change.
pub mod Statuses
pub mod Verify
pub mod Reconcile
pub mod Writes
pub mod Confirm
pub mod Wanted
pub mod Enforced
pub mod Failed
pub mod Keeping
pub mod Unread
pub mod Succeeds
pub mod Whole
pub mod Quiet
use Prim.Native.String
use pangolin_gateway.Api
use pangolin_gateway.Prelude.{
  Bool, List, Option, String, [], if◌then◌else◌, none, not, some, suc, zero, ℕ, ◌++◌, ◌∷◌,
  string_eq,
}
use pangolin_gateway.Api.{
  NamespacedName, HttpRoute, Gateway, GatewayClass, ResourcePolicy, yes_status, name_eq,
}
use pangolin_gateway.Blueprint.{Blueprint, Site, Machine, User}
use pangolin_gateway.Effect.{Effect}
use pangolin_gateway.Map.{Map}
use pangolin_gateway.Prelude.Int.{ℤ, pos, negsuc}
use pangolin_gateway.Prune.{Pass, SectionApi}
use pangolin_gateway.Secrets.{SecretApi}
use pangolin_gateway.Verdict.{
  ConditionResult, ResourceVerdict, Verdict, accepted, published, rejected,
}

-- Durations are nanoseconds.
pub record Publisher : Type 0 where
  pub controller_name : String
  pub default_site : String
  pub resync_interval : ℤ
  pub licensed : Bool
  pub dry_run : Bool

-- pangolin.Client. Of a certificate only the fingerprint is read.
pub record PangolinApi (W : Type 0) : Type 0 where
  pub apply_blueprint : Blueprint → Effect W (Unit {0})
  pub list_sites : Effect W (List Site)
  pub list_machines : Effect W (List Machine)
  pub list_users : Effect W (List User)
  pub public_section : SectionApi W
  pub private_section : SectionApi W
  pub policy_section : SectionApi W
  pub list_certificates : ℕ → Effect W (List String)

-- The calls of the Kubernetes client: five listings and five status updates.
pub record ClusterApi (W : Type 0) : Type 0 where
  pub list_classes : Effect W (List GatewayClass)
  pub list_gateways : Effect W (List Gateway)
  pub list_routes : Effect W (List HttpRoute)
  pub list_resources : Effect W (List Api.PrivateResource)
  pub list_policies : Effect W (List ResourcePolicy)
  pub update_route : HttpRoute → Effect W (Unit {0})
  pub update_class : GatewayClass → Effect W (Unit {0})
  pub update_gateway : Gateway → Effect W (Unit {0})
  pub update_resource : Api.PrivateResource → Effect W (Unit {0})
  pub update_policy : ResourcePolicy → Effect W (Unit {0})
  pub secrets : SecretApi W

-- A call of the world inside a pass: the metrics stay.
abbrev pub in_pass : {W A : Type 0} → Effect W A → Effect (Pass W) A
in_pass m = λ p. ((m p.world).0, record p { world = (m p.world).1 })

-- DefaultResyncInterval
abbrev pub default_resync_interval : ℤ
default_resync_interval = pos 300000000000

-- resyncInterval
unfoldable pub resync_interval : Publisher → ℤ
resync_interval p = elim (p.resync_interval) [
  | pos zero ↦ default_resync_interval
  | pos (suc n) ↦ pos (suc n)
  | negsuc n ↦ default_resync_interval
]

-- The loops of markPublishFailed and markDryRun: the routes that are published get the condition.
unfoldable pub mark_published :
    ConditionResult → Map NamespacedName Verdict → Map NamespacedName Verdict
mark_published cond [] = []
mark_published cond ((name, v) ∷ vs) =
    (name, if published v.key then record v { accepted = cond } else v) ∷ mark_published cond vs

abbrev pub publish_failed : String → ConditionResult
publish_failed e = rejected "PublishFailed" (String.◌++◌ "publishing to Pangolin failed: " e)

abbrev pub dry_run_message : String
dry_run_message = "dry run: accepted but not published to Pangolin"

-- markPublishFailed
unfoldable pub mark_publish_failed :
    String → Map NamespacedName Verdict → Map NamespacedName Verdict
unfolding mark_published
mark_publish_failed e verdicts = mark_published (publish_failed e) verdicts

-- markDryRun
unfoldable pub mark_dry_run : Map NamespacedName Verdict → Map NamespacedName Verdict
unfolding mark_published
mark_dry_run verdicts =
    mark_published (record { status = yes_status; reason = "DryRun"; message = dry_run_message })
      verdicts

-- countRejected
unfoldable pub count_rejected : Map NamespacedName Verdict → ℕ
count_rejected [] = 0
count_rejected ((name, v) ∷ vs) =
    let rest = count_rejected vs in if published v.key then rest else suc rest

-- countRejectedResources
unfoldable pub count_rejected_resources : Map NamespacedName ResourceVerdict → ℕ
count_rejected_resources [] = 0
count_rejected_resources ((name, v) ∷ vs) =
    let rest = count_rejected_resources vs in if published v.key then rest else suc rest

-- programmed
unfoldable pub programmed : Bool → ResourceVerdict → Option String → ConditionResult
programmed dry_run v publish_error =
    if not (published v.key)
    then rejected "NotAccepted" (String.◌++◌ "Not published: " v.accepted.message)
    else elim publish_error [
      | some e ↦ publish_failed e
      | none ↦ if dry_run then rejected "DryRun" dry_run_message else record {
        status = yes_status;
        reason = "Programmed";
        message = String.◌++◌ "Published to Pangolin as " v.key;
      }
    ]

-- The key that the status of an object shows after a pass.
unfoldable pub status_key : String → ResourceVerdict → Option String → String
status_key old v publish_error =
    if not (published v.key) then "" else elim publish_error [ some e ↦ old | none ↦ v.key ]
