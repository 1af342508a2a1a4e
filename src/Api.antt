-- ===== src/Api.antt =====
-- The objects of the Gateway API and of Kubernetes that the source reads, with the fields it reads
-- (sigs.k8s.io/gateway-api, k8s.io/apimachinery), and the controller's own kinds (api/v1alpha1).
-- A time is a number of seconds, since metav1.Time holds no fraction on the wire.
use pangolin_gateway.Prelude.{
  ℕ, ◌≡◌, Bool, true, ◌&&◌, Option, List, String, Eq, ◌==◌, ==_sound, ==_refl, string_eq, ◌↔◌,
}
use mathlib.Core.Bool.{and-eq-true_iff}
use pangolin_gateway.Map.{Map}

-- types.NamespacedName
pub record NamespacedName : Type 0 where
  pub namespace : String
  pub name : String

unfoldable pub same_name : NamespacedName → NamespacedName → Bool
same_name a b = a.namespace == b.namespace && a.name == b.name

pub same_name_iff : (a b : NamespacedName) → (same_name a b ≡ true) ↔ (a ≡ b)
unfolding same_name
same_name_iff a b = (
  λ h.
      let (p, q) = (and-eq-true_iff _ _).0 h in
      let p' = ==_sound a.namespace b.namespace p in
      let q' = ==_sound a.name b.name q in λ i. record { namespace = p' i; name = q' i },
  λ h. rw h (rw (==_refl b.namespace) (==_refl b.name)),
)

instance abbrev pub name_eq : Eq NamespacedName
unfolding same_name
name_eq = record { same = same_name; same_iff = same_name_iff }

-- metav1.ConditionStatus, without the value that the source never writes.
pub data ConditionStatus : Type 0 where
  yes_status no_status : ConditionStatus

-- metav1.Condition, without lastTransitionTime, which only the API server's clock decides.
pub record Condition : Type 0 where
  pub typ : String
  pub status : ConditionStatus
  pub reason : String
  pub message : String
  pub observed_generation : ℕ

pub record ParentReference : Type 0 where
  pub group : Option String
  pub kind : Option String
  pub namespace : Option String
  pub name : String
  pub section_name : Option String
  pub port : Option ℕ

pub record RouteParentStatus : Type 0 where
  pub parent_ref : ParentReference
  pub controller_name : String
  pub conditions : List Condition

pub record BackendRef : Type 0 where
  pub group : Option String
  pub kind : Option String
  pub namespace : Option String
  pub name : String
  pub port : Option ℕ

-- Of a filter only its presence is read.
pub record RouteRule : Type 0 where
  pub filters : List String
  pub backend_refs : List BackendRef

pub record HttpRoute : Type 0 where
  pub namespace : String
  pub name : String
  pub uid : String
  pub generation : ℕ
  pub created_at : ℕ
  pub annotations : Map String String
  pub parent_refs : List ParentReference
  pub hostnames : List String
  pub rules : List RouteRule
  pub parents : List RouteParentStatus

pub record Gateway : Type 0 where
  pub namespace : String
  pub name : String
  pub class_name : String
  pub generation : ℕ
  pub conditions : List Condition

pub record GatewayClass : Type 0 where
  pub name : String
  pub controller_name : String
  pub generation : ℕ
  pub conditions : List Condition

-- api/v1alpha1: PrivateResourceSpec with its metadata.
pub record PrivateResource : Type 0 where
  pub namespace : String
  pub name : String
  pub generation : ℕ
  pub created_at : ℕ
  pub display_name : String
  pub mode : String
  pub sites : List String
  pub destination : String
  pub tcp_ports : String
  pub udp_ports : String
  pub disable_icmp : Bool
  pub alias : String
  pub full_domain : String
  pub ssl : Option Bool
  pub scheme : String
  pub destination_port : ℕ
  pub roles : List String
  pub users : List String
  pub machines : List String
  pub conditions : List Condition
  pub resource_key : String

pub record PolicyRule : Type 0 where
  pub action : String
  pub match : String
  pub value : String

-- api/v1alpha1: ResourcePolicySpec with its metadata.
pub record ResourcePolicy : Type 0 where
  pub namespace : String
  pub name : String
  pub generation : ℕ
  pub created_at : ℕ
  pub display_name : String
  pub sso : Option Bool
  pub roles : List String
  pub users : List String
  pub email_whitelist : List String
  pub pincode : String
  pub rules : List PolicyRule
  pub conditions : List Condition
  pub policy_key : String
