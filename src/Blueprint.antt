-- ===== src/Blueprint.antt =====
-- internal/pangolin/blueprint.go: the desired-state document, and the rows of Pangolin's listings.
use pangolin_gateway.Prelude.{ℕ, Bool, Option, List, String}
use pangolin_gateway.Map.{Map}

pub record Rule : Type 0 where
  pub action : String
  pub match : String
  pub value : String

pub record BasicAuth : Type 0 where
  pub user : String
  pub password : String
  pub extended_compatibility : Bool

pub record Mtls : Type 0 where
  pub enabled : Bool
  pub ca_certificates : List String

pub record Auth : Type 0 where
  pub sso_enabled : Bool
  pub basic_auth : Option BasicAuth
  pub pincode : Option ℕ
  pub mtls : Option Mtls
  pub sso_roles : List String
  pub sso_users : List String
  pub whitelist_users : List String

pub record Healthcheck : Type 0 where
  pub hostname : String
  pub port : ℕ
  pub interval : ℕ
  pub timeout : ℕ
  pub mode : String
  pub path : String
  pub method : String
  pub status : ℕ
  pub follow_redirects : Bool

pub record Target : Type 0 where
  pub site : String
  pub method : String
  pub hostname : String
  pub port : ℕ
  pub healthcheck : Option Healthcheck

pub record PublicResource : Type 0 where
  pub name : String
  pub mode : String
  pub full_domain : String
  pub auth : Option Auth
  pub policy : String
  pub targets : List Target
  pub rules : List Rule

pub record PublicPolicy : Type 0 where
  pub name : String
  pub sso : Bool
  pub sso_roles : List String
  pub sso_users : List String
  pub pincode : String
  pub email_whitelist_enabled : Bool
  pub whitelist_users : List String
  pub apply_rules : Bool
  pub rules : List Rule

pub record PrivateResource : Type 0 where
  pub name : String
  pub mode : String
  pub sites : List String
  pub destination : String
  pub destination_port : ℕ
  pub full_domain : String
  pub scheme : String
  pub ssl : Option Bool
  pub alias : String
  pub tcp_ports : Option String
  pub udp_ports : Option String
  pub disable_icmp : Option Bool
  pub roles : List String
  pub users : List String
  pub machines : List String

pub record Blueprint : Type 0 where
  pub public_resources : Map String PublicResource
  pub private_resources : Map String PrivateResource
  pub public_policies : Map String PublicPolicy

-- One row of a listing: DELETE takes the number, the blueprint the niceId.
pub record Resource : Type 0 where
  pub resource_id : ℕ
  pub nice_id : String

pub record Site : Type 0 where
  pub nice_id : String
  pub name : String

pub record Machine : Type 0 where
  pub nice_id : String
  pub name : String

pub record User : Type 0 where
  pub username : String
  pub email : String
