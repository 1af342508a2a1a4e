-- ===== src/Inputs.antt =====
-- internal/gateway/render.go, basicauth.go and mtls.go: what one render reads. A nil map of known
-- names, which disables a check, is `none`.
use pangolin_gateway.Prelude.{Bool, Option, List, String, false, none, some}
use pangolin_gateway.Map.{Map, lookup}
use pangolin_gateway.Api.{
  NamespacedName, HttpRoute, Gateway, GatewayClass, PrivateResource, ResourcePolicy,
}
use pangolin_gateway.Blueprint.{BasicAuth}
use pangolin_gateway.Prelude.{string_eq}

pub record BasicAuthResult : Type 0 where
  pub credentials : Option BasicAuth
  pub reason : String

pub record MtlsResult : Type 0 where
  pub ca_certificates : List String
  pub reason : String

pub record Inputs : Type 0 where
  pub routes : List HttpRoute
  pub gateways : List Gateway
  pub gateway_classes : List GatewayClass
  pub controller_name : String
  pub default_site : String
  pub basic_auth : Map NamespacedName BasicAuthResult
  pub mtls : Map NamespacedName MtlsResult
  pub known_sites : Option (Map String Bool)
  pub private_resources : List PrivateResource
  pub known_machines : Option (Map String Bool)
  pub known_users : Option (Map String Bool)
  pub licensed : Bool
  pub resource_policies : List ResourcePolicy

-- `m[k]` of a set: false where the key is missing.
unfoldable pub member : String → Map String Bool → Bool
member k m = elim (lookup k m) [ none ↦ false | some b ↦ b ]

-- nameOf
abbrev pub name_of : HttpRoute → NamespacedName
name_of r = record { namespace = r.namespace; name = r.name }
