-- ===== src/Protection.antt =====
-- internal/gateway/basicauth.go and mtls.go: the protections that a route asks for by annotation,
-- from what the reconciler resolved before the render.
pub mod Closed
use Prim.Native.String
use pangolin_gateway.Annotation
use pangolin_gateway.Prelude.{
  Bool, List, Option, Result, String, [], err, false, if◌then◌else◌, none, not, ok, some, true,
  ◌==◌, ◌>>=◌, ◌∷◌, string_eq,
}
use pangolin_gateway.Annotations.{Annotations, bool_annotation, mtls_annotations, value_of}
use pangolin_gateway.Api.{HttpRoute, name_eq}
use pangolin_gateway.Blueprint.{BasicAuth, Mtls}
use pangolin_gateway.Inputs.{BasicAuthResult, Inputs, MtlsResult, name_of}
use pangolin_gateway.Map.{lookup}
use pangolin_gateway.Text.{concat}

-- BasicAuthSecretName
unfoldable pub basic_auth_secret_name : String → String
basic_auth_secret_name route_name = concat ("gw-" ∷ route_name ∷ "-basic-auth" ∷ [])

-- BasicAuthRequested
unfoldable pub basic_auth_requested : HttpRoute → Result String Bool
basic_auth_requested r = bool_annotation r.annotations Annotation.basic_auth false

abbrev pub credentials_of : Option BasicAuthResult → Result String (Option BasicAuth)
credentials_of none = err (
    concat (
      "annotation " ∷ Annotation.basic_auth
      ∷ " asks for basic auth, but no credentials were resolved" ∷ []))
credentials_of (some found) = elim (found.credentials) [
  | none ↦ err (concat ("basic auth credentials are unavailable: " ∷ found.reason ∷ []))
  | some c ↦ ok (some (record c { extended_compatibility = true }))
]

-- basicAuthFor
unfoldable pub basic_auth_for : HttpRoute → Inputs → Result String (Option BasicAuth)
unfolding basic_auth_requested
basic_auth_for r inputs = basic_auth_requested r >>= λ requested.
    if requested then credentials_of (lookup (name_of r) inputs.basic_auth) else ok none

unfoldable pub any_set : Annotations → List String → Bool
any_set m [] = false
any_set m (a ∷ rest) = let later = any_set m rest in if value_of m a == "" then later else true

-- MTLSRequested
unfoldable pub mtls_requested : HttpRoute → Bool
unfolding any_set
mtls_requested r = any_set r.annotations mtls_annotations

abbrev pub enabled_with : List String → Result String Mtls
enabled_with [] = err "mTLS asked for, but the resolved CA set is empty"
enabled_with (c ∷ cs) = ok (record { enabled = true; ca_certificates = c ∷ cs })

abbrev pub trusted_set : MtlsResult → Result String Mtls
trusted_set found =
    if not (found.reason == "")
    then err (concat ("mTLS CA is unavailable: " ∷ found.reason ∷ []))
    else enabled_with found.ca_certificates

-- mtlsFor
unfoldable pub mtls_for : HttpRoute → Inputs → Result String Mtls
unfolding mtls_requested
mtls_for r inputs =
    if not (mtls_requested r)
    then ok (record { enabled = false; ca_certificates = [] })
    else elim (lookup (name_of r) inputs.mtls) [
      | none ↦ err "mTLS asked for, but no CA was resolved"
      | some found ↦ trusted_set found
    ]
