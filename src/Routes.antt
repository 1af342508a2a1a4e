-- ===== src/Routes.antt =====
-- internal/gateway/render.go: translate and the functions it calls, which turn one HTTPRoute into a
-- blueprint entry.
pub mod Entries
use Prim.Native.String
use pangolin_gateway.Annotation
use pangolin_gateway.Prelude.{
  Bool, List, Option, Result, String, [], err, false, if◌then◌else◌, length, none, not, ok, some, ℕ,
  ◌==◌, ◌∷◌, ◌>>=◌, string_eq, nat_eq,
}
use pangolin_gateway.Annotations.{value_of}
use pangolin_gateway.Api.{BackendRef, HttpRoute, RouteRule}
use pangolin_gateway.Inputs.{Inputs, member}
use pangolin_gateway.Map.{lookup}
use pangolin_gateway.Text.{concat, has_prefix, itoa, quote, trim_space}
use pangolin_gateway.Verdict.{ConditionResult, fail}

abbrev pub unsupported : {A : Type 0} → String → Result ConditionResult A
unsupported message = fail "UnsupportedValue" message

abbrev pub supported : {A : Type 0} → Result String A → Result ConditionResult A
supported (ok a) = ok a
supported (err e) = unsupported e

-- Key
unfoldable pub key_of : String → String → String
key_of namespace name = concat ("gw-" ∷ namespace ∷ "-" ∷ name ∷ [])

-- The one hostname of a route.
unfoldable pub hostname_of : List String → Result ConditionResult String
hostname_of [] = unsupported "a hostname is required; v0.1 publishes one hostname per route"
hostname_of (h ∷ []) =
    if has_prefix h "*"
    then unsupported
        (concat ("Pangolin has no wildcard resources; " ∷ quote h ∷ " cannot be published" ∷ []))
    else ok h
hostname_of (h ∷ i ∷ hs) =
    unsupported
      (concat ("v0.1 publishes one hostname per route, found " ∷ itoa (length (h ∷ i ∷ hs)) ∷ []))

-- The one backend of the one rule of a route.
unfoldable pub only_backend : List BackendRef → Result ConditionResult BackendRef
only_backend (b ∷ []) = ok b
only_backend bs =
    unsupported
      (concat ("v0.1 publishes exactly one backendRef per route, found " ∷ itoa (length bs) ∷ []))

abbrev pub backend_of_rule : RouteRule → Result ConditionResult BackendRef
backend_of_rule rule = elim (rule.filters) [
  | f ∷ fs ↦
      unsupported
        (concat ("v0.1 cannot represent route filters; found " ∷ itoa (length (f ∷ fs)) ∷ []))
  | [] ↦ only_backend rule.backend_refs
]

unfoldable pub backend_of : List RouteRule → Result ConditionResult BackendRef
unfolding only_backend
backend_of (rule ∷ []) = backend_of_rule rule
backend_of rules =
    unsupported
      (concat ("v0.1 publishes exactly one rule per route, found " ∷ itoa (length rules) ∷ []))

abbrev pub differs_from : String → Option String → Bool
differs_from expected none = false
differs_from expected (some given) = not (given == expected)

abbrev pub text_of : Option String → String
text_of none = ""
text_of (some t) = t

-- The port of a backend that is a Service of the route's own namespace.
unfoldable pub backend_port : String → BackendRef → Result ConditionResult ℕ
backend_port namespace b =
    if differs_from "Service" b.kind
    then fail "InvalidKind" (
        concat
          ("backendRef kind " ∷ quote (text_of b.kind) ∷ " is not supported; only Service is" ∷ []))
    else if differs_from "" b.group
    then fail "InvalidKind" (
        concat (
          "backendRef group "
          ∷ quote (text_of b.group)
          ∷ " is not supported; only the core group is"
          ∷ []))
    else if differs_from namespace b.namespace
    then fail "RefNotPermitted" (
        concat (
          "cross-namespace backendRef to "
          ∷ quote (text_of b.namespace)
          ∷ " needs a ReferenceGrant, which v0.1 does not resolve"
          ∷ []))
    else elim (b.port) [ none ↦ unsupported "backendRef has no port" | some port ↦ ok port ]

-- The name in the dashboard.
unfoldable pub display_name_of : HttpRoute → Result ConditionResult String
display_name_of r =
    let name = concat (r.namespace ∷ "/" ∷ r.name ∷ []) in
    elim (lookup Annotation.display_name r.annotations) [
      | none ↦ ok name
      | some v ↦
          if trim_space v == ""
          then unsupported (
              concat (
                "annotation "
                ∷ Annotation.display_name
                ∷ " is empty; remove it to fall back to "
                ∷ quote name
                ∷ []))
          else ok (trim_space v)
    ]

-- The site of the target: the annotation or the default, which Pangolin must know.
unfoldable pub site_for : HttpRoute → Inputs → Result ConditionResult String
site_for r inputs =
    let given = value_of r.annotations Annotation.site in
    let site = if given == "" then inputs.default_site else given in
    elim (inputs.known_sites) [
      | none ↦ ok site
      | some known ↦
          if member site known
          then ok site
          else fail "UnknownSite"
              (concat ("site " ∷ quote site ∷ " does not exist in this Pangolin organisation" ∷ []))
    ]

-- Where a route leads to: the values that translate hands on.
pub record Destination : Type 0 where
  pub name : String
  pub host : String
  pub site : String
  pub backend_host : String
  pub backend_port : ℕ

-- The checks of translate up to the backend, in the source's order.
unfoldable pub destination_of : HttpRoute → Inputs → Result ConditionResult Destination
unfolding hostname_of backend_of backend_port display_name_of site_for
destination_of r inputs = do
  host ← hostname_of r.hostnames
  backend ← backend_of r.rules
  port ← backend_port r.namespace backend
  name ← display_name_of r
  site ← site_for r inputs
  ok (record {
    name = name;
    host = host;
    site = site;
    backend_host = concat (backend.name ∷ "." ∷ r.namespace ∷ ".svc.cluster.local" ∷ []);
    backend_port = port;
  })
