-- ===== src/Secrets.antt =====
-- internal/controller/basicauth.go and mtls.go: what the reconciler resolves before a render. The
-- cluster is a world `W` that a call may change.
pub mod Keeping
use Prim.Native.String
use pangolin_gateway.Annotation
use pangolin_gateway.Prelude.{
  Bool, List, Option, String, [], err, false, if◌then◌else◌, ltb, none, not, ok, some, true, ℕ,
  ◌&&◌, ◌+◌, ◌==◌, ◌||◌, ◌∷◌, string_eq, nat_eq,
}
use pangolin_gateway.Annotations.{value_of}
use pangolin_gateway.Api.{NamespacedName, HttpRoute, name_eq}
use pangolin_gateway.Certificates.{Pem, validated_ca, mtls_refused}
use pangolin_gateway.Effect.{Effect, pure, wrapped, ◌>>=◌}
use pangolin_gateway.Inputs.{BasicAuthResult, MtlsResult, name_of}
use pangolin_gateway.Map.{Map, insert}
use pangolin_gateway.Protection.{basic_auth_requested, basic_auth_secret_name, mtls_requested}
use pangolin_gateway.Text.{concat, quote}

pub record OwnerReference : Type 0 where
  pub kind : String
  pub uid : String

-- corev1.Secret, with the fields that the source reads.
pub record Secret : Type 0 where
  pub namespace : String
  pub name : String
  pub owners : List OwnerReference
  pub entries : Map String String

pub record ConfigMap : Type 0 where
  pub entries : Map String String

-- The calls of the cluster and of the libraries: `none` is a missing object. `complaint` is the
-- first message of validation.IsDNS1123Subdomain.
pub record SecretApi (W : Type 0) : Type 0 where
  pub get_secret : NamespacedName → Effect W (Option Secret)
  pub get_config_map : NamespacedName → Effect W (Option ConfigMap)
  pub create_secret : Secret → Effect W (Unit {0})
  pub random_password : Effect W String
  pub complaint : String → Option String

abbrev pub auth_refused : String → BasicAuthResult
auth_refused reason = record { credentials = none; reason = reason }

abbrev pub given : String → String → BasicAuthResult
given user password = record {
  credentials = some (record { user = user; password = password; extended_compatibility = false });
  reason = "";
}

-- ownedBy
unfoldable pub owned_by : List OwnerReference → String → Bool
owned_by [] uid = false
owned_by (o ∷ os) uid =
    let later = owned_by os uid in if o.uid == uid && o.kind == "HTTPRoute" then true else later

-- credentialsFrom
unfoldable pub credentials_from : Secret → HttpRoute → BasicAuthResult
unfolding owned_by
credentials_from secret r =
    let whole = concat ("Secret " ∷ secret.namespace ∷ "/" ∷ secret.name ∷ []) in
    let user = value_of secret.entries "username" in
    let password = value_of secret.entries "password" in
    if not (owned_by secret.owners r.uid)
    then auth_refused
        (String.◌++◌ whole " is not owned by this route; delete it or rename the route")
    else if user == "" || password == ""
    then auth_refused
        (String.◌++◌ whole " has no username and password; delete it to have one generated")
    else given user password

abbrev pub shown : NamespacedName → String
shown n = concat (n.namespace ∷ "/" ∷ n.name ∷ [])

abbrev pub generated_secret : NamespacedName → HttpRoute → String → Secret
generated_secret name r password = record {
  namespace = name.namespace;
  name = name.name;
  owners = record { kind = "HTTPRoute"; uid = r.uid } ∷ [];
  entries = ("username", r.name) ∷ ("password", password) ∷ [];
}

abbrev pub set_count : List String → ℕ
set_count [] = 0
set_count (v ∷ vs) = if v == "" then set_count vs else 1 + set_count vs

-- The first of the keys that holds a text.
unfoldable pub first_entry : Map String String → List String → Option String
first_entry m [] = none
first_entry m (k ∷ ks) =
    let later = first_entry m ks in if value_of m k == "" then later else some (value_of m k)

module _ {W : Type 0} (api : SecretApi W) where
  -- createBasicAuthSecret
  unfoldable pub create_basic_auth_secret : HttpRoute → NamespacedName → Effect W BasicAuthResult
  create_basic_auth_secret r name =
      wrapped (λ e. concat ("generating a password for " ∷ shown name ∷ ": " ∷ e ∷ []))
        api.random_password
      >>= λ password.
          wrapped (λ e. concat ("creating Secret " ∷ shown name ∷ ": " ∷ e ∷ []))
            (api.create_secret (generated_secret name r password))
          >>= λ _. pure (given r.name password)

  abbrev pub credentials_found :
      Bool → HttpRoute → NamespacedName → Option Secret → Effect W BasicAuthResult
  credentials_found dry_run r name (some secret) = pure (credentials_from secret r)
  credentials_found true r name none = pure (
      auth_refused
        (concat ("dry run: Secret " ∷ shown name ∷ " would be created to hold them" ∷ [])))
  credentials_found false r name none = create_basic_auth_secret r name

  -- basicAuthFor
  unfoldable pub resolve_credentials : Bool → HttpRoute → Effect W BasicAuthResult
  unfolding create_basic_auth_secret
  resolve_credentials dry_run r =
      let name : NamespacedName = record {
        namespace = r.namespace;
        name = basic_auth_secret_name r.name;
      } in
      elim (api.complaint name.name) [
        | some message ↦ pure (
            auth_refused (
              concat (
                "a Secret cannot be named "
                ∷ quote name.name
                ∷ " after this route: "
                ∷ message
                ∷ [])))
        | none ↦
            wrapped (λ e. concat ("reading Secret " ∷ shown name ∷ ": " ∷ e ∷ []))
              (api.get_secret name)
            >>= credentials_found dry_run r name
      ]

  -- resolveBasicAuth, behind the results so far.
  unfoldable pub resolve_basic_auth_from :
      Bool
      → Map NamespacedName BasicAuthResult
      → List HttpRoute
      → Effect W (Map NamespacedName BasicAuthResult)
  unfolding resolve_credentials
  resolve_basic_auth_from dry_run found [] = pure found
  resolve_basic_auth_from dry_run found (r ∷ rs) = elim (basic_auth_requested r) [
    | err e ↦ resolve_basic_auth_from dry_run found rs
    | ok false ↦ resolve_basic_auth_from dry_run found rs
    | ok true ↦ resolve_credentials dry_run r >>= λ result.
        resolve_basic_auth_from dry_run (insert (name_of r) result found) rs
  ]

  module _ (pem : Pem) where
    -- caFromSecret and caFromConfigMap: the object that holds the CA, and the keys it may be under.
    unfoldable pub ca_in : String → String → Map String String → List String → MtlsResult
    ca_in what either m keys = elim (first_entry m keys) [
      | some raw ↦ validated_ca pem raw
      | none ↦ mtls_refused (concat (what ∷ " has no " ∷ either ∷ " key" ∷ []))
    ]

    unfoldable pub ca_from_secret : NamespacedName → Effect W MtlsResult
    unfolding ca_in
    ca_from_secret name =
        let what = String.◌++◌ "Secret " (shown name) in
        wrapped (λ e. concat ("reading " ∷ what ∷ ": " ∷ e ∷ [])) (api.get_secret name) >>= λ found.
        pure (elim found [
          | none ↦ mtls_refused (String.◌++◌ what " not found")
          | some secret ↦ ca_in what "ca.crt or tls.crt" secret.entries ("ca.crt" ∷ "tls.crt" ∷ [])
        ])

    unfoldable pub ca_from_config_map : NamespacedName → Effect W MtlsResult
    unfolding ca_in
    ca_from_config_map name =
        let what = String.◌++◌ "ConfigMap " (shown name) in
        wrapped (λ e. concat ("reading " ∷ what ∷ ": " ∷ e ∷ [])) (api.get_config_map name)
        >>= λ found. pure (elim found [
          | none ↦ mtls_refused (String.◌++◌ what " not found")
          | some cm ↦ ca_in what "ca.crt or root_ca.crt" cm.entries ("ca.crt" ∷ "root_ca.crt" ∷ [])
        ])

    -- mtlsFor of the reconciler.
    unfoldable pub resolve_ca : HttpRoute → Effect W MtlsResult
    unfolding ca_from_secret ca_from_config_map
    resolve_ca r =
        let inline = value_of r.annotations Annotation.mtls_ca in
        let secret = value_of r.annotations Annotation.mtls_ca_secret in
        let config_map = value_of r.annotations Annotation.mtls_ca_config_map in
        if ltb 1 (set_count (inline ∷ secret ∷ config_map ∷ []))
        then pure (
            mtls_refused (
              concat (
                "set only one of " ∷ Annotation.mtls_ca ∷ ", " ∷ Annotation.mtls_ca_secret ∷ " or "
                ∷ Annotation.mtls_ca_config_map ∷ [])))
        else if not (secret == "")
        then ca_from_secret (record { namespace = r.namespace; name = secret })
        else if not (config_map == "")
        then ca_from_config_map (record { namespace = r.namespace; name = config_map })
        else pure (validated_ca pem inline)

    -- resolveMTLS, behind the results so far.
    unfoldable pub resolve_mtls_from :
        Map NamespacedName MtlsResult → List HttpRoute → Effect W (Map NamespacedName MtlsResult)
    unfolding resolve_ca
    resolve_mtls_from found [] = pure found
    resolve_mtls_from found (r ∷ rs) =
        if mtls_requested r
        then (resolve_ca r >>= λ result. resolve_mtls_from (insert (name_of r) result found) rs)
        else resolve_mtls_from found rs
