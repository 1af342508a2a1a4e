-- ===== src/Secrets/Keeping.antt =====
-- internal/controller/basicauth.go and mtls.go: what the resolution of the credentials and the CAs
-- keeps, if the calls of the cluster keep it.
use pangolin_gateway.Prelude.{
  Bool, List, Option, Result, String, [], err, false, none, ok, refl, some, true, ◌∷◌, ◌≡◌,
  string_eq,
}
use pangolin_gateway.Api.{NamespacedName, HttpRoute, name_eq}
use pangolin_gateway.Certificates.{Pem}
use pangolin_gateway.Effect.Keeping.{Keeps, pure-Keeps, >>=-Keeps, wrapped-Keeps, if-Keeps}
use pangolin_gateway.Inputs.{BasicAuthResult, MtlsResult, name_of}
use pangolin_gateway.Map.{Map, insert}
use pangolin_gateway.Protection.{basic_auth_requested, basic_auth_secret_name, mtls_requested}
use pangolin_gateway.Secrets.{
  Secret, SecretApi, ca_from_config_map, ca_from_secret, create_basic_auth_secret,
  credentials_found, generated_secret, resolve_basic_auth_from, resolve_ca, resolve_credentials,
  resolve_mtls_from,
}

-- The calls of the cluster keep it.
pub record SecretsKeep {W : Type 0} (Kept : W → Type 0) (api : SecretApi W) : Type 0 where
  pub gets_secret : (name : NamespacedName) → Keeps Kept (api.get_secret name)
  pub gets_config_map : (name : NamespacedName) → Keeps Kept (api.get_config_map name)
  pub creates_secret : (secret : Secret) → Keeps Kept (api.create_secret secret)
  pub draws_password : Keeps Kept api.random_password

module _ {W : Type 0} (Kept : W → Type 0) (api : SecretApi W) (calls : SecretsKeep Kept api) where
  create_basic_auth_secret-Keeps :
      (r : HttpRoute) (name : NamespacedName) → Keeps Kept (create_basic_auth_secret api r name)
  unfolding create_basic_auth_secret
  create_basic_auth_secret-Keeps r name =
      >>=-Keeps (wrapped-Keeps _ calls.draws_password) (λ password.
        >>=-Keeps (wrapped-Keeps _ (calls.creates_secret (generated_secret name r password)))
          (λ _. pure-Keeps _))

  credentials_found-Keeps :
      (dry : Bool) (r : HttpRoute) (name : NamespacedName) (found : Option Secret)
      → Keeps Kept (credentials_found api dry r name found)
  credentials_found-Keeps dry r name (some secret) = pure-Keeps _
  credentials_found-Keeps true r name none = pure-Keeps _
  credentials_found-Keeps false r name none = create_basic_auth_secret-Keeps r name

  resolve_credentials-Keeps :
      (dry : Bool) (r : HttpRoute) → Keeps Kept (resolve_credentials api dry r)
  unfolding resolve_credentials
  resolve_credentials-Keeps dry r = go (api.complaint (basic_auth_secret_name r.name)) refl
    where
      go :
          (c : Option String)
          → api.complaint (basic_auth_secret_name r.name) ≡ c
          → Keeps Kept (resolve_credentials api dry r)
      go (some message) q = rw (q, resolve_credentials) (pure-Keeps _)
      go none q =
          rw (q, resolve_credentials)
            (>>=-Keeps (wrapped-Keeps _ (calls.gets_secret _)) (credentials_found-Keeps dry r _))

  pub resolve_basic_auth_from-Keeps :
      (dry : Bool) (found : Map NamespacedName BasicAuthResult) (rs : List HttpRoute)
      → Keeps Kept (resolve_basic_auth_from api dry found rs)
  unfolding resolve_basic_auth_from
  resolve_basic_auth_from-Keeps dry found [] = pure-Keeps found
  resolve_basic_auth_from-Keeps dry found (r ∷ rs) =
      go (λ f. resolve_basic_auth_from-Keeps dry f rs) (basic_auth_requested r) refl
    where
      go :
          ((f : Map NamespacedName BasicAuthResult)
            → Keeps Kept (resolve_basic_auth_from api dry f rs))
          → (asked : Result String Bool) → basic_auth_requested r ≡ asked
          → Keeps Kept (resolve_basic_auth_from api dry found (r ∷ rs))
      go later (err e) q = rw (q, resolve_basic_auth_from) (later found)
      go later (ok false) q = rw (q, resolve_basic_auth_from) (later found)
      go later (ok true) q =
          rw (q, resolve_basic_auth_from)
            (>>=-Keeps (resolve_credentials-Keeps dry r)
              (λ result. later (insert (name_of r) result found)))

  module _ (pem : Pem) where
    ca_from_secret-Keeps : (name : NamespacedName) → Keeps Kept (ca_from_secret api pem name)
    unfolding ca_from_secret
    ca_from_secret-Keeps name =
        >>=-Keeps (wrapped-Keeps _ (calls.gets_secret name)) (λ found. pure-Keeps _)

    ca_from_config_map-Keeps :
        (name : NamespacedName) → Keeps Kept (ca_from_config_map api pem name)
    unfolding ca_from_config_map
    ca_from_config_map-Keeps name =
        >>=-Keeps (wrapped-Keeps _ (calls.gets_config_map name)) (λ found. pure-Keeps _)

    resolve_ca-Keeps : (r : HttpRoute) → Keeps Kept (resolve_ca api pem r)
    unfolding resolve_ca
    resolve_ca-Keeps r = if-Keeps _ (pure-Keeps _) (
        if-Keeps _ (ca_from_secret-Keeps _)
          (if-Keeps _ (ca_from_config_map-Keeps _) (pure-Keeps _)))

    pub resolve_mtls_from-Keeps :
        (found : Map NamespacedName MtlsResult) (rs : List HttpRoute)
        → Keeps Kept (resolve_mtls_from api pem found rs)
    unfolding resolve_mtls_from
    resolve_mtls_from-Keeps found [] = pure-Keeps found
    resolve_mtls_from-Keeps found (r ∷ rs) =
        if-Keeps (mtls_requested r)
          (>>=-Keeps (resolve_ca-Keeps r)
            (λ result. resolve_mtls_from-Keeps (insert (name_of r) result found) rs))
          (resolve_mtls_from-Keeps found rs)
