-- ===== src/Protection/Closed.antt =====
-- internal/gateway/basicauth.go and mtls.go: a protection that is asked for is there, or the route
-- is refused.
use pangolin_gateway.Prelude.{
  Bool-cases, List, Option, Option-cases, String, [], inl, inr, none, ok, refl, some, true, ◌==◌,
  ◌≡◌, ◌∷◌, ◌≢◌, ap, sym, ◌∙◌, string_eq,
}
use pangolin_gateway.Api.{HttpRoute, name_eq}
use pangolin_gateway.Blueprint.{BasicAuth, Mtls}
use pangolin_gateway.Inputs.{Inputs, BasicAuthResult, MtlsResult, name_of}
use pangolin_gateway.Map.{lookup}
use pangolin_gateway.Protection.{
  enabled_with, basic_auth_for, basic_auth_requested, credentials_of, trusted_set, mtls_for,
  mtls_requested,
}

credentials_of-given :
    (found : Option BasicAuthResult) {a : Option BasicAuth}
    → credentials_of found ≡ ok a
    → (b : BasicAuthResult) × (c : BasicAuth) × (found ≡ some b)
      × (b.credentials ≡ some c)
      × (a ≡ some (record c { extended_compatibility = true }))
credentials_of-given none h = cc
credentials_of-given (some b) h = elim (Option-cases b.credentials) [
  | inl p ↦ (let q = rw p at h in cc)
  | inr (c, p) ↦ (let q = rw p at h in (b, c, refl, p, cc))
]

-- Basic auth that is asked for is the pair that the reconciler resolved for this route.
pub basic_auth_for-given :
    (r : HttpRoute) (inputs : Inputs) {a : Option BasicAuth}
    → basic_auth_requested r ≡ ok true
    → basic_auth_for r inputs ≡ ok a
    → (b : BasicAuthResult) × (c : BasicAuth) × (lookup (name_of r) inputs.basic_auth ≡ some b)
      × (b.credentials ≡ some c)
      × (a ≡ some (record c { extended_compatibility = true }))
unfolding basic_auth_for
basic_auth_for-given r inputs asked h =
    credentials_of-given (lookup (name_of r) inputs.basic_auth) (rw (basic_auth_for, asked) at h)

enabled_with-given :
    (cs : List String) {m : Mtls}
    → enabled_with cs ≡ ok m
    → (m.enabled ≡ true) × (m.ca_certificates ≢ []) × (m.ca_certificates ≡ cs)
enabled_with-given [] h = cc
enabled_with-given (c ∷ cs) {m} h =
    let e : record { enabled = true; ca_certificates = c ∷ cs } ≡ m = cc in
    (
      ap (λ (x : Mtls). x.enabled) (sym e),
      λ q. (let f = ap (λ (x : Mtls). x.ca_certificates) e ∙ q in cc),
      ap (λ (x : Mtls). x.ca_certificates) (sym e),
    )

trusted_set-given :
    (found : MtlsResult) {m : Mtls}
    → trusted_set found ≡ ok m
    → (m.enabled ≡ true) × (m.ca_certificates ≢ []) × (m.ca_certificates ≡ found.ca_certificates)
trusted_set-given found h = elim (Bool-cases (found.reason == "")) [
  | inl p ↦ enabled_with-given found.ca_certificates (rw p at h)
  | inr p ↦ (let q = rw p at h in cc)
]

-- Client certificates that are asked for are checked against the CA set that the reconciler resolved
-- for this route, which is not empty.
pub mtls_for-given :
    (r : HttpRoute) (inputs : Inputs) {m : Mtls}
    → mtls_requested r ≡ true
    → mtls_for r inputs ≡ ok m
    → (found : MtlsResult) × (lookup (name_of r) inputs.mtls ≡ some found)
      × (m.enabled ≡ true)
      × (m.ca_certificates ≢ [])
      × (m.ca_certificates ≡ found.ca_certificates)
unfolding mtls_for
mtls_for-given r inputs asked h = elim (Option-cases (lookup (name_of r) inputs.mtls)) [
  | inl p ↦ (let q = rw (mtls_for, asked, p) at h in cc)
  | inr (found, p) ↦
      let (on, some_ca, same) = trusted_set-given found (rw (mtls_for, asked, p) at h) in
      (found, p, on, some_ca, same)
]
