-- ===== src/Publisher/Verify.antt =====
-- internal/controller/mtls.go: verifyMTLS, which confirms after an apply that the trusted CAs of each
-- published route took effect. `fingerprint_of` is fingerprintOf, the SHA-256 of a certificate.
use pangolin_gateway.Prelude.{
  Bool, List, Option, Result, String, [], err, false, if◌then◌else◌, none, ok, some, ℕ, ◌==◌, ◌∷◌,
  string_eq,
}
use pangolin_gateway.Api.{NamespacedName, name_eq}
use pangolin_gateway.Blueprint.{Resource}
use pangolin_gateway.Certificates.{covers_fingerprints}
use pangolin_gateway.Effect.{Effect, pure, attempt, ◌>>=◌}
use pangolin_gateway.Inputs.{MtlsResult}
use pangolin_gateway.Map.{Map, insert, lookup}
use pangolin_gateway.Publisher.{PangolinApi}
use pangolin_gateway.Verdict.{Verdict, published, rejected}

-- markMtlsNotApplied
unfoldable pub mark_mtls_not_applied :
    Map NamespacedName Verdict → NamespacedName → String → Map NamespacedName Verdict
mark_mtls_not_applied verdicts name message = elim (lookup name verdicts) [
  | none ↦ verdicts
  | some v ↦
      if published v.key
      then insert name (record v { accepted = rejected "MtlsNotApplied" message }) verdicts
      else verdicts
]

abbrev pub not_listed : String
not_listed = "could not confirm the mTLS CA was applied: the resource was not found in the listing"

abbrev pub not_effective : String
not_effective =
    "the mTLS CA set did not take effect: the Pangolin build may not be Enterprise/SaaS, or the API key may lack the listResourceMtlsCertificates action"

-- publicResourceIDs, from a listing: a later row of the same niceId takes the place of an earlier.
unfoldable pub resource_ids : Map String ℕ → List Resource → Map String ℕ
resource_ids found [] = found
resource_ids found (r ∷ rs) = resource_ids (insert r.nice_id r.resource_id found) rs

module _ (fingerprint_of : String → String) where
  -- The set of fingerprints of a CA set.
  unfoldable pub fingerprints : List String → List String
  fingerprints [] = []
  fingerprints (c ∷ cs) =
      let rest = fingerprints cs in if fingerprint_of c == "" then rest else fingerprint_of c ∷ rest

  abbrev pub ca_set_of : Option MtlsResult → List String
  ca_set_of none = []
  ca_set_of (some found) = found.ca_certificates

  -- The first loop: the published routes with a CA set, with the key and the fingerprints they want.
  unfoldable pub wanted_sets :
      Map NamespacedName MtlsResult
      → Map NamespacedName Verdict
      → List (NamespacedName × String × List String)
  unfolding fingerprints
  wanted_sets mtls [] = []
  wanted_sets mtls ((name, v) ∷ vs) =
      let rest = wanted_sets mtls vs in
      if published v.key
      then elim (ca_set_of (lookup name mtls)) [
        | [] ↦ rest
        | c ∷ cs ↦ (name, v.key, fingerprints (c ∷ cs)) ∷ rest
      ]
      else rest

abbrev pub confirmed : Result String (List String) → List String → Bool
confirmed (ok got) want = covers_fingerprints got want
confirmed (err e) want = false

module _ {W : Type 0} (pangolin : PangolinApi W) where
  -- One round of the last loop, for a resource that was found.
  unfoldable pub verify_resource :
      ℕ
      → NamespacedName
      → List String
      → Map NamespacedName Verdict
      → Effect W (Map NamespacedName Verdict)
  unfolding mark_mtls_not_applied
  verify_resource id name want verdicts = attempt (pangolin.list_certificates id) >>= λ got.
      pure
        (if confirmed got want then verdicts else mark_mtls_not_applied verdicts name not_effective)

  -- The last loop. The source's map of wanted sets has no order; the routes are taken in the order
  -- of the verdicts, and each round touches its own route alone.
  unfoldable pub verify_sets :
      Result String (List Resource)
      → List (NamespacedName × String × List String)
      → Map NamespacedName Verdict
      → Effect W (Map NamespacedName Verdict)
  unfolding verify_resource resource_ids
  verify_sets listed [] verdicts = pure verdicts
  verify_sets (err e) ((name, key, want) ∷ sets) verdicts =
      verify_sets (err e) sets (mark_mtls_not_applied verdicts name not_listed)
  verify_sets (ok rows) ((name, key, want) ∷ sets) verdicts =
      elim (lookup key (resource_ids [] rows)) [
        | none ↦ verify_sets (ok rows) sets (mark_mtls_not_applied verdicts name not_listed)
        | some id ↦ verify_resource id name want verdicts >>= verify_sets (ok rows) sets
      ]

  -- verifyMTLS
  unfoldable pub verify_mtls :
      (String → String)
      → Map NamespacedName MtlsResult
      → Map NamespacedName Verdict
      → Effect W (Map NamespacedName Verdict)
  unfolding verify_sets wanted_sets
  verify_mtls fingerprint_of mtls verdicts = elim (wanted_sets fingerprint_of mtls verdicts) [
    | [] ↦ pure verdicts
    | set ∷ sets ↦ attempt (pangolin.public_section.list) >>= λ listed.
        verify_sets listed (set ∷ sets) verdicts
  ]
