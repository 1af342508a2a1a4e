-- ===== src/Certificates.antt =====
-- internal/controller/mtls.go: the trusted CAs of a route: validatedCA, coversFingerprints and
-- normalizeFingerprint. `Pem` stands for encoding/pem and crypto/x509.
pub mod Decoding
use Prim.Native.String
use Prim.Native.String.{[], len, ◌∷◌}
use pangolin_gateway.Prelude.{
  [], ◌∷◌, Bool, Char, List, Option, Result, String, code, contains, err, false, if◌then◌else◌,
  length, ltb, nat_beq, none, not, ok, some, suc, true, zero, ℕ, ◌++◌, ◌==◌, ◌>>=◌, ◌||◌, string_eq,
  nat_eq,
}
use pangolin_gateway.Inputs.{MtlsResult}
use pangolin_gateway.Text.{concat, contains_str, itoa, to_lower}

pub record Block : Type 0 where
  pub type : String
  pub bytes : String

-- pem.Decode, pem.EncodeToMemory, and the complaint of x509.ParseCertificate.
pub record Pem : Type 0 where
  pub decode : String → Option (Block × String)
  pub encode : Block → String
  pub complaint : String → Option String

abbrev pub mtls_refused : String → MtlsResult
mtls_refused reason = record { ca_certificates = List.[]; reason = reason }

abbrev pub max_mtls_certificates : ℕ
max_mtls_certificates = 20

-- What validatedCA makes of the certificates it found.
unfoldable pub trusted : List String → MtlsResult
trusted certs =
    if length certs == 0
    then mtls_refused "the CA value has no PEM certificate"
    else if ltb max_mtls_certificates (length certs)
    then mtls_refused (
        concat (
          List.◌∷◌ "the CA value has " (
            List.◌∷◌ (itoa (length certs))
              (List.◌∷◌ " certificates, more than the 20 Pangolin allows" List.[]))))
    else record { ca_certificates = certs; reason = "" }

module _ (pem : Pem) where
  -- What one block does to the certificates so far: a refusal ends the loop.
  unfoldable pub take_block : Block → List String → Result String (List String)
  take_block block certs =
      if contains_str block.type "PRIVATE KEY"
      then err "the CA value contains a private key; provide the public certificate only"
      else if not (block.type == "CERTIFICATE")
      then ok certs
      else elim (pem.complaint block.bytes) [
        | some complaint ↦
            err (String.◌++◌ "the CA value has an unparseable certificate: " complaint)
        | none ↦ ok (certs ++ (List.◌∷◌ (pem.encode block) List.[]))
      ]

  abbrev after_block :
      (String → List String → Result String (List String))
      → Option (Block × String)
      → List String
      → Result String (List String)
  after_block next none certs = ok certs
  after_block next (some (block, rest)) certs = take_block block certs >>= next rest

  -- The loop of validatedCA. It is given fuel, which a decoder that reads something each time does
  -- not use up.
  unfoldable pub certificates_from : ℕ → String → List String → Result String (List String)
  unfolding take_block
  certificates_from zero raw certs = err "out of fuel"
  certificates_from (suc fuel) raw certs =
      after_block (certificates_from fuel) (pem.decode raw) certs

  -- validatedCA
  unfoldable pub validated_ca : String → MtlsResult
  unfolding certificates_from trusted
  validated_ca raw = elim (certificates_from (suc (len raw)) raw List.[]) [
    | err reason ↦ mtls_refused reason
    | ok certs ↦ trusted certs
  ]

abbrev is_separator : Char → Bool
is_separator c =
    nat_beq (code c) b':' || nat_beq (code c) b' ' || nat_beq (code c) 9 || nat_beq (code c) 10

-- normalizeFingerprint
unfoldable pub without_separators : String → String
without_separators [] = ""
without_separators (c ∷ s) =
    let rest = without_separators s in if is_separator c then rest else (c ∷ rest)

unfoldable pub normalize_fingerprint : String → String
unfolding without_separators
normalize_fingerprint s = to_lower (without_separators s)

unfoldable pub normalized : List String → List String
unfolding normalize_fingerprint
normalized List.[] = List.[]
normalized (List.◌∷◌ f fs) = List.◌∷◌ (normalize_fingerprint f) (normalized fs)

unfoldable pub all_in : List String → List String → Bool
all_in have List.[] = true
all_in have (List.◌∷◌ f fs) = let later = all_in have fs in if contains have f then later else false

-- coversFingerprints: `got` holds the fingerprints of the listed certificates.
unfoldable pub covers_fingerprints : List String → List String → Bool
unfolding normalized all_in
covers_fingerprints got want = all_in (normalized got) want
