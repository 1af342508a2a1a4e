-- ===== src/Certificates/Decoding.antt =====
-- internal/controller/mtls.go: the CA set that validatedCA accepts, and the end of its loop.
use Prim.Native.String.{len}
use pangolin_gateway.Prelude.{
  ==_sound, >>=-eq-ok, All, All-append, Bool-cases, List, Option-cases, String, false, inl, inr,
  none, ok, ok-injective, refl, subst, suc, zero, ℕ, ◌==◌, ◌≡◌, Result, [], arith, err, length, ltb,
  some, sym, ◌<◌, ◌≤◌, ◌⊎◌, string_eq, nat_eq,
}
use pangolin_gateway.Certificates.{Pem, Block, certificates_from, take_block, trusted, validated_ca}
use pangolin_gateway.Text.{contains_str}

module _ (pem : Pem) where
  -- The encoding of a certificate that parses and is no key.
  abbrev pub IsCertificate : String → Type 0
  IsCertificate text =
      (block : Block) × (text ≡ pem.encode block)
      × (block.type ≡ "CERTIFICATE")
      × (contains_str block.type "PRIVATE KEY" ≡ false)
      × (pem.complaint block.bytes ≡ none)

  take_block-IsCertificate :
      (block : Block) (certs : List String) {out : List String}
      → take_block pem block certs ≡ ok out
      → All IsCertificate certs
      → All IsCertificate out
  unfolding take_block
  take_block-IsCertificate block certs {out} h good =
      elim (Bool-cases (contains_str block.type "PRIVATE KEY")) [
        | inl key ↦ absurd (let q = rw (key, take_block) at h in cc)
        | inr no_key ↦ elim (Bool-cases (block.type == "CERTIFICATE")) [
          | inr other ↦
              subst (All IsCertificate) (ok-injective (rw (no_key, other, take_block) at h)) good
          | inl cert ↦ elim (Option-cases (pem.complaint block.bytes)) [
            | inr (complaint, p) ↦ absurd (let q = rw (no_key, cert, p, take_block) at h in cc)
            | inl fine ↦
                subst (All IsCertificate) (ok-injective (rw (no_key, cert, fine, take_block) at h))
                  (All-append IsCertificate certs _ good
                    ((block, refl, ==_sound block.type "CERTIFICATE" cert, no_key, fine), tt))
          ]
        ]
      ]

  -- Every certificate that the loop hands on is one.
  certificates_from-IsCertificate :
      (fuel : ℕ) (raw : String) (certs : List String) {out : List String}
      → certificates_from pem fuel raw certs ≡ ok out
      → All IsCertificate certs
      → All IsCertificate out
  unfolding certificates_from
  certificates_from-IsCertificate zero raw certs h good = absurd (cc)
  certificates_from-IsCertificate (suc fuel) raw certs h good =
      elim (Option-cases (pem.decode raw)) [
        | inl done ↦
            subst (All IsCertificate) (ok-injective (rw (done, certificates_from) at h)) good
        | inr ((block, rest), p) ↦
            let (next, q, h₁) =
              >>=-eq-ok (take_block pem block certs) _ (rw (p, certificates_from) at h) in
            certificates_from-IsCertificate fuel rest next h₁
              (take_block-IsCertificate block certs q good)
      ]

  trusted-cases :
      (certs : List String)
      → ((trusted certs).ca_certificates ≡ [])
        ⊎ (((trusted certs).ca_certificates ≡ certs) × (1 ≤ length certs) × (length certs ≤ 20))
  unfolding trusted
  trusted-cases certs = elim (Bool-cases (length certs == 0)) [
    | inl none_found ↦ rw none_found (inl refl)
    | inr found ↦ elim (Bool-cases (ltb 20 (length certs))) [
      | inl long ↦ rw (found, long) (inl refl)
      | inr short ↦
          let low : 1 ≤ length certs = ground arith in
          let high : length certs ≤ 20 = ground arith in rw (found, short) (inr (refl, low, high))
    ]
  ]

  -- A CA value is refused, or gives between 1 and 20 certificates, each the encoding of a PEM block
  -- that is a certificate, that x509 parses and that holds no private key.
  pub validated_ca-IsCertificate :
      (raw : String)
      → ((validated_ca pem raw).ca_certificates ≡ [])
        ⊎ ((1 ≤ length (validated_ca pem raw).ca_certificates)
            × (length (validated_ca pem raw).ca_certificates ≤ 20)
            × All IsCertificate (validated_ca pem raw).ca_certificates)
  unfolding validated_ca
  validated_ca-IsCertificate raw = go (certificates_from pem (suc (len raw)) raw []) refl
    where
      go :
          (m : Result String (List String))
          → certificates_from pem (suc (len raw)) raw [] ≡ m
          → ((validated_ca pem raw).ca_certificates ≡ [])
            ⊎ ((1 ≤ length (validated_ca pem raw).ca_certificates)
                × (length (validated_ca pem raw).ca_certificates ≤ 20)
                × All IsCertificate (validated_ca pem raw).ca_certificates)
      go (err reason) e = rw (e, validated_ca) (inl refl)
      go (ok certs) e = elim (trusted-cases certs) [
        | inl no_ca ↦ rw (e, validated_ca) (inl no_ca)
        | inr (same, low, high) ↦
            rw (e, validated_ca)
              (inr (
                subst (λ x. (1 ≤ length x) × (length x ≤ 20) × All IsCertificate x) (sym same)
                  (low, high, certificates_from-IsCertificate (suc (len raw)) raw [] e tt)))
      ]

  -- pem.Decode leaves less than it was given.
  abbrev pub Consumes : Type 0
  Consumes =
      (raw rest : String) (block : Block) → pem.decode raw ≡ some (block, rest) → len rest < len raw
