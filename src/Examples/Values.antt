-- ===== src/Examples/Values.antt =====
-- Tests and instances for the readers of annotations and for the validators.
use Prim.Native.String.len
use pangolin_gateway.Annotation
use Prim.Native.String.{len}
use pangolin_gateway.Prelude.{
  All, Option, String, [], contains, length, none, ok, refl, some, true, ℕ, ◌∷◌, ◌≡◌, ◌⊎◌, ◌≤◌,
  string_eq, nat_eq,
}
use pangolin_gateway.Annotations.{Annotations, value_of}
use pangolin_gateway.Blueprint.{Healthcheck, Target}
use pangolin_gateway.Certificates.{Pem, Block, validated_ca}
use pangolin_gateway.Certificates.Decoding.{IsCertificate, validated_ca-IsCertificate}
use pangolin_gateway.Emails.{email_whitelist_for, valid_email}
use pangolin_gateway.Emails.Whitelist.{Fresh, email_whitelist_for-Fresh}
use pangolin_gateway.Map.{lookup}
use pangolin_gateway.Patterns.{email_pattern}
use pangolin_gateway.Pincode.{pincode_for}
use pangolin_gateway.Pincode.Digits.{IsPin, pincode_for-IsPin}
use pangolin_gateway.Regex.{matches}
use pangolin_gateway.Text.{atoi, has_prefix, to_lower, trim_space, contains_str}

abbrev pin : Annotations
pin = (Annotation.pincode, "204060") ∷ []

abbrev pin_read : Option ℕ
pin_read = some 204060

kept : pincode_for pin ≡ ok (some 204060)
unfolding pincode_for lookup value_of trim_space atoi
kept = refl

pincode_for-IsPin_example :
    ((trim_space (value_of pin Annotation.pincode) ≡ "") × (pin_read ≡ none))
    ⊎ ((n : ℕ) × (pin_read ≡ some n) × IsPin n)
pincode_for-IsPin_example = pincode_for-IsPin pin kept

abbrev listed : Annotations
listed = (Annotation.email_whitelist, "Ann@example.com, bob@example.com ann@example.com") ∷ []

addresses : email_whitelist_for listed ≡ ok ("ann@example.com" ∷ "bob@example.com" ∷ [])
unfolding email_whitelist_for lookup value_of to_lower has_prefix valid_email contains contains_str
    matches email_pattern
addresses = refl

email_whitelist_for-Fresh_example : Fresh [] ("ann@example.com" ∷ "bob@example.com" ∷ [])
email_whitelist_for-Fresh_example = email_whitelist_for-Fresh listed addresses

abbrev checked_target : Target
checked_target = record {
  site = "home";
  method = "http";
  hostname = "web";
  port = 80;
  healthcheck = none;
}

abbrev checked : Annotations
checked = (Annotation.healthcheck_path, "/live") ∷ (Annotation.healthcheck_interval, "10") ∷ []

abbrev check : Healthcheck
check = record {
  hostname = "web";
  port = 80;
  interval = 10;
  timeout = 5;
  mode = "http";
  path = "/live";
  method = "GET";
  status = 0;
  follow_redirects = true;
}

-- A decoder that takes one character for a certificate.
abbrev one_by_one : String → Option (Block × String)
one_by_one String.[] = none
one_by_one (String.◌∷◌ c s) = some (record { type = "CERTIFICATE"; bytes = "der" }, s)

abbrev pem : Pem
pem = record { decode = one_by_one; encode = λ block. block.bytes; complaint = λ bytes. none }

validated_ca-IsCertificate_example :
    ((validated_ca pem "ab").ca_certificates ≡ [])
    ⊎ ((1 ≤ length (validated_ca pem "ab").ca_certificates)
        × (length (validated_ca pem "ab").ca_certificates ≤ 20)
        × All (IsCertificate pem) (validated_ca pem "ab").ca_certificates)
validated_ca-IsCertificate_example = validated_ca-IsCertificate pem "ab"

two_certificates : (validated_ca pem "ab").ca_certificates ≡ "der" ∷ "der" ∷ []
unfolding validated_ca contains_str has_prefix
two_certificates = refl
