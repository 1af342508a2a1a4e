-- ===== src/Emails/Whitelist.antt =====
-- internal/gateway/emailwhitelist.go: what a whitelist that is accepted holds.
use pangolin_gateway.Annotation
use pangolin_gateway.Prelude.{
  >>=-eq-ok, Bool-cases, List, String, [], contains, false, inl, inr, ok, subst, true, ◌∷◌, ◌≡◌,
  string_eq,
}
use pangolin_gateway.Annotations.{Annotations, value_of}
use pangolin_gateway.Emails.{inline_entries, email_whitelist_for, valid_email, fields_from}
use pangolin_gateway.Text.{has_prefix, to_lower}

-- An address that passes, that no wildcard starts, and that no earlier entry repeats.
abbrev pub Fresh : List String → List String → Type 0
Fresh seen [] = Unit
Fresh seen (e ∷ es) =
    (valid_email e ≡ true)
    × (has_prefix e "*" ≡ false)
    × (contains seen e ≡ false)
    × Fresh (e ∷ seen) es

inline_entries-Fresh :
    (seen fields : List String) {es : List String}
    → inline_entries seen fields ≡ ok es
    → Fresh seen es
unfolding inline_entries
inline_entries-Fresh seen [] {es} h = let e : [] ≡ es = cc in subst (Fresh seen) e tt
inline_entries-Fresh seen (field ∷ fields) {es} h =
    let entry = to_lower field in
    elim (Bool-cases (has_prefix entry "*")) [
      | inl wild ↦ (let q = rw (wild, inline_entries) at h in cc)
      | inr plain ↦ elim (Bool-cases (valid_email entry)) [
        | inr bad ↦ (let q = rw (plain, bad, inline_entries) at h in cc)
        | inl good ↦ elim (Bool-cases (contains seen entry)) [
          | inl old ↦ inline_entries-Fresh seen fields (rw (plain, good, old, inline_entries) at h)
          | inr new ↦
              let (rest, p, q) = >>=-eq-ok _ _ (rw (plain, good, new, inline_entries) at h) in
              let e : entry ∷ rest ≡ es = cc in
              subst (Fresh seen) e (good, plain, new, inline_entries-Fresh (entry ∷ seen) fields p)
        ]
      ]
    ]

-- The addresses of a route's whitelist all pass the test of an address, none starts with a wildcard,
-- and none is there twice.
pub email_whitelist_for-Fresh :
    (m : Annotations) {es : List String} → email_whitelist_for m ≡ ok es → Fresh [] es
unfolding email_whitelist_for
email_whitelist_for-Fresh m h =
    inline_entries-Fresh [] (fields_from "" (value_of m Annotation.email_whitelist)) h
