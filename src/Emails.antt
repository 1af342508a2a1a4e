-- ===== src/Emails.antt =====
-- internal/gateway/emailwhitelist.go: the whitelists of a route and of a policy.
pub mod Whitelist
use Prim.Native.String
use pangolin_gateway.Annotation
use Prim.Native.String.{[], ◌∷◌}
use pangolin_gateway.Prelude.{
  [], ◌∷◌, Bool, Char, List, Result, String, code, contains, err, if◌then◌else◌, nat_beq, not, ok,
  ◌&&◌, ◌++◌, ◌>>=◌, ◌||◌, string_eq, nat_eq,
}
use pangolin_gateway.Annotations.{Annotations, value_of}
use pangolin_gateway.Patterns.{email_pattern, wildcard_pattern}
use pangolin_gateway.Regex.{matches}
use pangolin_gateway.Text.{concat, contains_str, has_prefix, is_space, quote, to_lower, trim_space}

-- validEmail
unfoldable pub valid_email : String → Bool
valid_email s = not (has_prefix s ".") && not (contains_str s "..") && matches email_pattern s

abbrev separates : Char → Bool
unfolding is_space
separates c = nat_beq (code c) b',' || is_space c

abbrev begin_field : String → List String → List String
begin_field [] fields = fields
begin_field (c ∷ s) fields = (c ∷ s) ∷ fields

-- strings.FieldsFunc with the commas and spaces: the fields of the rest, behind the field `cur` that
-- is being read.
unfoldable pub fields_from : String → String → List String
unfolding is_space
fields_from cur [] = begin_field cur []
fields_from cur (c ∷ s) =
    let closed = begin_field cur (fields_from "" s) in
    let longer = fields_from (String.◌++◌ cur (c ∷ [])) s in if separates c then closed else longer

-- The loop of emailWhitelistFor over the fields. `seen` holds the entries kept so far.
unfoldable pub inline_entries : List String → List String → Result String (List String)
inline_entries seen [] = ok []
inline_entries seen (field ∷ fields) =
    let entry = to_lower field in
    let again = inline_entries seen fields in
    let kept = inline_entries (entry ∷ seen) fields >>= λ rest. ok (entry ∷ rest) in
    if has_prefix entry "*"
    then err (
        concat (
          "annotation "
          ∷ Annotation.email_whitelist
          ∷ " cannot hold the wildcard "
          ∷ quote field
          ∷ "; a domain wildcard needs a ResourcePolicy and --pangolin-licensed"
          ∷ []))
    else if not (valid_email entry)
    then err (
        concat (
          "annotation "
          ∷ Annotation.email_whitelist
          ∷ " entry "
          ∷ quote field
          ∷ " is not an e-mail address"
          ∷ []))
    else if contains seen entry
    then again
    else kept

-- emailWhitelistFor
unfoldable pub email_whitelist_for : Annotations → Result String (List String)
unfolding inline_entries fields_from
email_whitelist_for m = inline_entries [] (fields_from "" (value_of m Annotation.email_whitelist))

-- policyWhitelist, from the entries `seen` so far.
unfoldable pub policy_entries : List String → List String → Result String (List String)
policy_entries seen [] = ok []
policy_entries seen (e ∷ es) =
    let entry = to_lower (trim_space e) in
    let again = policy_entries seen es in
    let kept = policy_entries (entry ∷ seen) es >>= λ rest. ok (entry ∷ rest) in
    if not (valid_email entry) && not (matches wildcard_pattern entry)
    then err (
        concat (
          "emailWhitelist entry "
          ∷ quote e
          ∷ " is neither an e-mail address nor a *@domain wildcard"
          ∷ []))
    else if contains seen entry
    then again
    else kept

unfoldable pub policy_whitelist : List String → Result String (List String)
unfolding policy_entries
policy_whitelist entries = policy_entries [] entries
