-- ===== src/Policies/Translate.antt =====
-- internal/gateway/policy.go: translatePolicy, which validates one ResourcePolicy, and
-- renderPolicies.
use pangolin_gateway.Prelude.{
  Bool, List, Option, Result, String, [], contains, err, false, if◌then◌else◌, none, not, ok, some,
  true, ◌&&◌, ◌==◌, ◌>>=◌, ◌||◌, ◌∷◌, string_eq,
}
use pangolin_gateway.Api.{PolicyRule, ResourcePolicy}
use pangolin_gateway.Blueprint.{PublicPolicy, Rule}
use pangolin_gateway.Emails.{policy_whitelist}
use pangolin_gateway.Inputs.{Inputs}
use pangolin_gateway.Order.{stable_sort}
use pangolin_gateway.Patterns.{pincode_pattern}
use pangolin_gateway.Policies.{Policies, no_policies, policy_age, render_policies_from}
use pangolin_gateway.PrivateGrants.{has_blank}
use pangolin_gateway.Regex.{matches}
use pangolin_gateway.Rules.{RuleSpec, valid_rules}
use pangolin_gateway.Text.{concat, itoa, quote, trim_space}
use pangolin_gateway.Verdict.{ConditionResult, fail}

abbrev pub policy_invalid : {A : Type 0} → String → Result ConditionResult A
policy_invalid message = fail "InvalidSpec" message

-- The name in the dashboard: `err` is the message on a blank one.
unfoldable pub shown_name : String → String → String → Result String String
shown_name namespace name display_name =
    let whole = concat (namespace ∷ "/" ∷ name ∷ []) in
    if display_name == ""
    then ok whole
    else if trim_space display_name == ""
    then err (concat ("displayName is blank; remove it to fall back to " ∷ quote whole ∷ []))
    else ok (trim_space display_name)

abbrev pub explained : {A : Type 0} → Result String A → Result ConditionResult A
explained (ok a) = ok a
explained (err e) = policy_invalid e

abbrev pub spec_of : PolicyRule → RuleSpec
spec_of r = record { action = r.action; match = r.match; value = r.value }

unfoldable pub specs_of : List PolicyRule → List RuleSpec
specs_of [] = []
specs_of (r ∷ rs) = spec_of r ∷ specs_of rs

-- `spec.SSO == nil || *spec.SSO`
abbrev pub sso_of : Option Bool → Bool
sso_of none = true
sso_of (some b) = b

abbrev pub some_entries : {A : Type 0} → List A → Bool
some_entries [] = false
some_entries (x ∷ xs) = true

-- The checks of roles, users and the PIN, in the source's order.
unfoldable pub check_access : ResourcePolicy → Result ConditionResult (Unit {0})
check_access rp =
    if not (sso_of rp.sso) && (some_entries rp.roles || some_entries rp.users)
    then policy_invalid "roles and users have no meaning with sso: false"
    else if has_blank rp.roles
    then policy_invalid "roles has an empty entry"
    else if has_blank rp.users
    then policy_invalid "users has an empty entry"
    else if contains rp.roles "Admin"
    then policy_invalid "roles must not name Admin; the admin role reaches every policy anyway"
    else if not (rp.pincode == "") && not (matches pincode_pattern rp.pincode)
    then policy_invalid "pincode must be exactly six digits"
    else ok tt

abbrev pub built_policy : ResourcePolicy → String → List String → List Rule → PublicPolicy
built_policy rp name whitelist rules = record {
  name = name;
  sso = sso_of rp.sso;
  sso_roles = rp.roles;
  sso_users = rp.users;
  pincode = rp.pincode;
  email_whitelist_enabled = some_entries whitelist;
  whitelist_users = whitelist;
  apply_rules = some_entries rules;
  rules = rules;
}

-- translatePolicy
unfoldable pub translate_policy : Bool → ResourcePolicy → Result ConditionResult PublicPolicy
unfolding shown_name check_access specs_of
translate_policy licensed rp =
    if not licensed
    then fail "NotLicensed"
        "the controller is not configured as licensed; shared policies need --pangolin-licensed and a licensed Pangolin"
    else explained (shown_name rp.namespace rp.name rp.display_name) >>= λ name.
        check_access rp >>= λ _. explained (policy_whitelist rp.email_whitelist) >>= λ whitelist.
        explained (valid_rules (λ i. concat ("rules[" ∷ itoa i ∷ "]" ∷ [])) 0 (specs_of rp.rules))
        >>= λ rules. ok (built_policy rp name whitelist rules)

-- renderPolicies
unfoldable pub render_policies : Inputs → Policies
unfolding translate_policy render_policies_from policy_age
render_policies inputs =
    render_policies_from (translate_policy inputs.licensed) no_policies
      (stable_sort policy_age inputs.resource_policies)
