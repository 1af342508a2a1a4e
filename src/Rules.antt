-- ===== src/Rules.antt =====
-- internal/gateway/rules.go: the access rules of a route or a policy.
pub mod Globs
pub mod Accepted
use pangolin_gateway.Annotation
use Prim.Native.String.{[], ◌∷◌}
use pangolin_gateway.Prelude.{
  Bool, Char, List, String, code, false, if◌then◌else◌, leb, nat_beq, not, true, ◌&&◌, ◌==◌, ◌||◌,
  [], ◌∷◌, Result, contains, err, ok, ℕ, ◌+◌, ◌>>=◌, string_eq, nat_eq,
}
use pangolin_gateway.Annotations.{Annotations, value_of}
use pangolin_gateway.Blueprint.{Rule}
use pangolin_gateway.Network.{is_hex, is_cidr, is_ip}
use pangolin_gateway.Text.{
  cut, has_prefix, is_digit, contains_char, split, trim_prefix_char, concat, itoa, quote,
  trim_space,
}

-- One entry as an author writes it.
pub record RuleSpec : Type 0 where
  pub action : String
  pub match : String
  pub value : String

-- How a bare YAML number starts, which is still a string on the wire.
abbrev starts_number : String → Bool
starts_number [] = false
starts_number (c ∷ s) = nat_beq (code c) b'-' || is_digit c

-- ruleValue.UnmarshalJSON. `unquote` is json.Unmarshal into a string.
unfoldable pub rule_value : (String → Result String String) → String → Result String String
unfolding is_digit
rule_value unquote b =
    let n = trim_space b in
    if has_prefix b "\""
    then unquote b
    else if starts_number n
    then ok n
    else err (concat ("value must be a string, got " ∷ b ∷ []))

-- firstLine
unfoldable pub first_line : String → String
first_line message = trim_space ((cut message 10).0)

-- isPathChar
unfoldable pub is_path_char : Char → Bool
is_path_char c =
    let n = code c in
    (leb b'a' n && leb n b'z')
    || (leb b'A' n && leb n b'Z')
    || (leb b'0' n && leb n b'9')
    || contains_char "-._~!$&'()*+,;#=@:" c

-- One segment of validPathGlob: a percent sign with two characters behind it is an escape.
unfoldable pub segment_valid : String → Bool
unfolding is_path_char is_hex
segment_valid [] = true
segment_valid (c ∷ []) = is_path_char c
segment_valid (c ∷ a ∷ []) = is_path_char c && is_path_char a
segment_valid (c ∷ a ∷ b ∷ s) =
    let escaped = segment_valid s in
    let plain = segment_valid (a ∷ b ∷ s) in
    if nat_beq (code c) b'%' then (is_hex a && is_hex b && escaped) else (is_path_char c && plain)

-- The loop over the segments: only the last one may be empty.
unfoldable pub segments_valid : List String → Bool
unfolding segment_valid
segments_valid List.[] = true
segments_valid (List.◌∷◌ s List.[]) = segment_valid s
segments_valid (List.◌∷◌ s (List.◌∷◌ t ts)) =
    not (s == "") && segment_valid s && segments_valid (List.◌∷◌ t ts)

-- validPathGlob
unfoldable pub valid_path_glob : String → Bool
unfolding segments_valid
valid_path_glob pattern =
    if pattern == "/"
    then true
    else let rest = trim_prefix_char pattern b'/' in
      if rest == "" then false else segments_valid (split rest b'/')

abbrev invalid_match : RuleSpec → String
invalid_match s = concat (
    "match "
    ∷ quote s.match
    ∷ " is not one of \"path\", \"cidr\", \"ip\", \"country\", \"asn\", \"region\""
    ∷ [])

abbrev pub known_actions : List String
known_actions = "allow" ∷ "deny" ∷ "pass" ∷ []

abbrev invalid_action : RuleSpec → String
invalid_action s = concat (
    "action "
    ∷ quote s.action
    ∷ " is not one of \"allow\", \"deny\", \"pass\"; \"allow\" bypasses authentication for what it matches, while \"pass\" only falls through to it"
    ∷ [])

abbrev invalid_glob : String → String
invalid_glob value = concat (
    "value "
    ∷ quote value
    ∷ " is not a valid path glob: segments may hold letters, digits, \"-._~!$&'()+,;=@:#\", percent escapes and \"*\" as a wildcard, and may not be empty"
    ∷ [])

-- validRule
unfoldable pub valid_rule : RuleSpec → Result String Rule
valid_rule s =
    let accepted = ok (record { action = s.action; match = s.match; value = s.value }) in
    if not (contains known_actions s.action)
    then err (invalid_action s)
    else if s.value == ""
    then err "value is empty"
    else if s.match == "ip"
    then (if is_ip s.value
        then accepted
        else err (concat ("value " ∷ quote s.value ∷ " is not an IP address" ∷ [])))
    else if s.match == "cidr"
    then (if is_cidr s.value
        then accepted
        else err (concat ("value " ∷ quote s.value ∷ " is not a CIDR block" ∷ [])))
    else if s.match == "path"
    then (if valid_path_glob s.value then accepted else err (invalid_glob s.value))
    else if s.match == "country" || s.match == "asn" || s.match == "region"
    then accepted
    else err (invalid_match s)

-- The loops over the specs in rulesFor and translatePolicy. `what` names the entry at a position.
unfoldable pub valid_rules : (ℕ → String) → ℕ → List RuleSpec → Result String (List Rule)
valid_rules what i [] = ok []
valid_rules what i (s ∷ specs) =
    let rest = valid_rules what (i + 1) specs in
    elim (valid_rule s) [
      | err e ↦ err (concat (what i ∷ ": " ∷ e ∷ []))
      | ok rule ↦ (rest >>= λ rules. ok (rule ∷ rules))
    ]

-- rulesFor. `decode` is yaml.UnmarshalStrict into a list of specs, or its complaint.
unfoldable pub rules_for :
    (String → Result String (List RuleSpec)) → Annotations → Result String (List Rule)
unfolding valid_rules first_line
rules_for decode m =
    let raw = value_of m Annotation.access_rules in
    if trim_space raw == "" then ok [] else elim (decode raw) [
      | err e ↦ err (
          concat (
            "annotation "
            ∷ Annotation.access_rules
            ∷ " must be a YAML list of rules, each with action, match and value; list order is the priority: "
            ∷ first_line e
            ∷ []))
      | ok specs ↦
          valid_rules
            (λ i. concat ("annotation " ∷ Annotation.access_rules ∷ "[" ∷ itoa i ∷ "]" ∷ [])) 0
            specs
    ]
