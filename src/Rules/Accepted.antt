-- ===== src/Rules/Accepted.antt =====
-- internal/gateway/rules.go: the access rules that are accepted.
use pangolin_gateway.Annotation
use mathlib.Core.List.{Memᴰ}
use pangolin_gateway.Prelude.{
  Result-cases, negated_true, ==_false, ==_sound, >>=-eq-ok, All, Bool, Bool-cases, List, Result,
  String, contains, contains_sound, false, guard-eq-ok, inl, inr, last-eq-ok, map, not, ok,
  ok-injective, refl, subst, sym, true, ℕ, ◌+◌, ◌==◌, ◌||◌, ◌∙◌, ◌≡◌, ◌≢◌, ◌⊎◌, string_eq, nat_eq,
}
use pangolin_gateway.Annotations.{Annotations, value_of}
use pangolin_gateway.Blueprint.{Rule}
use pangolin_gateway.Network.{is_cidr, is_ip}
use pangolin_gateway.Rules.{
  RuleSpec, known_actions, rules_for, valid_path_glob, valid_rule, valid_rules,
}
use pangolin_gateway.Text.{trim_space}
use pangolin_gateway.Rules.Globs.{IsGlob, valid_path_glob-IsGlob}

-- What the value of a rule is, by what the rule matches. The last three are looked up by Pangolin.
pub data IsMatch (r : Rule) : Type 0 where
  ip : r.match ≡ "ip" → is_ip r.value ≡ true → IsMatch r
  cidr : r.match ≡ "cidr" → is_cidr r.value ≡ true → IsMatch r
  glob : r.match ≡ "path" → IsGlob r.value → IsMatch r
  country : r.match ≡ "country" → IsMatch r
  asn : r.match ≡ "asn" → IsMatch r
  region : r.match ≡ "region" → IsMatch r

abbrev pub IsRule : Rule → Type 0
IsRule r = Memᴰ r.action known_actions × (r.value ≢ "") × IsMatch r

-- The rule that a spec becomes.
abbrev pub rule_of : RuleSpec → Rule
rule_of s = record { action = s.action; match = s.match; value = s.value }

one_of_three : (a b c : Bool) → (a || b || c) ≡ true → (a ≡ true) ⊎ ((b ≡ true) ⊎ (c ≡ true))
one_of_three true b c h = inl refl
one_of_three false true c h = inr (inl refl)
one_of_three false false true h = inr (inr refl)
one_of_three false false false h = cc

looked_up :
    (s : RuleSpec)
    → ((s.match == "country") ≡ true)
      ⊎ (((s.match == "asn") ≡ true) ⊎ ((s.match == "region") ≡ true))
    → IsMatch (rule_of s)
looked_up s (inl e) = IsMatch.country (==_sound s.match "country" e)
looked_up s (inr (inl e)) = IsMatch.asn (==_sound s.match "asn" e)
looked_up s (inr (inr e)) = IsMatch.region (==_sound s.match "region" e)

-- What the tests on the match and the value leave.
matched :
    (s : RuleSpec) {r : Rule}
    → not (contains known_actions s.action) ≡ false
    → (s.value == "") ≡ false
    → valid_rule s ≡ ok r
    → (rule_of s ≡ r) × IsMatch (rule_of s)
unfolding valid_rule
matched s {r} a v h = elim (Bool-cases (s.match == "ip")) [
  | inl is ↦
      let (good, same) =
        last-eq-ok (is_ip s.value) _ (rule_of s) (rw (a, v, is, valid_rule) at h) in
      (same, IsMatch.ip (==_sound s.match "ip" is) good)
  | inr not_ip ↦ elim (Bool-cases (s.match == "cidr")) [
    | inl is ↦
        let (good, same) =
          last-eq-ok (is_cidr s.value) _ (rule_of s) (rw (a, v, not_ip, is, valid_rule) at h) in
        (same, IsMatch.cidr (==_sound s.match "cidr" is) good)
    | inr not_cidr ↦ elim (Bool-cases (s.match == "path")) [
      | inl is ↦
          let (good, same) =
            last-eq-ok (valid_path_glob s.value) _ (rule_of s)
              (rw (a, v, not_ip, not_cidr, is, valid_rule) at h) in
          (same, IsMatch.glob (==_sound s.match "path" is) (valid_path_glob-IsGlob s.value good))
      | inr not_path ↦
          let (good, same) =
            last-eq-ok (s.match == "country" || s.match == "asn" || s.match == "region") _
              (rule_of s) (rw (a, v, not_ip, not_cidr, not_path, valid_rule) at h) in
          (same, looked_up s (one_of_three _ _ _ good))
    ]
  ]
]

-- A rule that is accepted has the fields of its spec and is one that Pangolin takes.
valid_rule-IsRule :
    (s : RuleSpec) {r : Rule} → valid_rule s ≡ ok r → (rule_of s ≡ r) × IsRule (rule_of s)
unfolding valid_rule
valid_rule-IsRule s {r} h =
    let (action, h₁) = guard-eq-ok (not (contains known_actions s.action)) _ _ h in
    let (value, h₂) = guard-eq-ok (s.value == "") _ _ h₁ in
    let known = contains_sound known_actions s.action (negated_true _ action) in
    let (same, match) = matched s action value h in
    (same, (known, ==_false s.value "" value, match))

valid_rules-IsRule :
    (what : ℕ → String) (i : ℕ) (specs : List RuleSpec) {rules : List Rule}
    → valid_rules what i specs ≡ ok rules
    → (map rule_of specs ≡ rules) × All IsRule (map rule_of specs)
unfolding valid_rules
valid_rules-IsRule what i List.[] h = (ok-injective h, tt)
valid_rules-IsRule what i (List.◌∷◌ s specs) {rules} h = elim (Result-cases (valid_rule s)) [
  | inl (e, bad) ↦ absurd (let q = rw (bad, valid_rules) at h in cc)
  | inr (rule, good) ↦
      let (later, q, h₁) =
        >>=-eq-ok (valid_rules what (i + 1) specs) _ (rw (good, valid_rules) at h) in
      let (same, rules) = valid_rules-IsRule what (i + 1) specs q in
      let (first, is_rule) = valid_rule-IsRule s good in
      ((λ i. List.◌∷◌ (first i) (same i)) ∙ ok-injective h₁, (is_rule, rules))
]

-- The rules of a route whose annotation is accepted: none where it is blank, and otherwise one for
-- each entry of the list that the annotation holds, in its order and with its fields. The action of
-- each is known, its value is not empty and is an address, a block of addresses or a path glob where
-- the rule matches one.
pub rules_for-IsRule :
    (decode : String → Result String (List RuleSpec)) (m : Annotations) {rules : List Rule}
    → rules_for decode m ≡ ok rules
    → ((trim_space (value_of m Annotation.access_rules) ≡ "") × (rules ≡ List.[]))
      ⊎ ((specs : List RuleSpec) × (decode (value_of m Annotation.access_rules) ≡ ok specs)
          × (rules ≡ map rule_of specs)
          × All IsRule rules)
unfolding rules_for
rules_for-IsRule decode m {rules} h =
    let raw = value_of m Annotation.access_rules in
    elim (Bool-cases (trim_space raw == "")) [
      | inl blank ↦
          inl (==_sound (trim_space raw) "" blank, sym (ok-injective (rw (blank, rules_for) at h)))
      | inr filled ↦ elim (Result-cases (decode raw)) [
        | inl (e, bad) ↦ absurd (let q = rw (filled, bad, rules_for) at h in cc)
        | inr (specs, good) ↦
            let (same, each) = valid_rules-IsRule _ 0 specs (rw (filled, good, rules_for) at h) in
            inr (specs, good, sym same, subst (All IsRule) same each)
      ]
    ]
