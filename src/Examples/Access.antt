-- ===== src/Examples/Access.antt =====
-- Tests and instances for the private resources and the access rules.
use pangolin_gateway.Annotation
use pangolin_gateway.Api
use pangolin_gateway.Prelude.{
  All, List, Result, String, [], contains, err, false, map, none, ok, refl, some, true, ◌∷◌, ◌≡◌,
  ◌⊎◌, string_eq,
}
use pangolin_gateway.Annotations.{Annotations, value_of}
use pangolin_gateway.Blueprint.{Rule}
use pangolin_gateway.Collisions.{Rendered}
use pangolin_gateway.Examples.Routes.{inputs}
use pangolin_gateway.Inputs.{Inputs, member}
use pangolin_gateway.Map.{lookup}
use pangolin_gateway.Network.{is_ip}
use pangolin_gateway.Patterns.{hostname_pattern}
use pangolin_gateway.Policies.Translate.{shown_name}
use pangolin_gateway.PrivateGrants.{check_private_grants}
use pangolin_gateway.PrivateResources.{translate_private_resource}
use pangolin_gateway.PrivateResources.Published.{
  IsRenderedPrivate, translate_private_resource-IsRenderedPrivate,
}
use pangolin_gateway.Regex.{matches}
use pangolin_gateway.Rules.{
  RuleSpec, first_line, rule_value, rules_for, valid_path_glob, valid_rule,
}
use pangolin_gateway.Rules.Accepted.{IsRule, rule_of, rules_for-IsRule}
use pangolin_gateway.Text.{
  cut, contains_char, digits_value, concat, has_prefix, split, trim_prefix_char, trim_space,
}

abbrev wiki : Api.PrivateResource
wiki = record {
  namespace = "shop";
  name = "wiki";
  generation = 1;
  created_at = 4;
  display_name = "";
  mode = "http";
  sites = [];
  destination = "wiki.shop.svc";
  tcp_ports = "";
  udp_ports = "";
  disable_icmp = false;
  alias = "";
  full_domain = "wiki.example.com";
  ssl = none;
  scheme = "";
  destination_port = 8080;
  roles = "staff" ∷ [];
  users = [];
  machines = [];
  conditions = [];
  resource_key = "";
}

-- The sites could be listed, and the default site is one of them.
abbrev at_home : Inputs
at_home = record inputs { known_sites = some (("home", true) ∷ []) }

abbrev rendered : Rendered
rendered = record {
  key = "gw-pr-shop-wiki";
  hostnames = "wiki.example.com" ∷ [];
  notes = [];
  public = none;
  private = some (record {
    name = "shop/wiki";
    mode = "http";
    sites = "home" ∷ [];
    destination = "wiki.shop.svc";
    destination_port = 8080;
    full_domain = "wiki.example.com";
    scheme = "http";
    ssl = some true;
    alias = "";
    tcp_ports = none;
    udp_ports = none;
    disable_icmp = none;
    roles = "staff" ∷ [];
    users = [];
    machines = [];
  });
}

wiki_translates : translate_private_resource wiki at_home ≡ ok rendered
unfolding translate_private_resource shown_name trim_space member lookup has_prefix matches
    hostname_pattern is_ip split check_private_grants contains concat
wiki_translates = refl

translate_private_resource-IsRenderedPrivate_example : IsRenderedPrivate wiki at_home rendered
translate_private_resource-IsRenderedPrivate_example =
    translate_private_resource-IsRenderedPrivate wiki at_home wiki_translates

abbrev admin_only : RuleSpec
admin_only = record { action = "deny"; match = "path"; value = "/admin/%2e*" }

abbrev from_office : RuleSpec
from_office = record { action = "allow"; match = "ip"; value = "192.0.2.7" }

abbrev two_rules : String → Result String (List RuleSpec)
two_rules raw = ok (from_office ∷ admin_only ∷ [])

abbrev annotations : Annotations
annotations = (Annotation.access_rules, "- action: allow") ∷ []

rules_accepted :
    rules_for two_rules annotations ≡ ok (rule_of from_office ∷ rule_of admin_only ∷ [])
unfolding rules_for trim_space value_of lookup valid_rule contains is_ip split digits_value
    valid_path_glob trim_prefix_char contains_char
rules_accepted = refl

rules_for-IsRule_example :
    ((trim_space (value_of annotations Annotation.access_rules) ≡ "")
      × (◌≡◌ {A = List Rule} (rule_of from_office ∷ rule_of admin_only ∷ []) []))
    ⊎ ((specs : List RuleSpec) × (two_rules (value_of annotations Annotation.access_rules)
          ≡ ok specs)
        × (rule_of from_office ∷ rule_of admin_only ∷ [] ≡ map rule_of specs)
        × All IsRule (rule_of from_office ∷ rule_of admin_only ∷ []))
rules_for-IsRule_example = rules_for-IsRule two_rules annotations rules_accepted

-- A segment that ends within an escape is refused.
broken_escape : valid_path_glob "/a%2" ≡ false
unfolding valid_path_glob trim_prefix_char split contains_char
broken_escape = refl

-- An ASN that is written as a bare number is a text, and a truth value is refused.
bare_number : rule_value (λ b. err "no text") " 64512 " ≡ ok "64512"
unfolding rule_value trim_space has_prefix
bare_number = refl

bare_word : rule_value (λ b. ok b) "true" ≡ err "value must be a string, got true"
unfolding rule_value trim_space has_prefix concat
bare_word = refl

one_line : first_line "unknown field \nin line 3" ≡ "unknown field"
unfolding first_line cut trim_space
one_line = refl
