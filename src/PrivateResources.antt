-- ===== src/PrivateResources.antt =====
-- internal/gateway/privateresource.go: translatePrivateResource and refuseFields, which turn one
-- PrivateResource into a blueprint entry.
pub mod Shape
pub mod Modes
pub mod Published
use pangolin_gateway.Api
use pangolin_gateway.Prelude.{
  Bool, List, Option, Result, String, [], err, false, if◌then◌else◌, none, not, ok, some, true,
  ◌&&◌, ◌==◌, ◌>>=◌, ◌||◌, ◌∷◌, string_eq, nat_eq,
}
use pangolin_gateway.Blueprint.{PrivateResource}
use pangolin_gateway.Collisions.{Rendered}
use pangolin_gateway.Inputs.{Inputs, member}
use pangolin_gateway.Map.{Map}
use pangolin_gateway.Network.{is_cidr, is_ip}
use pangolin_gateway.Patterns.{alias_pattern, hostname_pattern}
use pangolin_gateway.Policies.Translate.{shown_name}
use pangolin_gateway.Ports.{check_port_ranges}
use pangolin_gateway.PrivateGrants.{GrantError, check_private_grants}
use pangolin_gateway.Regex.{matches}
use pangolin_gateway.Text.{concat, has_prefix, quote, trim_space}
use pangolin_gateway.Verdict.{ConditionResult, fail}

-- PrivateResourceKey
unfoldable pub private_resource_key : String → String → String
private_resource_key namespace name = concat ("gw-pr-" ∷ namespace ∷ "-" ∷ name ∷ [])

-- `invalid`
abbrev pub invalid : {A : Type 0} → String → Result ConditionResult A
invalid message = fail "InvalidSpec" message

abbrev pub checked : {A : Type 0} → Result String A → Result ConditionResult A
checked (ok a) = ok a
checked (err e) = invalid e

abbrev pub mode_fields : List String
mode_fields =
    "fullDomain" ∷ "ssl" ∷ "scheme" ∷ "destinationPort" ∷ "tcpPorts" ∷ "udpPorts" ∷ "disableIcmp"
    ∷ "alias" ∷ []

-- refuseFields, over the fields of its loop: the first that is set.
unfoldable pub refuse_fields_of : String → Map String Bool → List String → Result String (Unit {0})
refuse_fields_of mode is_set [] = ok tt
refuse_fields_of mode is_set (field ∷ fields) =
    let later = refuse_fields_of mode is_set fields in
    if member field is_set
    then err (concat (field ∷ " has no meaning in mode " ∷ mode ∷ []))
    else later

unfoldable pub refuse_fields : String → Map String Bool → Result String (Unit {0})
unfolding refuse_fields_of
refuse_fields mode is_set = refuse_fields_of mode is_set mode_fields

-- The loop over the sites.
unfoldable pub check_sites : Inputs → List String → Result ConditionResult (Unit {0})
check_sites inputs [] = ok tt
check_sites inputs (site ∷ sites) =
    let later = check_sites inputs sites in
    if trim_space site == ""
    then invalid "sites has an empty entry"
    else elim (inputs.known_sites) [
      | none ↦ later
      | some known ↦
          if member site known
          then later
          else fail "UnknownSite"
              (concat ("site " ∷ quote site ∷ " does not exist in this Pangolin organisation" ∷ []))
    ]

abbrev pub is_given {ℓ} : {A : Type ℓ} → Option A → Bool
is_given none = false
is_given (some a) = true

-- The destination and the alias of mode host.
unfoldable pub check_host : Api.PrivateResource → Result ConditionResult (Unit {0})
check_host spec =
    let ip = is_ip spec.destination in
    if not ip && not (matches hostname_pattern spec.destination)
    then invalid (
        concat (
          "destination "
          ∷ quote spec.destination
          ∷ " is neither an IP address nor a hostname"
          ∷ []))
    else if not ip && spec.alias == ""
    then invalid (
        concat (
          "alias is required when the destination "
          ∷ quote spec.destination
          ∷ " is a hostname"
          ∷ []))
    else if not (spec.alias == "") && not (matches alias_pattern spec.alias)
    then invalid
        (concat ("alias " ∷ quote spec.alias ∷ " is not a fully qualified domain name" ∷ []))
    else if not ip && not (matches hostname_pattern spec.alias)
    then invalid (
        concat (
          "alias "
          ∷ quote spec.alias
          ∷ " must not contain wildcards when the destination is a hostname"
          ∷ []))
    else ok tt

-- The destination of mode cidr.
unfoldable pub check_cidr : Api.PrivateResource → Result ConditionResult (Unit {0})
check_cidr spec =
    if not (is_cidr spec.destination)
    then invalid (concat ("destination " ∷ quote spec.destination ∷ " is not a CIDR block" ∷ []))
    else if not (spec.alias == "")
    then invalid "alias has no meaning in mode cidr; only host takes one"
    else ok tt

-- The domain and the destination of mode http.
unfoldable pub check_http : Api.PrivateResource → Result ConditionResult (Unit {0})
check_http spec =
    if spec.full_domain == ""
    then invalid "fullDomain is required in mode http"
    else if has_prefix spec.full_domain "*"
    then invalid (
        concat (
          "Pangolin has no wildcard resources; "
          ∷ quote spec.full_domain
          ∷ " cannot be published"
          ∷ []))
    else if not (matches hostname_pattern spec.full_domain)
    then invalid (concat ("fullDomain " ∷ quote spec.full_domain ∷ " is not a hostname" ∷ []))
    else if not (is_ip spec.destination) && not (matches hostname_pattern spec.destination)
    then invalid (
        concat (
          "destination "
          ∷ quote spec.destination
          ∷ " is neither an IP address nor a hostname"
          ∷ []))
    else if spec.destination_port == 0
    then invalid "destinationPort is required in mode http"
    else ok tt

-- The entry before its mode is looked at.
abbrev pub plain_entry : Api.PrivateResource → String → List String → PrivateResource
plain_entry spec name sites = record {
  name = name;
  mode = spec.mode;
  sites = sites;
  destination = spec.destination;
  destination_port = 0;
  full_domain = "";
  scheme = "";
  ssl = none;
  alias = "";
  tcp_ports = none;
  udp_ports = none;
  disable_icmp = none;
  roles = [];
  users = [];
  machines = [];
}

abbrev pub ports_of : String → String → Result ConditionResult (Unit {0})
ports_of field raw = elim (check_port_ranges raw) [
  | ok ranges ↦ ok tt
  | err e ↦ invalid (concat (field ∷ ": " ∷ e ∷ []))
]

-- Modes host and cidr.
unfoldable pub network_mode :
    Api.PrivateResource → PrivateResource → Result ConditionResult (PrivateResource × List String)
unfolding refuse_fields check_host check_cidr
network_mode spec out =
    let is_set : Map String Bool =
      ("fullDomain", not (spec.full_domain == ""))
      ∷ ("ssl", is_given spec.ssl)
      ∷ ("scheme", not (spec.scheme == ""))
      ∷ ("destinationPort", not (spec.destination_port == 0))
      ∷ [] in
    let is_host = spec.mode == "host" in
    checked (refuse_fields spec.mode is_set) >>= λ _.
    (if is_host then check_host spec else check_cidr spec) >>= λ _.
    ports_of "tcpPorts" spec.tcp_ports >>= λ _. ports_of "udpPorts" spec.udp_ports >>= λ _. ok (
      record out {
        alias = if is_host then spec.alias else "";
        tcp_ports = some (trim_space spec.tcp_ports);
        udp_ports = some (trim_space spec.udp_ports);
        disable_icmp = some spec.disable_icmp;
      },
      if is_host && not (spec.alias == "") then spec.alias ∷ [] else [],
    )

-- Mode http.
unfoldable pub http_mode :
    Api.PrivateResource → PrivateResource → Result ConditionResult (PrivateResource × List String)
unfolding refuse_fields check_http
http_mode spec out =
    let is_set : Map String Bool =
      ("tcpPorts", not (spec.tcp_ports == ""))
      ∷ ("udpPorts", not (spec.udp_ports == ""))
      ∷ ("disableIcmp", spec.disable_icmp)
      ∷ ("alias", not (spec.alias == ""))
      ∷ [] in
    checked (refuse_fields spec.mode is_set) >>= λ _. check_http spec >>= λ _. ok (
      record out {
        full_domain = spec.full_domain;
        scheme = if spec.scheme == "" then "http" else spec.scheme;
        ssl = some (elim (spec.ssl) [ none ↦ true | some b ↦ b ]);
        destination_port = spec.destination_port;
      },
      spec.full_domain ∷ [],
    )

-- The switch on the mode: the entry and the names it makes resolvable.
unfoldable pub moded :
    Api.PrivateResource → PrivateResource → Result ConditionResult (PrivateResource × List String)
unfolding network_mode http_mode
moded spec out =
    if spec.mode == "host" || spec.mode == "cidr"
    then network_mode spec out
    else if spec.mode == "http"
    then http_mode spec out
    else invalid
        (concat ("mode " ∷ quote spec.mode ∷ " is not supported; use host, cidr or http" ∷ []))

abbrev pub sites_of : Inputs → List String → List String
sites_of inputs [] = inputs.default_site ∷ []
sites_of inputs (s ∷ ss) = s ∷ ss

abbrev pub granted : Result GrantError (List String) → Result ConditionResult (List String)
granted (ok notes) = ok notes
granted (err e) = fail e.reason e.msg

-- translatePrivateResource
unfoldable pub translate_private_resource :
    Api.PrivateResource → Inputs → Result ConditionResult Rendered
unfolding private_resource_key moded check_sites
translate_private_resource spec inputs =
    let sites = sites_of inputs spec.sites in
    checked (shown_name spec.namespace spec.name spec.display_name) >>= λ name.
    check_sites inputs sites >>= λ _. moded spec (plain_entry spec name sites) >>= λ out.
    granted (check_private_grants spec.roles spec.users spec.machines inputs) >>= λ notes.
    ok (record {
      key = private_resource_key spec.namespace spec.name;
      hostnames = out.1;
      notes = notes;
      public = none;
      private =
          some
            (record (out.0) { roles = spec.roles; users = spec.users; machines = spec.machines });
    })
