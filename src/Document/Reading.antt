-- ===== src/Document/Reading.antt =====
-- internal/pangolin/blueprint.go: a blueprint, read back from its document.
use pangolin_gateway.Blueprint
use pangolin_gateway.Prelude.{Bool, String, some, ℕ}
use pangolin_gateway.Blueprint.{
  Auth, BasicAuth, Blueprint, Healthcheck, Mtls, PublicPolicy, PublicResource, Rule, Target,
}
use pangolin_gateway.Json.{Json}
use pangolin_gateway.Json.Members.{
  member, members_of, read_arr, read_bool, read_map, read_num, read_pointer, read_str,
}

abbrev pub text_of : Json → String
text_of j = read_str (some j)

abbrev pub number_of : Json → ℕ
number_of j = read_num (some j)

abbrev pub flag_of : Json → Bool
flag_of j = read_bool (some j)

unfoldable pub read_rule : Json → Rule
read_rule j =
    let fs = members_of j in
    record {
      action = read_str (member "action" fs);
      match = read_str (member "match" fs);
      value = read_str (member "value" fs);
    }

unfoldable pub read_basic_auth : Json → BasicAuth
read_basic_auth j =
    let fs = members_of j in
    record {
      user = read_str (member "user" fs);
      password = read_str (member "password" fs);
      extended_compatibility = read_bool (member "extendedCompatibility" fs);
    }

unfoldable pub read_mtls : Json → Mtls
read_mtls j =
    let fs = members_of j in
    record {
      enabled = read_bool (member "enabled" fs);
      ca_certificates = read_arr text_of (member "ca-certificates" fs);
    }

unfoldable pub read_auth : Json → Auth
read_auth j =
    let fs = members_of j in
    record {
      sso_enabled = read_bool (member "sso-enabled" fs);
      basic_auth = read_pointer read_basic_auth (member "basic-auth" fs);
      pincode = read_pointer number_of (member "pincode" fs);
      mtls = read_pointer read_mtls (member "mtls" fs);
      sso_roles = read_arr text_of (member "sso-roles" fs);
      sso_users = read_arr text_of (member "sso-users" fs);
      whitelist_users = read_arr text_of (member "whitelist-users" fs);
    }

unfoldable pub read_healthcheck : Json → Healthcheck
read_healthcheck j =
    let fs = members_of j in
    record {
      hostname = read_str (member "hostname" fs);
      port = read_num (member "port" fs);
      interval = read_num (member "interval" fs);
      timeout = read_num (member "timeout" fs);
      mode = read_str (member "mode" fs);
      path = read_str (member "path" fs);
      method = read_str (member "method" fs);
      status = read_num (member "status" fs);
      follow_redirects = read_bool (member "follow-redirects" fs);
    }

unfoldable pub read_target : Json → Target
read_target j =
    let fs = members_of j in
    record {
      site = read_str (member "site" fs);
      method = read_str (member "method" fs);
      hostname = read_str (member "hostname" fs);
      port = read_num (member "port" fs);
      healthcheck = read_pointer read_healthcheck (member "healthcheck" fs);
    }

unfoldable pub read_public : Json → PublicResource
read_public j =
    let fs = members_of j in
    record {
      name = read_str (member "name" fs);
      mode = read_str (member "mode" fs);
      full_domain = read_str (member "full-domain" fs);
      auth = read_pointer read_auth (member "auth" fs);
      policy = read_str (member "policy" fs);
      targets = read_arr read_target (member "targets" fs);
      rules = read_arr read_rule (member "rules" fs);
    }

unfoldable pub read_policy : Json → PublicPolicy
read_policy j =
    let fs = members_of j in
    record {
      name = read_str (member "name" fs);
      sso = read_bool (member "sso" fs);
      sso_roles = read_arr text_of (member "sso-roles" fs);
      sso_users = read_arr text_of (member "sso-users" fs);
      pincode = read_str (member "pincode" fs);
      email_whitelist_enabled = read_bool (member "email-whitelist-enabled" fs);
      whitelist_users = read_arr text_of (member "whitelist-users" fs);
      apply_rules = read_bool (member "apply-rules" fs);
      rules = read_arr read_rule (member "rules" fs);
    }

unfoldable pub read_private : Json → Blueprint.PrivateResource
read_private j =
    let fs = members_of j in
    record {
      name = read_str (member "name" fs);
      mode = read_str (member "mode" fs);
      sites = read_arr text_of (member "sites" fs);
      destination = read_str (member "destination" fs);
      destination_port = read_num (member "destination-port" fs);
      full_domain = read_str (member "full-domain" fs);
      scheme = read_str (member "scheme" fs);
      ssl = read_pointer flag_of (member "ssl" fs);
      alias = read_str (member "alias" fs);
      tcp_ports = read_pointer text_of (member "tcp-ports" fs);
      udp_ports = read_pointer text_of (member "udp-ports" fs);
      disable_icmp = read_pointer flag_of (member "disable-icmp" fs);
      roles = read_arr text_of (member "roles" fs);
      users = read_arr text_of (member "users" fs);
      machines = read_arr text_of (member "machines" fs);
    }

unfoldable pub read_blueprint : Json → Blueprint
read_blueprint j =
    let fs = members_of j in
    record {
      public_resources = read_map read_public (member "public-resources" fs);
      private_resources = read_map read_private (member "private-resources" fs);
      public_policies = read_map read_policy (member "public-policies" fs);
    }
