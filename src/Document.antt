-- ===== src/Document.antt =====
-- internal/pangolin/blueprint.go: the JSON document of a blueprint, by the tags of its structs. A list
-- of the source that is nil or empty is one empty list here; `rules` and `ca-certificates` are always
-- arrays, as MarshalJSON of Rules and the code that fills MTLS have it.
pub mod Reading
pub mod RoundTrip
use pangolin_gateway.Blueprint
use pangolin_gateway.Prelude.{List, Option, some}
use pangolin_gateway.Blueprint.{
  Auth, BasicAuth, Blueprint, Healthcheck, Mtls, PublicPolicy, PublicResource, Rule, Target,
}
use pangolin_gateway.Json.{
  Json, Fields, items, map_json, nonempty_arr, nonempty_map, nonempty_num, nonempty_str, opt,
  pointer,
}
use Json.{arr, bool, num, obj, str}
use Fields.{end, field}

unfoldable pub rule_json : Rule → Json
rule_json r =
    obj (
      field "action" (str r.action) (field "match" (str r.match) (field "value" (str r.value) end)))

-- MarshalJSON of Rules
unfoldable pub rules_json : List Rule → Json
unfolding rule_json
rules_json rules = arr (items rule_json rules)

unfoldable pub basic_auth_json : BasicAuth → Json
basic_auth_json a = obj (
    field "user" (str a.user) (
      field "password" (str a.password)
        (field "extendedCompatibility" (bool a.extended_compatibility) end)))

unfoldable pub mtls_json : Mtls → Json
mtls_json m = obj (
    field "enabled" (bool m.enabled)
      (field "ca-certificates" (arr (items str m.ca_certificates)) end))

unfoldable pub auth_json : Auth → Json
unfolding basic_auth_json mtls_json
auth_json a = obj (
    field "sso-enabled" (bool a.sso_enabled) (
      opt "basic-auth" (pointer basic_auth_json a.basic_auth) (
        opt "pincode" (pointer num a.pincode) (
          opt "mtls" (pointer mtls_json a.mtls) (
            opt "sso-roles" (nonempty_arr str a.sso_roles) (
              opt "sso-users" (nonempty_arr str a.sso_users)
                (opt "whitelist-users" (nonempty_arr str a.whitelist_users) end)))))))

unfoldable pub healthcheck_json : Healthcheck → Json
healthcheck_json h = obj (
    field "hostname" (str h.hostname) (
      field "port" (num h.port) (
        field "interval" (num h.interval) (
          field "timeout" (num h.timeout) (
            field "mode" (str h.mode) (
              field "path" (str h.path) (
                field "method" (str h.method) (
                  field "status" (num h.status)
                    (field "follow-redirects" (bool h.follow_redirects) end)))))))))

unfoldable pub target_json : Target → Json
unfolding healthcheck_json
target_json t = obj (
    opt "site" (nonempty_str t.site) (
      opt "method" (nonempty_str t.method) (
        field "hostname" (str t.hostname) (
          field "port" (num t.port)
            (opt "healthcheck" (pointer healthcheck_json t.healthcheck) end)))))

unfoldable pub public_json : PublicResource → Json
unfolding auth_json target_json rules_json
public_json r = obj (
    field "name" (str r.name) (
      field "mode" (str r.mode) (
        opt "full-domain" (nonempty_str r.full_domain) (
          opt "auth" (pointer auth_json r.auth) (
            opt "policy" (nonempty_str r.policy) (
              opt "targets" (nonempty_arr target_json r.targets)
                (field "rules" (rules_json r.rules) end)))))))

unfoldable pub policy_json : PublicPolicy → Json
unfolding rules_json
policy_json p = obj (
    field "name" (str p.name) (
      field "sso" (bool p.sso) (
        opt "sso-roles" (nonempty_arr str p.sso_roles) (
          opt "sso-users" (nonempty_arr str p.sso_users) (
            opt "pincode" (nonempty_str p.pincode) (
              field "email-whitelist-enabled" (bool p.email_whitelist_enabled) (
                opt "whitelist-users" (nonempty_arr str p.whitelist_users) (
                  field "apply-rules" (bool p.apply_rules)
                    (field "rules" (rules_json p.rules) end)))))))))

unfoldable pub private_json : Blueprint.PrivateResource → Json
private_json r = obj (
    field "name" (str r.name) (
      field "mode" (str r.mode) (
        opt "sites" (nonempty_arr str r.sites) (
          opt "destination" (nonempty_str r.destination) (
            opt "destination-port" (nonempty_num r.destination_port) (
              opt "full-domain" (nonempty_str r.full_domain) (
                opt "scheme" (nonempty_str r.scheme) (
                  opt "ssl" (pointer bool r.ssl) (
                    opt "alias" (nonempty_str r.alias) (
                      opt "tcp-ports" (pointer str r.tcp_ports) (
                        opt "udp-ports" (pointer str r.udp_ports) (
                          opt "disable-icmp" (pointer bool r.disable_icmp) (
                            opt "roles" (nonempty_arr str r.roles) (
                              opt "users" (nonempty_arr str r.users)
                                (opt "machines" (nonempty_arr str r.machines) end)))))))))))))))

-- The document that ApplyBlueprint sends.
unfoldable pub blueprint_json : Blueprint → Json
unfolding public_json private_json policy_json
blueprint_json bp = obj (
    field "public-resources" (map_json public_json bp.public_resources) (
      field "private-resources" (map_json private_json bp.private_resources)
        (opt "public-policies" (nonempty_map policy_json bp.public_policies) end)))
