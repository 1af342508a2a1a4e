-- ===== src/Annotation.antt =====
-- The names of the annotations (internal/gateway/render.go, visibility.go, policy.go, mtls.go,
-- basicauth.go, rules.go, pincode.go, emailwhitelist.go, healthcheck.go).
use Prim.Native.String.{String}

abbrev pub sso : String
sso = "pangolin.p3l1.de/sso"

abbrev pub site : String
site = "pangolin.p3l1.de/site"

abbrev pub display_name : String
display_name = "pangolin.p3l1.de/display-name"

abbrev pub visibility : String
visibility = "pangolin.p3l1.de/visibility"

abbrev pub roles : String
roles = "pangolin.p3l1.de/roles"

abbrev pub users : String
users = "pangolin.p3l1.de/users"

abbrev pub policy : String
policy = "pangolin.p3l1.de/policy"

abbrev pub access_rules : String
access_rules = "pangolin.p3l1.de/access-rules"

abbrev pub basic_auth : String
basic_auth = "pangolin.p3l1.de/basic-auth"

abbrev pub pincode : String
pincode = "pangolin.p3l1.de/pincode"

abbrev pub email_whitelist : String
email_whitelist = "pangolin.p3l1.de/email-whitelist"

abbrev pub mtls_ca : String
mtls_ca = "pangolin.p3l1.de/mtls-ca"

abbrev pub mtls_ca_secret : String
mtls_ca_secret = "pangolin.p3l1.de/mtls-ca-secret"

abbrev pub mtls_ca_config_map : String
mtls_ca_config_map = "pangolin.p3l1.de/mtls-ca-configmap"

abbrev pub healthcheck_path : String
healthcheck_path = "pangolin.p3l1.de/healthcheck-path"

abbrev pub healthcheck_interval : String
healthcheck_interval = "pangolin.p3l1.de/healthcheck-interval"

abbrev pub healthcheck_timeout : String
healthcheck_timeout = "pangolin.p3l1.de/healthcheck-timeout"

abbrev pub healthcheck_mode : String
healthcheck_mode = "pangolin.p3l1.de/healthcheck-mode"

abbrev pub healthcheck_status : String
healthcheck_status = "pangolin.p3l1.de/healthcheck-status"

abbrev pub healthcheck_method : String
healthcheck_method = "pangolin.p3l1.de/healthcheck-method"

abbrev pub healthcheck_follow_redirects : String
healthcheck_follow_redirects = "pangolin.p3l1.de/healthcheck-follow-redirects"
