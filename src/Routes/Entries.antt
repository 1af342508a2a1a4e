-- ===== src/Routes/Entries.antt =====
-- internal/gateway/render.go: publicResource, inlineAuth, privateResource and translate. `decode` is
-- the YAML decoder of rules.go.
use pangolin_gateway.Annotation
use pangolin_gateway.Prelude.{
  Bool, List, Result, String, [], err, false, if◌then◌else◌, none, ok, some, true, ◌++◌, ◌==◌,
  ◌>>=◌, ◌∷◌, string_eq, nat_eq,
}
use pangolin_gateway.Annotations.{
  Annotations, Visibility, grant_list, mtls_annotations, private_route, public_route,
  refuse_annotations, sso_for, value_of, visibility_for,
}
use pangolin_gateway.Api.{HttpRoute, NamespacedName}
use pangolin_gateway.Blueprint.{PrivateResource, Auth, PublicResource, Rule, Target}
use pangolin_gateway.Collisions.{Rendered}
use pangolin_gateway.Emails.{email_whitelist_for}
use pangolin_gateway.Healthcheck.{healthcheck_annotations, healthcheck_for}
use pangolin_gateway.Inputs.{Inputs}
use pangolin_gateway.Map.{Map}
use pangolin_gateway.Pincode.{pincode_for}
use pangolin_gateway.Policies.{policy_for, shared_policy_auth}
use pangolin_gateway.PrivateGrants.{GrantError, check_private_grants}
use pangolin_gateway.Protection.{basic_auth_for, mtls_for}
use pangolin_gateway.Routes.{Destination, destination_of, supported, key_of}
use pangolin_gateway.Rules.{RuleSpec, rules_for}
use pangolin_gateway.Text.{concat, trim_space}
use pangolin_gateway.Verdict.{ConditionResult, ResourceVerdict}

-- The grants of a route that signs nobody in are refused.
abbrev pub refuse_idle_grants : Bool → Annotations → Result String (Unit {0})
refuse_idle_grants true m = ok tt
refuse_idle_grants false m =
    refuse_annotations m (concat ("a public route with " ∷ Annotation.sso ∷ ": \"false\"" ∷ []))
      "turn sign-in on or drop the grant" (Annotation.roles ∷ Annotation.users ∷ [])

module _ (decode : String → Result String (List RuleSpec)) where
  -- inlineAuth
  unfoldable pub inline_auth : HttpRoute → Inputs → Result String (Auth × List Rule)
  inline_auth r inputs = do
    sso ← sso_for r.annotations
    _ ← refuse_idle_grants sso r.annotations
    roles ← grant_list r.annotations Annotation.roles
    users ← grant_list r.annotations Annotation.users
    basic_auth ← basic_auth_for r inputs
    pincode ← pincode_for r.annotations
    whitelist ← email_whitelist_for r.annotations
    mtls ← mtls_for r inputs
    rules ← rules_for decode r.annotations
    ok (
      record {
        sso_enabled = sso;
        basic_auth = basic_auth;
        pincode = pincode;
        mtls = some mtls;
        sso_roles = roles;
        sso_users = users;
        whitelist_users = whitelist;
      },
      rules,
    )

  -- The auth and the rules of a route, by the policy it names.
  unfoldable pub auth_for : HttpRoute → Inputs → String → Result String (Auth × List Rule)
  unfolding inline_auth
  auth_for r inputs policy =
      if policy == ""
      then inline_auth r inputs
      else (shared_policy_auth r inputs >>= λ auth. ok (auth, []))

  abbrev pub target_of : Destination → Target
  target_of d = record {
    site = d.site;
    method = "http";
    hostname = d.backend_host;
    port = d.backend_port;
    healthcheck = none;
  }

  -- publicResource
  unfoldable pub public_resource :
      HttpRoute
      → Inputs
      → Map NamespacedName ResourceVerdict
      → Destination
      → Result String PublicResource
  unfolding auth_for
  public_resource r inputs policies d = do
    policy ← policy_for r inputs policies
    protection ← auth_for r inputs policy
    healthcheck ← healthcheck_for r.annotations (target_of d)
    ok (record {
      name = d.name;
      mode = "http";
      full_domain = d.host;
      auth = some (protection.0);
      policy = policy;
      targets = record (target_of d) { healthcheck = healthcheck } ∷ [];
      rules = protection.1;
    })

abbrev pub private_refused : List String
private_refused =
    (Annotation.sso ∷ Annotation.access_rules ∷ Annotation.basic_auth ∷ Annotation.pincode
      ∷ Annotation.email_whitelist ∷ [])
    ++ mtls_annotations

abbrev pub refuse_policy : Annotations → Result String (Unit {0})
refuse_policy m =
    if trim_space (value_of m Annotation.policy) == ""
    then ok tt
    else err (
        concat (
          "annotation " ∷ Annotation.policy
          ∷ " has no meaning on a private route; access is granted by " ∷ Annotation.roles ∷ " and "
          ∷ Annotation.users ∷ []))

abbrev pub grant_message : Result GrantError (List String) → Result String (List String)
grant_message (ok notes) = ok notes
grant_message (err e) = err e.msg

-- privateResource
unfoldable pub private_resource :
    HttpRoute → Inputs → Destination → Result String (PrivateResource × List String)
private_resource r inputs d = do
  _ ←
      refuse_annotations r.annotations "a private route"
        (concat ("access is granted by " ∷ Annotation.roles ∷ " and " ∷ Annotation.users ∷ []))
        private_refused
  _ ← refuse_policy r.annotations
  _ ←
      refuse_annotations r.annotations "a private route"
        "a private resource has no targets to check" healthcheck_annotations
  roles ← grant_list r.annotations Annotation.roles
  users ← grant_list r.annotations Annotation.users
  notes ← grant_message (check_private_grants roles users [] inputs)
  ok (
    record {
      name = d.name;
      mode = "http";
      sites = d.site ∷ [];
      destination = d.backend_host;
      destination_port = d.backend_port;
      full_domain = d.host;
      scheme = "http";
      ssl = none;
      alias = "";
      tcp_ports = none;
      udp_ports = none;
      disable_icmp = none;
      roles = roles;
      users = users;
      machines = [];
    },
    notes,
  )

abbrev pub private_entry : HttpRoute → String → PrivateResource × List String → Rendered
private_entry r host (resource, notes) = record {
  key = key_of r.namespace r.name;
  hostnames = host ∷ [];
  notes = notes;
  public = none;
  private = some resource;
}

abbrev pub public_entry : HttpRoute → String → PublicResource → Rendered
public_entry r host resource = record {
  key = key_of r.namespace r.name;
  hostnames = host ∷ [];
  notes = [];
  public = some resource;
  private = none;
}

module _ (decode : String → Result String (List RuleSpec)) where
  -- The entry of a route in the section that its visibility names.
  unfoldable pub entry_for :
      HttpRoute
      → Inputs
      → Map NamespacedName ResourceVerdict
      → Destination
      → Visibility
      → Result String Rendered
  unfolding private_resource public_resource
  entry_for r inputs policies d private_route =
      private_resource r inputs d >>= λ made. ok (private_entry r d.host made)
  entry_for r inputs policies d public_route =
      public_resource decode r inputs policies d >>= λ made. ok (public_entry r d.host made)

  -- translate
  unfoldable pub translate :
      HttpRoute → Inputs → Map NamespacedName ResourceVerdict → Result ConditionResult Rendered
  unfolding destination_of entry_for
  translate r inputs policies = destination_of r inputs >>= λ d.
      supported (visibility_for r.annotations) >>= λ visibility.
      supported (entry_for r inputs policies d visibility)
