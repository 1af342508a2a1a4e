-- ===== src/Render/Policy.antt =====
-- internal/gateway/render.go, policy.go: what a published route is protected by.
use pangolin_gateway.Annotation
use pangolin_gateway.Prelude.{
  >>=-eq-ok, List, Result, String, ok, some, ◌≡◌, ap, err, ok-injective, sym, true, ◌==◌, ◌∙◌, refl,
  Bool-cases, [], false, inl, inr, ◌≢◌, string_eq,
}
use pangolin_gateway.Annotations.{
  grant_list, sso_for, Visibility, private_route, public_route, visibility_for, value_of,
}
use pangolin_gateway.Api.{HttpRoute, NamespacedName, name_eq}
use pangolin_gateway.Blueprint.{Auth, Mtls, Rule, BasicAuth, PublicResource}
use pangolin_gateway.Collisions.{Rendered}
use pangolin_gateway.Emails.{email_whitelist_for}
use pangolin_gateway.Healthcheck.{healthcheck_for}
use pangolin_gateway.Inputs.{Inputs, BasicAuthResult, name_of, MtlsResult}
use pangolin_gateway.Map.{Map, lookup}
use pangolin_gateway.Pincode.{pincode_for}
use pangolin_gateway.Policies.{policy_for}
use pangolin_gateway.Protection.{basic_auth_for, mtls_for, basic_auth_requested, mtls_requested}
use pangolin_gateway.Protection.Closed.{basic_auth_for-given, mtls_for-given}
use pangolin_gateway.Routes.{Destination, destination_of, supported}
use pangolin_gateway.Routes.Entries.{
  inline_auth, refuse_idle_grants, auth_for, entry_for, private_resource, public_resource,
  target_of, translate,
}
use pangolin_gateway.Rules.{RuleSpec, rules_for}
use pangolin_gateway.Secrets.{given}
use pangolin_gateway.Text.{trim_space}
use pangolin_gateway.Verdict.{ResourceVerdict}

pub supported-eq-ok : {A : Type 0} (m : Result String A) {a : A} → supported m ≡ ok a → m ≡ ok a
supported-eq-ok (ok b) h = cc
supported-eq-ok (err e) h = absurd (cc)

module _ (decode : String → Result String (List RuleSpec)) where
  -- The one that the route is checked by: the auth block of a route without a policy.
  inline_auth-parts :
      (r : HttpRoute) (inputs : Inputs) {made : Auth × List Rule}
      → inline_auth decode r inputs ≡ ok made
      → (basic_auth_for r inputs ≡ ok (made.0).basic_auth)
        × ((m : Mtls) × (mtls_for r inputs ≡ ok m) × ((made.0).mtls ≡ some m))
  unfolding inline_auth
  inline_auth-parts r inputs {made} h =
      let a = r.annotations in
      let (sso, _, h₁) = >>=-eq-ok (sso_for a) _ h in
      let (_, _, h₂) = >>=-eq-ok (refuse_idle_grants sso a) _ h₁ in
      let (roles, _, h₃) = >>=-eq-ok (grant_list a Annotation.roles) _ h₂ in
      let (users, _, h₄) = >>=-eq-ok (grant_list a Annotation.users) _ h₃ in
      let (basic, b, h₅) = >>=-eq-ok (basic_auth_for r inputs) _ h₄ in
      let (pin, _, h₆) = >>=-eq-ok (pincode_for a) _ h₅ in
      let (white, _, h₇) = >>=-eq-ok (email_whitelist_for a) _ h₆ in
      let (m, c, h₈) = >>=-eq-ok (mtls_for r inputs) _ h₇ in
      let (rules, _, h₉) = >>=-eq-ok (rules_for decode a) _ h₈ in
      let e = ok-injective h₉ in
      (
        b ∙ ap (λ (x : Auth × List Rule). ok ((x.0).basic_auth)) e,
        (m, c, ap (λ (x : Auth × List Rule). (x.0).mtls) (sym e)),
      )

  -- A public route's auth and rules come from the inline annotations where it names no policy.
  public_resource-inline :
      (r : HttpRoute) (inputs : Inputs) (policies : Map NamespacedName ResourceVerdict)
      (d : Destination) {p : PublicResource}
      → public_resource decode r inputs policies d ≡ ok p
      → p.policy ≡ ""
      → (made : Auth × List Rule) × (inline_auth decode r inputs ≡ ok made)
        × (p.auth ≡ some (made.0))
  unfolding public_resource auth_for
  public_resource-inline r inputs policies d {p} h none_named =
      let (policy, _, h₁) = >>=-eq-ok (policy_for r inputs policies) _ h in
      let (made, b, h₂) = >>=-eq-ok (auth_for decode r inputs policy) _ h₁ in
      let (check, _, h₃) = >>=-eq-ok (healthcheck_for r.annotations (target_of decode d)) _ h₂ in
      let e = ok-injective h₃ in
      let unnamed : policy ≡ "" = ap (λ (x : PublicResource). x.policy) e ∙ none_named in
      let test : (policy == "") ≡ true = rw unnamed refl in
      (made, rw (test, auth_for) at b, ap (λ (x : PublicResource). x.auth) (sym e))

  public_resource-policy :
      (r : HttpRoute) (inputs : Inputs) (policies : Map NamespacedName ResourceVerdict)
      (d : Destination) {p : PublicResource}
      → public_resource decode r inputs policies d ≡ ok p
      → (policy : String) × (policy_for r inputs policies ≡ ok policy) × (policy ≡ p.policy)
  unfolding public_resource
  public_resource-policy r inputs policies d {p} h =
      let (policy, named, h₁) = >>=-eq-ok (policy_for r inputs policies) _ h in
      let (made, b, h₂) = >>=-eq-ok (auth_for decode r inputs policy) _ h₁ in
      let (check, _, h₃) = >>=-eq-ok (healthcheck_for r.annotations (target_of decode d)) _ h₂ in
      (policy, named, ap (λ (x : PublicResource). x.policy) (ok-injective h₃))

  policy_for-unlicensed :
      (r : HttpRoute) (inputs : Inputs) (policies : Map NamespacedName ResourceVerdict)
      {policy : String}
      → inputs.licensed ≡ false
      → policy_for r inputs policies ≡ ok policy
      → policy ≡ ""
  unfolding policy_for
  policy_for-unlicensed r inputs policies {policy} unlicensed h =
      elim (Bool-cases (trim_space (value_of r.annotations Annotation.policy) == "")) [
        | inl blank ↦ sym (ok-injective (rw (blank, policy_for) at h))
        | inr named ↦ absurd (let q = rw (named, unlicensed, policy_for) at h in cc)
      ]

  -- A public entry is the public resource of a destination.
  entry_for-public :
      (r : HttpRoute) (inputs : Inputs) (policies : Map NamespacedName ResourceVerdict)
      (d : Destination) (v : Visibility) {entry : Rendered} {p : PublicResource}
      → entry_for decode r inputs policies d v ≡ ok entry
      → entry.public ≡ some p
      → public_resource decode r inputs policies d ≡ ok p
  unfolding entry_for
  entry_for-public r inputs policies d private_route {entry} h q =
      let (made, _, h₁) = >>=-eq-ok (private_resource r inputs d) _ h in
      let e = ap (λ (x : Rendered). x.public) (ok-injective h₁) ∙ q in absurd (cc)
  entry_for-public r inputs policies d public_route {entry} {p} h q =
      let (made, b, h₁) = >>=-eq-ok (public_resource decode r inputs policies d) _ h in
      let e : some made ≡ some p = ap (λ (x : Rendered). x.public) (ok-injective h₁) ∙ q in
      let f : made ≡ p = cc in b ∙ ap ok f

  translate-public :
      (r : HttpRoute) (inputs : Inputs) (policies : Map NamespacedName ResourceVerdict)
      {entry : Rendered} {p : PublicResource}
      → translate decode r inputs policies ≡ ok entry
      → entry.public ≡ some p
      → (d : Destination) × (public_resource decode r inputs policies d ≡ ok p)
  unfolding translate
  translate-public r inputs policies h q =
      let (d, _, h₁) = >>=-eq-ok (destination_of r inputs) _ h in
      let (v, _, h₂) = >>=-eq-ok (supported (visibility_for r.annotations)) _ h₁ in
      (d, entry_for-public r inputs policies d v (supported-eq-ok _ h₂) q)

  -- A route that asks for basic auth and names no policy is published publicly only behind the
  -- credentials that the reconciler resolved for it.
  pub translate-basic_auth :
      (r : HttpRoute) (inputs : Inputs) (policies : Map NamespacedName ResourceVerdict)
      {entry : Rendered} {p : PublicResource}
      → translate decode r inputs policies ≡ ok entry
      → entry.public ≡ some p
      → p.policy ≡ ""
      → basic_auth_requested r ≡ ok true
      → (auth : Auth) × (found : BasicAuthResult) × (c : BasicAuth) × (p.auth ≡ some auth)
        × (lookup (name_of r) inputs.basic_auth ≡ some found)
        × (found.credentials ≡ some c)
        × (auth.basic_auth ≡ some (record c { extended_compatibility = true }))
  translate-basic_auth r inputs policies h q none_named asked =
      let (d, made_p) = translate-public r inputs policies h q in
      let (made, inline, auth) = public_resource-inline r inputs policies d made_p none_named in
      let (basic, _) = inline_auth-parts r inputs inline in
      let (found, c, there, given, same) = basic_auth_for-given r inputs asked basic in
      (made.0, found, c, auth, there, given, same)

  -- A route that asks for client certificates and names no policy is published publicly only with
  -- the check switched on, against the CA set that the reconciler resolved for it, which is not
  -- empty.
  pub translate-mtls :
      (r : HttpRoute) (inputs : Inputs) (policies : Map NamespacedName ResourceVerdict)
      {entry : Rendered} {p : PublicResource}
      → translate decode r inputs policies ≡ ok entry
      → entry.public ≡ some p
      → p.policy ≡ ""
      → mtls_requested r ≡ true
      → (auth : Auth) × (m : Mtls) × (found : MtlsResult) × (p.auth ≡ some auth)
        × (auth.mtls ≡ some m)
        × (m.enabled ≡ true)
        × (lookup (name_of r) inputs.mtls ≡ some found)
        × (m.ca_certificates ≡ found.ca_certificates)
        × (m.ca_certificates ≢ [])
  translate-mtls r inputs policies h q none_named asked =
      let (d, made_p) = translate-public r inputs policies h q in
      let (made, inline, auth) = public_resource-inline r inputs policies d made_p none_named in
      let (_, (m, given, there)) = inline_auth-parts r inputs inline in
      let (found, known, on, some_ca, same) = mtls_for-given r inputs asked given in
      (made.0, m, found, auth, there, on, known, same, some_ca)

  -- Without a licence no public route refers to a policy.
  pub translate-unlicensed :
      (r : HttpRoute) (inputs : Inputs) (policies : Map NamespacedName ResourceVerdict)
      {entry : Rendered} {p : PublicResource}
      → inputs.licensed ≡ false
      → translate decode r inputs policies ≡ ok entry
      → entry.public ≡ some p
      → p.policy ≡ ""
  translate-unlicensed r inputs policies {entry} {p} unlicensed h q =
      let (d, made_p) = translate-public r inputs policies h q in
      let (policy, named, same) = public_resource-policy r inputs policies d made_p in
      sym same ∙ policy_for-unlicensed r inputs policies unlicensed named
