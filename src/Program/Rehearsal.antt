-- ===== src/Program/Rehearsal.antt =====
-- cmd/main.go: what a program that was started with --dry-run does to Pangolin.
use pangolin_gateway.Prelude.{
  Bool, Bool-cases, List, Option, Result, String, err, inl, inr, none, ok, some, true, ℕ, ◌==◌, ◌≡◌,
  refl, ◌∙◌, string_eq, ap, subst, sym,
}
use pangolin_gateway.Api.{Condition}
use pangolin_gateway.Certificates.{Pem}
use pangolin_gateway.Client.{Codec, Http, HttpClient, Url, new_http_client}
use pangolin_gateway.Client.Quiet.{GetsKeep, dry_client-PangolinKeeps}
use pangolin_gateway.Program.{
  Flags, Setup, assembled, client_of, client_options, controller_options, opened, publisher_of,
  start, step,
}
use pangolin_gateway.Prune.{Pass}
use pangolin_gateway.Publisher.{ClusterApi, PangolinApi, Publisher}
use pangolin_gateway.Publisher.Keeping.{ClusterKeeps}
use pangolin_gateway.Publisher.Reconcile.{reconcile}
use pangolin_gateway.Publisher.Whole.{PangolinKeeps, reconcile-Keeps}
use pangolin_gateway.Rules.{RuleSpec}

step-ok :
    {A : Type 0} (failing : Option String) (next : Result String A) {a : A}
    → step failing next ≡ ok a
    → next ≡ ok a
step-ok none next h = h
step-ok (some e) next h = absurd (cc)

module _ {W : Type 0} (http : Http W) (codec : Codec) (pages : ℕ) where
  assembled-ok :
      (setup : Setup) (f : Flags) (c : HttpClient) {r : Publisher × PangolinApi W}
      → assembled http codec pages setup f c ≡ ok r
      → ◌≡◌ {A = Result String (Publisher × PangolinApi W)}
          (ok (publisher_of f, client_of http codec pages f.dry_run c))
          (ok r)
  assembled-ok setup f c h =
      let last : Result String (Publisher × PangolinApi W) =
        ok (publisher_of f, client_of http codec pages f.dry_run c) in
      let controlled = step (setup.adds_controller (publisher_of f)) last in
      let ready = step setup.adds_readyz controlled in
      let healthy = step setup.adds_healthz ready in
      step-ok (setup.adds_controller (publisher_of f)) last (
        step-ok setup.adds_readyz controlled (
          step-ok setup.adds_healthz ready
            (step-ok (setup.creates (controller_options f.config)) healthy h)))

  -- A program that starts has a client that was accepted, and the publisher of its flags.
  pub start-ok :
      (parse_url : String → Result String Url) (setup : Setup) (f : Flags) (p : Publisher)
      (pangolin : PangolinApi W)
      → start http codec pages parse_url setup f ≡ ok (p, pangolin)
      → (c : HttpClient) × (new_http_client parse_url (client_options f) ≡ ok c)
        × (p ≡ publisher_of f)
        × (pangolin ≡ client_of http codec pages f.dry_run c)
  unfolding start
  start-ok parse_url setup f p pangolin h = elim (Bool-cases (f.default_site == "")) [
    | inl missing ↦ absurd (let q = rw (missing, start) at h in cc)
    | inr given ↦ go (new_http_client parse_url (client_options f)) refl (rw (given, start) at h)
  ]
    where
      go :
          (made : Result String HttpClient)
          → new_http_client parse_url (client_options f) ≡ made
          → opened http codec pages setup f (new_http_client parse_url (client_options f))
            ≡ ok (p, pangolin)
          → (c : HttpClient) × (new_http_client parse_url (client_options f) ≡ ok c)
            × (p ≡ publisher_of f)
            × (pangolin ≡ client_of http codec pages f.dry_run c)
      go (err e) q k = absurd (let r = rw q at k in cc)
      go (ok c) q k = let done = assembled-ok setup f c (rw q at k) in (c, q, cc, cc)

  -- A pass of a program that was started with --dry-run keeps whatever the calls of the cluster and
  -- GET requests keep: whatever the flags and the state, it sends no other request to Pangolin.
  pub dry_run_keeps :
      (Kept : W → Type 0) (parse_url : String → Result String Url) (setup : Setup) (f : Flags)
      (p : Publisher) (pangolin : PangolinApi W) (cluster : ClusterApi W) (pem : Pem)
      (fingerprint_of : String → String)
      (set_condition : List Condition → Condition → List Condition × Bool)
      (decode : String → Result String (List RuleSpec)) (s : Pass W)
      → start http codec pages parse_url setup f ≡ ok (p, pangolin)
      → f.dry_run ≡ true
      → ClusterKeeps Kept cluster
      → GetsKeep Kept http
      → Kept s.world
      → Kept (reconcile cluster pangolin p pem fingerprint_of set_condition decode s).1.world
  dry_run_keeps Kept parse_url setup f p pangolin cluster pem fingerprint_of set_condition decode s
        h dry calls gets k =
      let (c, _, _, q) = start-ok parse_url setup f p pangolin h in
      let quiet : PangolinKeeps Kept pangolin =
        subst (PangolinKeeps Kept) (sym (q ∙ ap (λ d. client_of http codec pages d c) dry))
          (dry_client-PangolinKeeps Kept http codec c gets pages) in
      let all =
        reconcile-Keeps Kept cluster pangolin p pem fingerprint_of set_condition decode calls
          quiet in
      all.keeps s k
