-- ===== src/Publisher/Succeeds.antt =====
-- internal/controller/publisher.go: what a pass of Reconcile that reports success has done.
use pangolin_gateway.Prelude.{
  Bool, List, Option, Result, String, [], err, none, ok, ok-injective, refl, some, sym, ◌∙◌, ◌∷◌,
  ◌≡◌, subst,
}
use pangolin_gateway.Api.{Condition, NamespacedName}
use pangolin_gateway.Certificates.{Pem}
use pangolin_gateway.Effect.{after-eq-ok, failure}
use pangolin_gateway.Inputs.{Inputs}
use pangolin_gateway.Map.{Map}
use pangolin_gateway.Prelude.Int.{ℤ}
use pangolin_gateway.Prune.{Pass, join_errors}
use pangolin_gateway.Publisher.{ClusterApi, PangolinApi, Publisher, in_pass, resync_interval}
use pangolin_gateway.Publisher.Reconcile.{
  after_apply, conclude, finish, read_inputs, reconcile, tally, write_statuses,
}
use pangolin_gateway.Render.{Rendering, render_all}
use pangolin_gateway.Rules.{RuleSpec}
use pangolin_gateway.Verdict.{Verdict}

joined_none :
    (a b c : Option String)
    → join_errors (a ∷ b ∷ c ∷ []) ≡ none
    → (a ≡ none) × (b ≡ none) × (c ≡ none)
unfolding join_errors
joined_none none none none h = (refl, refl, refl)
joined_none none none (some e) h = cc
joined_none none (some e) c h = cc
joined_none (some e) b c h = cc

failure-eq-none : {A : Type 0} (r : Result String A) → failure r ≡ none → (a : A) × (r ≡ ok a)
failure-eq-none (ok a) h = (a, refl)
failure-eq-none (err e) h = cc

module _ {W : Type 0} (cluster : ClusterApi W) (pangolin : PangolinApi W) (p : Publisher)
    (pem : Pem) (fingerprint_of : String → String)
    (set_condition : List Condition → Condition → List Condition × Bool)
    (decode : String → Result String (List RuleSpec)) where
  finish-eq-ok :
      (errors : Option String) (t : Pass W) {due : ℤ}
      → (finish cluster pangolin p pem fingerprint_of set_condition decode errors t).0 ≡ ok due
      → (errors ≡ none) × (due ≡ resync_interval p)
  finish-eq-ok none t h = (refl, sym (ok-injective h))
  finish-eq-ok (some e) t h = cc

  conclude-eq-ok :
      (inputs : Inputs) (result : Rendering) (applied : Result String (Unit {0})) (t : Pass W)
      {due : ℤ}
      → (conclude cluster pangolin p pem fingerprint_of set_condition decode inputs result applied
          t).0
        ≡ ok due
      → (failure applied ≡ none)
        × (verdicts : Map NamespacedName Verdict) × ((after_apply pangolin p fingerprint_of result
              inputs.mtls
              (failure applied)
              t).0
            ≡ ok (verdicts, none))
        × (due ≡ resync_interval p)
  unfolding conclude
  conclude-eq-ok inputs result applied t h =
      let (published, made, h₁) =
        after-eq-ok (after_apply pangolin p fingerprint_of result inputs.mtls (failure applied) t) _
          h in
      let (status, written, h₂) =
        after-eq-ok
          (in_pass
            (write_statuses cluster pangolin p pem fingerprint_of set_condition decode inputs result
              (published.0) (failure applied))
            _)
          _ h₁ in
      let (clean, due) =
        finish-eq-ok (join_errors (failure applied ∷ published.1 ∷ status ∷ [])) _ h₂ in
      let (went, pruned, told) = joined_none (failure applied) (published.1) status clean in
      (went, published.0, made ∙ (λ i. ok (published.0, pruned i)), due)

  -- Everything was read, Pangolin accepted the blueprint of the whole render, and what follows an
  -- apply, confirmation and prune included, reported no error.
  abbrev pub Succeeded : Pass W → ℤ → Type 0
  Succeeded s due =
      let read = read_inputs cluster pangolin p pem fingerprint_of set_condition decode s.world in
      (inputs : Inputs) × (read.0 ≡ ok inputs)
      × ((pangolin.apply_blueprint (render_all decode inputs).blueprint (read.1)).0 ≡ ok tt)
      × (t : Pass W) × (t.world
          ≡ (pangolin.apply_blueprint (render_all decode inputs).blueprint (read.1)).1)
      × (verdicts : Map NamespacedName Verdict) × ((after_apply pangolin p fingerprint_of
            (render_all decode inputs) inputs.mtls none t).0
          ≡ ok (verdicts, none))
      × (due ≡ resync_interval p)

  -- A pass that reports success has read all its inputs, and Pangolin has accepted the blueprint of
  -- their whole render; the confirmation and the prune after it reported no error. The next pass is
  -- due after the resync interval.
  pub reconcile-Succeeded :
      (s : Pass W) {due : ℤ}
      → (reconcile cluster pangolin p pem fingerprint_of set_condition decode s).0 ≡ ok due
      → Succeeded s due
  unfolding reconcile
  reconcile-Succeeded s h =
      let (inputs, read, h₁) =
        after-eq-ok
          (in_pass (read_inputs cluster pangolin p pem fingerprint_of set_condition decode) s) _
          h in
      let result = render_all decode inputs in
      let apply = in_pass (pangolin.apply_blueprint result.blueprint) in
      let before =
        (tally result (record s {
          world =
              (read_inputs cluster pangolin p pem fingerprint_of set_condition decode s.world).1;
        })).1 in
      let t = (apply before).1 in
      let (went, verdicts, made, due) = conclude-eq-ok inputs result ((apply before).0) t h₁ in
      let (_, applied) = failure-eq-none ((apply before).0) went in
      (
        inputs,
        read,
        applied,
        t,
        refl,
        verdicts,
        subst
            (λ e.
              (after_apply pangolin p fingerprint_of result inputs.mtls e t).0
              ≡ ok (verdicts, none))
            went made,
        due,
      )
