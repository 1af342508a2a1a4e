-- ===== src/Publisher/Failed.antt =====
-- internal/controller/publisher.go: a pass of Reconcile whose apply fails.
use pangolin_gateway.Prelude.{Bool, List, Result, String, [], err, some, ◌∷◌, ◌≡◌}
use pangolin_gateway.Api.{Condition}
use pangolin_gateway.Blueprint.{Blueprint}
use pangolin_gateway.Certificates.{Pem}
use pangolin_gateway.Effect.Keeping.{Keeps, attempt_failed-Keeps, >>=-Keeps}
use pangolin_gateway.Inputs.{Inputs}
use pangolin_gateway.Prune.{Pass, join_errors}
use pangolin_gateway.Publisher.{ClusterApi, PangolinApi, Publisher}
use pangolin_gateway.Publisher.Keeping.{
  ClusterKeeps, ListingsKeep, PassKept, finish-Keeps, in_pass-Keeps, read_inputs-Keeps,
  skip_prune-kept, tally-Keeps, write_statuses-Keeps,
}
use pangolin_gateway.Publisher.Reconcile.{after_apply, conclude, reconcile}
use pangolin_gateway.Render.{Rendering, render_all}
use pangolin_gateway.Rules.{RuleSpec}

-- The listings of Pangolin that precede the apply keep it, and so does the apply, which fails.
pub record RefusesApply {W : Type 0} (Kept : W → Type 0) (pangolin : PangolinApi W) : Type 0 where
  pub listings : ListingsKeep Kept pangolin
  pub applies : (bp : Blueprint) → Keeps Kept (pangolin.apply_blueprint bp)
  pub refuses :
      (bp : Blueprint) (w : W) → (e : String) × ((pangolin.apply_blueprint bp w).0 ≡ err e)

module _ {W : Type 0} (Kept : W → Type 0) (cluster : ClusterApi W) (pangolin : PangolinApi W)
    (p : Publisher) (pem : Pem) (fingerprint_of : String → String)
    (set_condition : List Condition → Condition → List Condition × Bool)
    (decode : String → Result String (List RuleSpec)) (calls : ClusterKeeps Kept cluster)
    (refusal : RefusesApply Kept pangolin) where
  after_apply-Keeps :
      (result : Rendering) (mtls : _) (e : String)
      → Keeps (PassKept Kept) (after_apply pangolin p fingerprint_of result mtls (some e))
  unfolding after_apply
  after_apply-Keeps result mtls e = record { keeps = λ s h. skip_prune-kept Kept p.licensed _ h }

  conclude-Keeps :
      (inputs : Inputs) (result : Rendering) (e : String)
      → Keeps (PassKept Kept) (
          conclude cluster pangolin p pem fingerprint_of set_condition decode inputs result (err e))
  unfolding conclude
  conclude-Keeps inputs result e = >>=-Keeps (after_apply-Keeps result inputs.mtls e) (λ verdicts.
      >>=-Keeps
        (in_pass-Keeps Kept (
          write_statuses-Keeps Kept cluster pangolin p pem fingerprint_of set_condition decode
            calls.updates inputs result (verdicts.0) (some e)))
        (λ status_error.
          finish-Keeps Kept cluster pangolin p pem fingerprint_of set_condition decode
            calls.cluster_reads refusal.listings
            (join_errors (some e ∷ verdicts.1 ∷ status_error ∷ []))))

  -- A pass whose apply is refused keeps whatever the calls of the cluster, the listings of sites,
  -- machines and users, and the refused apply keep: it makes no other call of Pangolin, so that it
  -- deletes nothing, whatever a deletion does.
  pub reconcile_refused_keeps :
      (s : Pass W)
      → Kept s.world
      → Kept (reconcile cluster pangolin p pem fingerprint_of set_condition decode s).1.world
  unfolding reconcile
  reconcile_refused_keeps s h = all.keeps s h
    where
      all :
          Keeps
            (PassKept Kept)
            (reconcile cluster pangolin p pem fingerprint_of set_condition decode)
      all =
          >>=-Keeps
            (in_pass-Keeps Kept (
              read_inputs-Keeps Kept cluster pangolin p pem fingerprint_of set_condition decode
                calls.cluster_reads refusal.listings))
            (λ inputs. >>=-Keeps (tally-Keeps Kept (render_all decode inputs)) (λ _.
              attempt_failed-Keeps
                (conclude cluster pangolin p pem fingerprint_of set_condition decode inputs
                  (render_all decode inputs))
                (in_pass-Keeps Kept (refusal.applies (render_all decode inputs).blueprint))
                (λ t. refusal.refuses (render_all decode inputs).blueprint t.world)
                (conclude-Keeps inputs (render_all decode inputs))))
