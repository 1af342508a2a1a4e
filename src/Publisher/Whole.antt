-- ===== src/Publisher/Whole.antt =====
-- internal/controller/publisher.go: a pass of Reconcile keeps what all its calls keep.
use pangolin_gateway.Prelude.{
  Bool, Bool-cases, List, Option, Result, String, [], err, false, if◌then◌else◌, inl, inr, none, ok,
  refl, some, string_eq, true, ℕ, ◌∷◌, ◌≡◌,
}
use pangolin_gateway.Api.{Condition, NamespacedName, name_eq}
use pangolin_gateway.Blueprint.{Blueprint, Resource}
use pangolin_gateway.Certificates.{Pem}
use pangolin_gateway.Effect.{failure, pure, ◌>>=◌}
use pangolin_gateway.Effect.Keeping.{Keeps, attempt-Keeps, pure-Keeps, >>=-Keeps}
use pangolin_gateway.Inputs.{Inputs, MtlsResult}
use pangolin_gateway.Map.{Map, lookup}
use pangolin_gateway.Prune.{
  Pass, SectionApi, join_errors, is_orphan, prune, prune_rows, prune_section, after_delete,
}
use pangolin_gateway.Publisher.{ClusterApi, PangolinApi, Publisher, mark_dry_run}
use pangolin_gateway.Publisher.Keeping.{
  ClusterKeeps, ListingsKeep, PassKept, finish-Keeps, in_pass-Keeps, read_inputs-Keeps,
  skip_prune-kept, tally-Keeps, write_statuses-Keeps,
}
use pangolin_gateway.Publisher.Reconcile.{after_apply, conclude, confirm, pruned, reconcile}
use pangolin_gateway.Publisher.Verify.{
  confirmed, mark_mtls_not_applied, not_effective, not_listed, resource_ids, verify_mtls,
  verify_resource, verify_sets, wanted_sets,
}
use pangolin_gateway.Render.{Rendering, render_all}
use pangolin_gateway.Rules.{RuleSpec}
use pangolin_gateway.Verdict.{Verdict}

-- The two calls of a section keep it.
pub record SectionKeeps {W : Type 0} (Kept : W → Type 0) (api : SectionApi W) : Type 0 where
  pub lists : Keeps Kept api.list
  pub deletes : (id : ℕ) (w : W) → Kept w → Kept (api.del id w).1

-- The calls of Pangolin keep it.
pub record PangolinKeeps {W : Type 0} (Kept : W → Type 0) (pangolin : PangolinApi W) : Type 0 where
  pub listings : ListingsKeep Kept pangolin
  pub applies : (bp : Blueprint) → Keeps Kept (pangolin.apply_blueprint bp)
  pub publics : SectionKeeps Kept pangolin.public_section
  pub privates : SectionKeeps Kept pangolin.private_section
  pub policies : SectionKeeps Kept pangolin.policy_section
  pub lists_certificates : (id : ℕ) → Keeps Kept (pangolin.list_certificates id)

module _ {W : Type 0} (Kept : W → Type 0) where
  after_delete-kept :
      (visibility : String) (orphan : Resource → Bool) (tolerate : Bool)
      (del : ℕ → W → Option String × W) (made : Option String × W) (ms : List _)
      → Kept made.1
      → Kept (after_delete visibility orphan tolerate del made ms).0.world
  after_delete-kept visibility orphan tolerate del (none, w) ms h = h
  after_delete-kept visibility orphan tolerate del (some e, w) ms h = h

  prune_rows-kept :
      (visibility : String) (orphan : Resource → Bool) (tolerate : Bool) (api : SectionApi W)
      (calls : SectionKeeps Kept api) (rows : List Resource) (s : Pass W)
      → Kept s.world
      → Kept (prune_rows visibility orphan tolerate api.del rows s).0.world
  unfolding prune_rows
  prune_rows-kept visibility orphan tolerate api calls [] s h = h
  prune_rows-kept visibility orphan tolerate api calls (r ∷ rs) s h = elim (Bool-cases (orphan r)) [
    | inl gone ↦ rw gone (
        prune_rows-kept visibility orphan tolerate api calls rs _ (
          after_delete-kept visibility orphan tolerate api.del _ s.metrics
            (calls.deletes r.resource_id s.world h)))
    | inr stays ↦ rw stays (prune_rows-kept visibility orphan tolerate api calls rs s h)
  ]

  prune_section-kept :
      {T : Type 0} (visibility : String) (desired : Map String T) (api : SectionApi W)
      (tolerate : Bool) (calls : SectionKeeps Kept api) (s : Pass W)
      → Kept s.world
      → Kept (prune_section visibility desired api tolerate s).0.world
  unfolding prune_section
  prune_section-kept visibility desired api tolerate calls s h =
      go ((api.list s.world).0) refl (calls.lists.keeps s.world h)
    where
      go :
          (listed : Result String (List Resource))
          → (api.list s.world).0 ≡ listed
          → Kept (api.list s.world).1
          → Kept (prune_section visibility desired api tolerate s).0.world
      go (err e) q k = rw (q, prune_section) k
      go (ok live) q k =
          rw (q, prune_section)
            (prune_rows-kept visibility (is_orphan desired) tolerate api calls live
              (record s { world = (api.list s.world).1 }) k)

  module _ (pangolin : PangolinApi W) (calls : PangolinKeeps Kept pangolin) where
    prune-kept :
        (licensed : Bool) (bp : Blueprint) (s : Pass W)
        → Kept s.world
        → Kept
            (prune pangolin.public_section pangolin.private_section pangolin.policy_section licensed
              bp s).0.world
    unfolding prune
    prune-kept true bp s h =
        prune_section-kept "policy" bp.public_policies _ true calls.policies _ (
          prune_section-kept "private" bp.private_resources _ false calls.privates _
            (prune_section-kept "public" bp.public_resources _ false calls.publics s h))
    prune-kept false bp s h =
        prune_section-kept "private" bp.private_resources _ false calls.privates _
          (prune_section-kept "public" bp.public_resources _ false calls.publics s h)

    verify_sets-Keeps :
        (listed : Result String (List Resource))
        (sets : List (NamespacedName × String × List String))
        (verdicts : Map NamespacedName Verdict)
        → Keeps Kept (verify_sets pangolin listed sets verdicts)
    unfolding verify_sets verify_resource
    verify_sets-Keeps listed [] verdicts = pure-Keeps verdicts
    verify_sets-Keeps (err e) ((name, key, want) ∷ sets) verdicts =
        verify_sets-Keeps (err e) sets (mark_mtls_not_applied verdicts name not_listed)
    verify_sets-Keeps (ok rows) ((name, key, want) ∷ sets) verdicts =
        go (lookup key (resource_ids [] rows)) refl (verify_sets-Keeps (ok rows) sets)
      where
        go :
            (found : Option ℕ)
            → lookup key (resource_ids [] rows) ≡ found
            → ((vs : Map NamespacedName Verdict)
                → Keeps Kept (verify_sets pangolin (ok rows) sets vs))
            → Keeps Kept (verify_sets pangolin (ok rows) ((name, key, want) ∷ sets) verdicts)
        go none q later =
            rw (q, verify_sets) (later (mark_mtls_not_applied verdicts name not_listed))
        go (some id) q later =
            rw (q, verify_sets)
              (>>=-Keeps
                (>>=-Keeps (attempt-Keeps (calls.lists_certificates id)) (λ got. pure-Keeps (
                  if confirmed got want
                  then verdicts
                  else mark_mtls_not_applied verdicts name not_effective)))
                later)

    verify_mtls-Keeps :
        (fingerprint_of : String → String) (mtls : Map NamespacedName MtlsResult)
        (verdicts : Map NamespacedName Verdict)
        → Keeps Kept (verify_mtls pangolin fingerprint_of mtls verdicts)
    unfolding verify_mtls
    verify_mtls-Keeps fingerprint_of mtls verdicts =
        go (wanted_sets fingerprint_of mtls verdicts) refl
      where
        go :
            (sets : List (NamespacedName × String × List String))
            → wanted_sets fingerprint_of mtls verdicts ≡ sets
            → Keeps Kept (verify_mtls pangolin fingerprint_of mtls verdicts)
        go [] q = rw (q, verify_mtls) (pure-Keeps verdicts)
        go (set ∷ sets) q =
            rw (q, verify_mtls)
              (>>=-Keeps (attempt-Keeps calls.publics.lists)
                (λ listed. verify_sets-Keeps listed (set ∷ sets) verdicts))

    module _ (p : Publisher) (fingerprint_of : String → String) where
      confirm-Keeps :
          (dry : Bool) (mtls : Map NamespacedName MtlsResult)
          (verdicts : Map NamespacedName Verdict)
          → Keeps (PassKept Kept) (confirm pangolin p fingerprint_of dry mtls verdicts)
      confirm-Keeps true mtls verdicts = pure-Keeps (mark_dry_run verdicts)
      confirm-Keeps false mtls verdicts =
          in_pass-Keeps Kept (verify_mtls-Keeps fingerprint_of mtls verdicts)

      pruned-Keeps : (bp : Blueprint) → Keeps (PassKept Kept) (pruned pangolin p fingerprint_of bp)
      pruned-Keeps bp = record { keeps = λ s h. prune-kept p.licensed bp s h }

      -- What follows an apply that went through.
      published-Keeps :
          (result : Rendering) (mtls : Map NamespacedName MtlsResult)
          → Keeps (PassKept Kept) {A = Map NamespacedName Verdict × Option String} (
              confirm pangolin p fingerprint_of p.dry_run mtls result.routes >>= λ verdicts.
              pruned pangolin p fingerprint_of result.blueprint >>= λ error. pure (verdicts, error))
      published-Keeps result mtls =
          >>=-Keeps (confirm-Keeps p.dry_run mtls result.routes) (λ verdicts.
            >>=-Keeps (pruned-Keeps result.blueprint) (λ error. pure-Keeps (verdicts, error)))

      after_apply-Keeps :
          (result : Rendering) (mtls : Map NamespacedName MtlsResult) (e : Option String)
          → Keeps (PassKept Kept) (after_apply pangolin p fingerprint_of result mtls e)
      unfolding after_apply
      after_apply-Keeps result mtls (some e) = record {
        keeps = λ s h. skip_prune-kept Kept p.licensed _ h;
      }
      after_apply-Keeps result mtls none = record {
        keeps = λ s h. (published-Keeps result mtls).keeps _ h;
      }

module _ {W : Type 0} (Kept : W → Type 0) (cluster : ClusterApi W) (pangolin : PangolinApi W)
    (p : Publisher) (pem : Pem) (fingerprint_of : String → String)
    (set_condition : List Condition → Condition → List Condition × Bool)
    (decode : String → Result String (List RuleSpec)) (calls : ClusterKeeps Kept cluster)
    (requests : PangolinKeeps Kept pangolin) where
  conclude-Keeps :
      (inputs : Inputs) (result : Rendering) (applied : Result String (Unit {0}))
      → Keeps (PassKept Kept) (
          conclude cluster pangolin p pem fingerprint_of set_condition decode inputs result applied)
  unfolding conclude
  conclude-Keeps inputs result applied =
      >>=-Keeps
        (after_apply-Keeps Kept pangolin requests p fingerprint_of result inputs.mtls
          (failure applied))
        (λ verdicts.
          >>=-Keeps
            (in_pass-Keeps Kept (
              write_statuses-Keeps Kept cluster pangolin p pem fingerprint_of set_condition decode
                calls.updates inputs result (verdicts.0) (failure applied)))
            (λ status_error.
              finish-Keeps Kept cluster pangolin p pem fingerprint_of set_condition decode
                calls.cluster_reads requests.listings
                (join_errors (failure applied ∷ verdicts.1 ∷ status_error ∷ []))))

  -- A pass keeps what each of its calls keeps, whatever the calls give.
  pub reconcile-Keeps :
      Keeps (PassKept Kept) (reconcile cluster pangolin p pem fingerprint_of set_condition decode)
  unfolding reconcile
  reconcile-Keeps =
      >>=-Keeps
        (in_pass-Keeps Kept (
          read_inputs-Keeps Kept cluster pangolin p pem fingerprint_of set_condition decode
            calls.cluster_reads requests.listings))
        (λ inputs. >>=-Keeps (tally-Keeps Kept (render_all decode inputs)) (λ _.
          >>=-Keeps
            (attempt-Keeps
              (in_pass-Keeps Kept (requests.applies (render_all decode inputs).blueprint)))
            (conclude-Keeps inputs (render_all decode inputs))))
