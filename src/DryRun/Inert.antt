-- ===== src/DryRun/Inert.antt =====
-- internal/pangolin/dryrun.go: what a dry run leaves of Pangolin.
use pangolin_gateway.Prelude.{
  Bool, Bool-cases, List, Result, String, [], err, false, inl, inr, none, ok, refl, true, ◌∙◌, ◌∷◌,
  ◌≡◌,
}
use pangolin_gateway.Blueprint.{Blueprint, Resource}
use pangolin_gateway.DryRun.{dry_run, dry_section}
use pangolin_gateway.Map.{Map}
use pangolin_gateway.Prune.{prune, prune_section, prune_rows, Pass, SectionApi}
use pangolin_gateway.Publisher.{PangolinApi}

module _ {W : Type 0} where
  -- A listing that changes nothing.
  abbrev pub Reads : SectionApi W → Type 0
  Reads api = (w : W) → (api.list w).1 ≡ w

  rows-inert :
      (visibility : String) (orphan : Resource → Bool) (tolerate : Bool) (rows : List Resource)
      (p : Pass W)
      → (prune_rows visibility orphan tolerate (λ id w. (none, w)) rows p).0.world ≡ p.world
  unfolding prune_rows
  rows-inert visibility orphan tolerate [] p = refl
  rows-inert visibility orphan tolerate (r ∷ rs) p = elim (Bool-cases (orphan r)) [
    | inl yes_orphan ↦ rw yes_orphan (rows-inert visibility orphan tolerate rs _)
    | inr not_orphan ↦ rw not_orphan (rows-inert visibility orphan tolerate rs p)
  ]

  section-inert :
      {T : Type 0} (visibility : String) (desired : Map String T) (api : SectionApi W)
      (tolerate : Bool) (p : Pass W)
      → Reads api
      → (prune_section visibility desired (dry_section api) tolerate p).0.world ≡ p.world
  unfolding prune_section
  section-inert visibility desired api tolerate p reads = go ((api.list p.world).0) refl
    where
      go :
          (l : Result String (List Resource))
          → (api.list p.world).0 ≡ l
          → (prune_section visibility desired (dry_section api) tolerate p).0.world ≡ p.world
      go (err e) q = rw (q, prune_section) (reads p.world)
      go (ok live) q =
          rw (q, prune_section) (rows-inert visibility _ tolerate live _ ∙ reads p.world)

  -- Under the dry run a prune changes nothing, if the listings change nothing.
  pub prune-dry_run :
      (inner : PangolinApi W) (licensed : Bool) (desired : Blueprint) (p : Pass W)
      → Reads inner.public_section
      → Reads inner.private_section
      → Reads inner.policy_section
      → (prune
          (dry_run inner).public_section
          (dry_run inner).private_section
          (dry_run inner).policy_section
          licensed
          desired
          p).0.world
        ≡ p.world
  unfolding prune dry_run
  prune-dry_run inner true desired p a b c =
      section-inert _ _ inner.policy_section true _ c
      ∙ section-inert _ _ inner.private_section false _ b
      ∙ section-inert _ _ inner.public_section false _ a
  prune-dry_run inner false desired p a b c =
      section-inert _ _ inner.private_section false _ b
      ∙ section-inert _ _ inner.public_section false _ a
