-- ===== src/Prune/Safety.antt =====
-- What a prune leaves in the table of a section.
use mathlib.Core.List.{Memᴰ}
use pangolin_gateway.Prelude.{
  Bool, Bool-cases, List, Option, String, [], ap, arith, false, inl, inr, none, refl, some, subst,
  sym, true, ℕ, ◌++◌, ◌∙◌, ◌∷◌, ◌≡◌, ◌≢◌, ◌⊎◌, Memᴰ-cons_elim, All, All-append, if◌then◌else◌,
  string_eq, nat_eq,
}
use pangolin_gateway.Blueprint.{Resource}
use pangolin_gateway.Prune.{Pass, SectionApi, after_delete, prune_rows}
use pangolin_gateway.Prune.Server.{Server, without, Memᴰ-without, without-Memᴰ}

module _ {W : Type 0} (api : SectionApi W) (server : Server api) (visibility : String)
    (orphan : Resource → Bool) (tolerate : Bool) where
  abbrev pub step : ℕ → Pass W → Pass W × List (Option String)
  step id p = after_delete visibility orphan tolerate api.del (api.del id p.world) p.metrics

  abbrev pub run : List Resource → Pass W → Pass W × List (Option String)
  run rs p = prune_rows visibility orphan tolerate api.del rs p

  -- One deletion takes the row out, or reports a failure (unless failures are tolerated) and leaves
  -- the table as it was.
  rows-step :
      (id : ℕ) (p : Pass W)
      → (server.rows (step id p).0.world ≡ without id (server.rows p.world))
        ⊎ ((server.rows (step id p).0.world ≡ server.rows p.world)
            × (tolerate ≡ false → (step id p).1 ≢ []))
  rows-step id p = go (api.del id p.world) refl
    where
      go :
          (d : Option String × W)
          → api.del id p.world ≡ d
          → (server.rows (after_delete visibility orphan tolerate api.del d p.metrics).0.world
              ≡ without id (server.rows p.world))
            ⊎ ((server.rows (after_delete visibility orphan tolerate api.del d p.metrics).0.world
                  ≡ server.rows p.world)
                × (tolerate ≡ false
                    → (after_delete visibility orphan tolerate api.del d p.metrics).1 ≢ []))
      go (none, w) e = inl (
          ap (λ (x : Option String × W). server.rows x.1) (sym e)
          ∙ server.deletes id p.world (ap (λ (x : Option String × W). x.0) e))
      go (some m, w) e = inr (
        ap (λ (x : Option String × W). server.rows x.1) (sym e)
            ∙ server.refuses id p.world m (ap (λ (x : Option String × W). x.0) e),
        λ t q. ground arith,
      )

  step-keeps :
      (id : ℕ) (p : Pass W) (r : Resource)
      → r.resource_id ≢ id
      → Memᴰ r (server.rows p.world)
      → Memᴰ r (server.rows (step id p).0.world)
  step-keeps id p r h m = elim (rows-step id p) [
    | inl e ↦ subst (Memᴰ r) (sym e) (without-Memᴰ id r (server.rows p.world) m h)
    | inr (e, _) ↦ subst (Memᴰ r) (sym e) m
  ]

  step-shrinks :
      (id : ℕ) (p : Pass W) (r : Resource)
      → Memᴰ r (server.rows (step id p).0.world)
      → Memᴰ r (server.rows p.world) × (tolerate ≡ false → (step id p).1 ≡ [] → r.resource_id ≢ id)
  step-shrinks id p r m = elim (rows-step id p) [
    | inl e ↦
        let (n, h) = Memᴰ-without id r (server.rows p.world) (subst (Memᴰ r) e m) in (n, λ _ _. h)
    | inr (e, f) ↦ (subst (Memᴰ r) e m, λ t none_failed. absurd (f t none_failed))
  ]

  -- A row that shares its number with no orphan of the listing stays.
  pub run-keeps :
      (rs : List Resource) (p : Pass W) (r : Resource)
      → ((x : Resource) → Memᴰ x rs → orphan x ≡ true → r.resource_id ≢ x.resource_id)
      → Memᴰ r (server.rows p.world)
      → Memᴰ r (server.rows (run rs p).0.world)
  unfolding prune_rows
  run-keeps [] p r safe m = m
  run-keeps (x ∷ xs) p r safe m = elim (Bool-cases (orphan x)) [
    | inl yes_orphan ↦ rw yes_orphan (
        run-keeps xs (step x.resource_id p).0 r (λ y n. safe y (Memᴰ.tail n))
          (step-keeps x.resource_id p r (safe x (Memᴰ.head refl) yes_orphan) m))
    | inr not_orphan ↦ rw not_orphan (run-keeps xs p r (λ y n. safe y (Memᴰ.tail n)) m)
  ]

  append-eq-nil : (xs ys : List (Option String)) → xs ++ ys ≡ [] → (xs ≡ []) × (ys ≡ [])
  append-eq-nil [] ys h = (refl, h)
  append-eq-nil (x ∷ xs) ys h = absurd (cc)

  -- Without a failure nothing is left that shares its number with an orphan of the listing, and
  -- nothing new appears.
  pub run-removes :
      (rs : List Resource) (p : Pass W) (r : Resource)
      → tolerate ≡ false
      → (run rs p).1 ≡ []
      → Memᴰ r (server.rows (run rs p).0.world)
      → Memᴰ r (server.rows p.world)
        × ((x : Resource) → Memᴰ x rs → orphan x ≡ true → r.resource_id ≢ x.resource_id)
  unfolding prune_rows
  run-removes [] p r t f m = (m, λ x n. elim n [ ])
  run-removes (x ∷ xs) p r t f m = elim (Bool-cases (orphan x)) [
    | inl yes_orphan ↦
        let (clean, later) =
          append-eq-nil (step x.resource_id p).1 (run xs (step x.resource_id p).0).1
            (rw (yes_orphan, prune_rows) at f) in
        let (n, gone) =
          run-removes xs (step x.resource_id p).0 r t later (rw (yes_orphan, prune_rows) at m) in
        let (k, differs) = step-shrinks x.resource_id p r n in
        (
          k,
          Memᴰ-cons_elim (λ z. orphan z ≡ true → r.resource_id ≢ z.resource_id) x xs
              (λ _. differs t clean) gone,
        )
    | inr not_orphan ↦
        let (n, gone) =
          run-removes xs p r t (rw (not_orphan, prune_rows) at f)
            (rw (not_orphan, prune_rows) at m) in
        (
          n,
          Memᴰ-cons_elim (λ z. orphan z ≡ true → r.resource_id ≢ z.resource_id) x xs
              (λ o. absurd (let e : true ≡ false = sym o ∙ not_orphan in cc)) gone,
        )
  ]

  step-reports : (id : ℕ) (p : Pass W) → All (λ o. o ≢ none) (step id p).1
  step-reports id p = go (api.del id p.world)
    where
      go :
          (d : Option String × W)
          → All (λ o. o ≢ none) (after_delete visibility orphan tolerate api.del d p.metrics).1
      go (none, w) = tt
      go (some m, w) = elim tolerate as (λ b. All (λ o. o ≢ none) (if b then [] else some m ∷ [])) [
        | true ↦ tt
        | false ↦ ((λ e. cc), tt)
      ]

  -- What is reported is a failure.
  pub run-reports : (rs : List Resource) (p : Pass W) → All (λ o. o ≢ none) (run rs p).1
  unfolding prune_rows
  run-reports [] p = tt
  run-reports (x ∷ xs) p = elim (Bool-cases (orphan x)) [
    | inl yes_orphan ↦ rw yes_orphan (
        All-append _ (step x.resource_id p).1 _ (step-reports x.resource_id p)
          (run-reports xs (step x.resource_id p).0))
    | inr not_orphan ↦ rw not_orphan (run-reports xs p)
  ]
