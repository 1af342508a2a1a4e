-- ===== src/Prune/Guarantees.antt =====
-- The prune of one section, against the table that Pangolin holds.
use mathlib.Core.List.{Memᴰ}
use pangolin_gateway.Prelude.{
  All, Bool, Bool-cases, List, Option, Result, String, [], ap, err, false, inl, inr, none, ok, refl,
  some, subst, sym, true, ◌++◌, ◌∙◌, ◌∷◌, ◌≡◌, ◌≢◌, ◌⊎◌, string_eq, nat_eq,
}
use pangolin_gateway.Blueprint.{Resource}
use pangolin_gateway.Map.{Map, has_key}
use pangolin_gateway.Prune.{
  Pass, SectionApi, is_orphan, join_errors, present_errors, prune_section, prune_skipped_total,
}
use pangolin_gateway.Prune.Safety.{run, run-keeps, run-removes, run-reports}
use pangolin_gateway.Prune.Server.{Server, UniqueIds, unique_row}
use pangolin_gateway.Text.{has_prefix}

join_errors-none :
    (es : List (Option String)) → All (λ o. o ≢ none) es → join_errors es ≡ none → es ≡ []
unfolding join_errors present_errors
join_errors-none [] h e = refl
join_errors-none (none ∷ es) (h, _) e = absurd (h refl)
join_errors-none (some m ∷ es) h e = absurd (cc)

-- A resource that the prune has to leave alone: its key lacks the controller's prefix, or the
-- blueprint wants it.
abbrev pub IsKept : {T : Type 0} → Map String T → Resource → Type 0
IsKept desired r = (has_prefix r.nice_id "gw-" ≡ false) ⊎ (has_key r.nice_id desired ≡ true)

IsKept-no_orphan :
    {T : Type 0} (desired : Map String T) (r : Resource)
    → IsKept desired r
    → is_orphan desired r ≡ false
unfolding is_orphan
IsKept-no_orphan desired r (inl foreign) = rw foreign refl
IsKept-no_orphan desired r (inr wanted) = elim (Bool-cases (has_prefix r.nice_id "gw-")) [
  | inl ours ↦ rw (ours, wanted) refl
  | inr foreign ↦ rw foreign refl
]

IsKept-of_no_orphan :
    {T : Type 0} (desired : Map String T) (r : Resource)
    → is_orphan desired r ≡ false
    → IsKept desired r
unfolding is_orphan
IsKept-of_no_orphan desired r h = elim (Bool-cases (has_prefix r.nice_id "gw-")) [
  | inr foreign ↦ inl foreign
  | inl ours ↦ elim (Bool-cases (has_key r.nice_id desired)) [
    | inl wanted ↦ inr wanted
    | inr unwanted ↦ absurd (let q : true ≡ false = rw (ours, unwanted, is_orphan) at h in cc)
  ]
]

module _ {W T : Type 0} (api : SectionApi W) (server : Server api) (visibility : String)
    (desired : Map String T) (p : Pass W) where
  abbrev listed : Pass W
  listed = record p { world = (api.list p.world).1 }

  rows-listed : (server.rows listed.world) ≡ server.rows p.world
  rows-listed = server.list_reads p.world

  -- A row without the prefix, and one that is still wanted, stays, whether the listing or a deletion
  -- fails or not, if no two rows of the server share a number.
  pub prune_section-keeps :
      (tolerate : Bool) (r : Resource)
      → UniqueIds (server.rows p.world)
      → Memᴰ r (server.rows p.world)
      → IsKept desired r
      → Memᴰ r (server.rows (prune_section visibility desired api tolerate p).0.world)
  unfolding prune_section
  prune_section-keeps tolerate r unique m kept = go (api.list p.world).0 refl
    where
      safe :
          (live : List Resource)
          → (api.list p.world).0 ≡ ok live
          → (x : Resource) → Memᴰ x live
          → is_orphan desired x ≡ true
          → r.resource_id ≢ x.resource_id
      safe live e x n o same =
          let here : Memᴰ x (server.rows p.world) =
            subst (Memᴰ x) (server.list_shows p.world live e) n in
          let eq : r ≡ x = unique_row (server.rows p.world) r x unique m here same in
          let clash : false ≡ true =
            sym (IsKept-no_orphan desired r kept) ∙ ap (is_orphan desired) eq ∙ o in
          cc

      go :
          (l : Result String (List Resource))
          → (api.list p.world).0 ≡ l
          → Memᴰ r (server.rows (prune_section visibility desired api tolerate p).0.world)
      go (ok live) e =
          rw (e, prune_section)
            (run-keeps api server visibility (is_orphan desired) tolerate live listed r
              (safe live e) (subst (Memᴰ r) (sym rows-listed) m))
      go (err message) e = rw (e, prune_section) (subst (Memᴰ r) (sym rows-listed) m)

  -- A pass that reports no error, and tolerates no failed deletion, leaves only rows that were there
  -- before and that lack the prefix or are wanted.
  pub prune_section_complete :
      (r : Resource)
      → (prune_section visibility desired api false p).1 ≡ none
      → Memᴰ r (server.rows (prune_section visibility desired api false p).0.world)
      → Memᴰ r (server.rows p.world) × IsKept desired r
  unfolding prune_section
  prune_section_complete r clean m = go (api.list p.world).0 refl
    where
      go :
          (l : Result String (List Resource))
          → (api.list p.world).0 ≡ l
          → Memᴰ r (server.rows p.world) × IsKept desired r
      go (err message) e = absurd (let q : some _ ≡ none = rw (e, prune_section) at clean in cc)
      go (ok live) e =
          let failures = (run api server visibility (is_orphan desired) false live listed).1 in
          let none_failed : failures ≡ [] =
            join_errors-none failures
              (run-reports api server visibility (is_orphan desired) false live listed)
              (rw (e, prune_section) at clean) in
          let (n, gone) =
            run-removes api server visibility (is_orphan desired) false live listed r refl
              none_failed (rw (e, prune_section) at m) in
          let here : Memᴰ r (server.rows p.world) = subst (Memᴰ r) rows-listed n in
          (
            here,
            elim (Bool-cases (is_orphan desired r)) [
              | inr not_orphan ↦ IsKept-of_no_orphan desired r not_orphan
              | inl o ↦
                  absurd
                    (gone r (subst (Memᴰ r) (sym (server.list_shows p.world live e)) here) o refl)
            ],
          )

  -- A listing that fails deletes nothing: the table is as it was, the pass reports the failure, and
  -- one skipped prune is counted.
  pub prune_section-list_failed :
      (tolerate : Bool) (message : String)
      → (api.list p.world).0 ≡ err message
      → (server.rows (prune_section visibility desired api tolerate p).0.world
          ≡ server.rows p.world)
        × ((prune_section visibility desired api tolerate p).1 ≢ none)
        × ((prune_section visibility desired api tolerate p).0.metrics
            ≡ p.metrics ++ (prune_skipped_total "list_failed" visibility ∷ []))
  unfolding prune_section
  prune_section-list_failed tolerate message e =
      (rw (e, prune_section) rows-listed, rw (e, prune_section) (λ q. cc), rw (e, prune_section))
