-- ===== src/Prune.antt =====
-- internal/controller/publisher.go: prune and pruneSection, which delete the resources that this
-- controller owns and that no object claims any more. Pangolin is a world `W` of its own, which a
-- call may change; a call of its API may fail with a message. What the metrics count is the list
-- of events beside the world.
pub mod Server
pub mod Safety
pub mod Guarantees
use Prim.Native.String
use pangolin_gateway.Prelude.{
  Bool, List, Option, Result, String, [], err, false, if◌then◌else◌, none, not, ok, some, true, ℕ,
  ◌&&◌, ◌++◌, ◌∷◌, string_eq,
}
use pangolin_gateway.Blueprint.{Blueprint, Resource}
use pangolin_gateway.Map.{Map, has_key}
use pangolin_gateway.Text.{concat, has_prefix, join}

-- The counters and gauges of internal/controller/metrics.go.
pub data Metric : Type 0 where
  publish_total : String → Metric
  prune_total : String → String → Metric
  prune_skipped_total : String → String → Metric
  resources_desired : String → ℕ → Metric
  routes_rejected private_resources_rejected policies_rejected : ℕ → Metric

-- The metrics counted so far, and Pangolin.
pub record Pass (W : Type 0) : Type 0 where
  pub world : W
  pub metrics : List Metric

abbrev pub count : {W : Type 0} → Metric → Pass W → Pass W
count m p = record p { metrics = p.metrics ++ (m ∷ []) }

-- errors.Join: nil where every error is nil, else their messages, one to a line.
pub present_errors : List (Option String) → List String
present_errors [] = []
present_errors (none ∷ es) = present_errors es
present_errors (some e ∷ es) = e ∷ present_errors es

abbrev pub joined_lines : List String → Option String
joined_lines [] = none
joined_lines (e ∷ es) = some (join (e ∷ es) "\n")

unfoldable pub join_errors : List (Option String) → Option String
unfolding present_errors
join_errors es = joined_lines (present_errors es)

-- One section's pair of calls: the listing and the deletion by number.
pub record SectionApi (W : Type 0) : Type 0 where
  pub list : W → Result String (List Resource) × W
  pub del : ℕ → W → Option String × W

abbrev pub key_prefix : String
key_prefix = "gw-"

-- Owned by this controller, and wanted by no object.
unfoldable pub is_orphan : {T : Type 0} → Map String T → Resource → Bool
is_orphan desired r = has_prefix r.nice_id key_prefix && not (has_key r.nice_id desired)

module _ {W : Type 0} (visibility : String) (orphan : Resource → Bool) (tolerate : Bool)
    (del : ℕ → W → Option String × W) where
  -- What one deletion leaves: the counter, and the failure that is reported.
  abbrev pub after_delete : Option String × W → List Metric → Pass W × List (Option String)
  after_delete (none, w) ms =
      (record { world = w; metrics = ms ++ (prune_total "success" visibility ∷ []) }, [])
  after_delete (some e, w) ms = (
    record { world = w; metrics = ms ++ (prune_total "error" visibility ∷ []) },
    if tolerate then [] else some e ∷ [],
  )

  -- The loop over the listing.
  unfoldable pub prune_rows : List Resource → Pass W → Pass W × List (Option String)
  prune_rows [] p = (p, [])
  prune_rows (r ∷ rs) p =
      let deleted = after_delete (del r.resource_id p.world) p.metrics in
      let failures = if orphan r then deleted.1 else [] in
      let (q, later) = prune_rows rs (if orphan r then deleted.0 else p) in (q, failures ++ later)

module _ {W T : Type 0} where
  unfoldable pub prune_section :
      String → Map String T → SectionApi W → Bool → Pass W → Pass W × Option String
  unfolding prune_rows is_orphan
  prune_section visibility desired api tolerate p =
      let (listed, w) = api.list p.world in
      elim listed [
        | err e ↦ (
          count (prune_skipped_total "list_failed" visibility) (record p { world = w }),
          some (concat ("listing " ∷ visibility ∷ " resources for the prune: " ∷ e ∷ [])),
        )
        | ok live ↦
            let (q, failures) =
              prune_rows visibility (is_orphan desired) tolerate api.del live
                (record p { world = w }) in
            (q, join_errors failures)
      ]

-- The three sections. Policies come last, since Pangolin refuses to delete one that a resource
-- still names, and only under a licence.
unfoldable pub prune :
    {W : Type 0}
    → (public private policy : SectionApi W) → Bool
    → Blueprint
    → Pass W
    → Pass W × Option String
unfolding prune_section join_errors
prune public private policy licensed desired p =
    let (p₁, e₁) = prune_section "public" desired.public_resources public false p in
    let (p₂, e₂) = prune_section "private" desired.private_resources private false p₁ in
    let (p₃, e₃) = prune_section "policy" desired.public_policies policy true p₂ in
    if licensed then (p₃, join_errors (e₁ ∷ e₂ ∷ e₃ ∷ [])) else (p₂, join_errors (e₁ ∷ e₂ ∷ []))
