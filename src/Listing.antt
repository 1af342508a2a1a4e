-- ===== src/Listing.antt =====
-- internal/pangolin/client.go: the loops that walk a paginated listing. One request is `fetch page`,
-- an effect that gives the rows of the decoded answer with its pagination, or the whole error of the
-- request or the decoder.
-- The loops of the source have no bound; here they take fuel, and `none` means that it ran out
-- (Listing/Bounds shows how much is enough).
pub mod Bounds
pub mod Pages
pub mod Sound
use pangolin_gateway.Prelude.{
  Bool, List, Option, Result, String, [], err, false, if◌then◌else◌, leb, length, none, not, ok,
  some, suc, true, zero, ℕ, ◌&&◌, ◌++◌, ◌==◌, ◌∷◌, nat_eq,
}
use pangolin_gateway.Effect.{Effect}
use pangolin_gateway.Text.{concat, itoa}

pub record Pagination : Type 0 where
  pub total : ℕ
  pub page_size : ℕ
  pub page : ℕ

-- The answer is for another page than the one that was asked for. A page of 0 is an absent one.
abbrev pub is_stalled : ℕ → Pagination → Bool
is_stalled page p = not (p.page == 0) && not (p.page == page)

-- The last page: no rows, or as many rows in all as the total says.
abbrev pub is_last : {T : Type 0} → List T → List T → Pagination → Bool
is_last [] all p = true
is_last (x ∷ xs) all p = leb p.total (length all)

-- How a walk ends, and the world after it.
abbrev pub Walked : Type 0 → Type 0 → Type 0
Walked W T = Option (Result String (List T)) × W

module _ {T : Type 0} (what : String) where
  abbrev pub stalled : ℕ → ℕ → Result String (List T)
  stalled page got = err (
      concat (
        "listing "
        ∷ what
        ∷ " stalled: asked for page "
        ∷ itoa page
        ∷ ", got page "
        ∷ itoa got
        ∷ []))

  abbrev pub no_total : Result String (List T)
  no_total = err (concat ("listing " ∷ what ∷ " returned rows but no pagination total" ∷ []))

-- Rows, and no total to tell a complete listing from a first page.
abbrev pub lacks_total : {T : Type 0} → List T → Pagination → Bool
lacks_total [] p = false
lacks_total (x ∷ xs) p = p.total == 0

module _ {W T : Type 0} (what : String) where
  -- One round of the loop of ListPublicResources, ListPrivateResources and ListSites, which takes
  -- a listing with no total for complete after its first page. `more` is what the loop does next.
  unfoldable pub list_round :
      ℕ → List T → Result String (List T × Pagination) × W → (List T → W → Walked W T) → Walked W T
  list_round page all (err e, w) more = (some (err e), w)
  list_round page all (ok (items, p), w) more =
      let gathered = all ++ items in
      if is_stalled page p
      then (some (stalled what page p.page), w)
      else if is_last items gathered p
      then (some (ok gathered), w)
      else more gathered w

  -- One round of the loop of listPages.
  unfoldable pub list_pages_round :
      ℕ → List T → Result String (List T × Pagination) × W → (List T → W → Walked W T) → Walked W T
  list_pages_round page all (err e, w) more = (some (err e), w)
  list_pages_round page all (ok (items, p), w) more =
      let gathered = all ++ items in
      if is_stalled page p
      then (some (stalled what page p.page), w)
      else if lacks_total items p
      then (some (no_total what), w)
      else if is_last items gathered p
      then (some (ok gathered), w)
      else more gathered w

  module _ (fetch : ℕ → Effect W (List T × Pagination)) where
    -- The loop of ListPublicResources, ListPrivateResources and ListSites.
    unfoldable pub list_from : ℕ → ℕ → List T → W → Walked W T
    unfolding list_round
    list_from zero page all w = (none, w)
    list_from (suc fuel) page all w = list_round page all (fetch page w) (list_from fuel (suc page))

    unfoldable pub list_rows : ℕ → W → Walked W T
    unfolding list_from
    list_rows fuel = list_from fuel 1 []

    -- listPages, the loop of ListMachines, ListUsers and ListResourcePolicies.
    unfoldable pub list_pages_from : ℕ → ℕ → List T → W → Walked W T
    unfolding list_pages_round
    list_pages_from zero page all w = (none, w)
    list_pages_from (suc fuel) page all w =
        list_pages_round page all (fetch page w) (list_pages_from fuel (suc page))

    unfoldable pub list_pages : ℕ → W → Walked W T
    unfolding list_pages_from
    list_pages fuel = list_pages_from fuel 1 []
