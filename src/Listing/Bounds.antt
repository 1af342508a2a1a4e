-- ===== src/Listing/Bounds.antt =====
-- The walks end: every page but the last adds a row, and the total bounds the rows.
use pangolin_gateway.Prelude.{
  List, Result, String, length, none, ok, suc, zero, ℕ, ◌+◌, ◌<◌, ◌≡◌, ◌≢◌, ◌≤◌, [], arith, err,
  length-append, refl, ◌++◌, ◌∷◌, nat_eq,
}
use pangolin_gateway.Effect.{Effect}
use pangolin_gateway.Listing.{Pagination, list_from, list_pages, list_pages_from, list_rows}

module _ {W T : Type 0} (what : String) (fetch : ℕ → Effect W (List T × Pagination)) where
  -- No page of the listing claims a larger total.
  abbrev pub IsBounded : ℕ → Type 0
  IsBounded bound =
      (page : ℕ) (w v : W) (items : List T) (p : Pagination)
      → fetch page w ≡ (ok (items, p), v)
      → p.total ≤ bound

  list_from-step :
      (bound fuel page : ℕ) (all : List T) (w : W)
      → IsBounded bound
      → bound < suc fuel + length all
      → ((items : List T) (v : W)
          → bound < fuel + length (all ++ items)
          → 0 < fuel
          → (list_from what fetch fuel (suc page) (all ++ items) v).0 ≢ none)
      → (list_from what fetch (suc fuel) page all w).0 ≢ none
  unfolding list_from
  list_from-step bound fuel page all w b h rest = go (fetch page w) refl
    where
      go :
          (r : Result String (List T × Pagination) × W)
          → fetch page w ≡ r
          → (list_from what fetch (suc fuel) page all w).0 ≢ none
      go (err m, v) e = rw (e, list_from) (λ q. cc)
      go (ok ([], p), v) e = rw (e, list_from) (ground arith)
      go (ok (x ∷ xs, p), v) e =
          rw (e, list_from)
            (ground (arith, b page w v (x ∷ xs) p e, length-append all (x ∷ xs), rest (x ∷ xs) v))

  list_from-ends :
      (bound fuel page : ℕ) (all : List T) (w : W)
      → IsBounded bound
      → bound < fuel + length all
      → 0 < fuel
      → (list_from what fetch fuel page all w).0 ≢ none
  list_from-ends bound zero page all w b h k = elim k [ ]
  list_from-ends bound (suc fuel) page all w b h k =
      list_from-step bound fuel page all w b h
        (λ items v. list_from-ends bound fuel (suc page) (all ++ items) v b)

  list_pages_from-step :
      (bound fuel page : ℕ) (all : List T) (w : W)
      → IsBounded bound
      → bound < suc fuel + length all
      → ((items : List T) (v : W)
          → bound < fuel + length (all ++ items)
          → 0 < fuel
          → (list_pages_from what fetch fuel (suc page) (all ++ items) v).0 ≢ none)
      → (list_pages_from what fetch (suc fuel) page all w).0 ≢ none
  unfolding list_pages_from
  list_pages_from-step bound fuel page all w b h rest = go (fetch page w) refl
    where
      go :
          (r : Result String (List T × Pagination) × W)
          → fetch page w ≡ r
          → (list_pages_from what fetch (suc fuel) page all w).0 ≢ none
      go (err m, v) e = rw (e, list_pages_from) (λ q. cc)
      go (ok ([], p), v) e = rw (e, list_pages_from) (ground arith)
      go (ok (x ∷ xs, p), v) e =
          rw (e, list_pages_from)
            (ground (arith, b page w v (x ∷ xs) p e, length-append all (x ∷ xs), rest (x ∷ xs) v))

  list_pages_from-ends :
      (bound fuel page : ℕ) (all : List T) (w : W)
      → IsBounded bound
      → bound < fuel + length all
      → 0 < fuel
      → (list_pages_from what fetch fuel page all w).0 ≢ none
  list_pages_from-ends bound zero page all w b h k = elim k [ ]
  list_pages_from-ends bound (suc fuel) page all w b h k =
      list_pages_from-step bound fuel page all w b h
        (λ items v. list_pages_from-ends bound fuel (suc page) (all ++ items) v b)

  -- Where no page claims more than `bound` rows in all, one request more than that ends either
  -- walk, whatever the pages hold.
  pub listing_ends :
      (bound fuel : ℕ) (w : W)
      → IsBounded bound
      → bound < fuel
      → ((list_rows what fetch fuel w).0 ≢ none) × ((list_pages what fetch fuel w).0 ≢ none)
  unfolding list_rows list_pages
  listing_ends bound fuel w b h = (
    list_from-ends bound fuel 1 [] w b (omega arith) (omega arith),
    list_pages_from-ends bound fuel 1 [] w b (omega arith) (omega arith),
  )
