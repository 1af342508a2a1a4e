-- ===== src/Examples/Listing.antt =====
-- Tests and instances for the paginated listings.
use pangolin_gateway.Prelude.{
  List, [], arith, ap, none, ok, refl, some, suc, sym, ℕ, ◌∷◌, ◌≡◌, ◌≢◌, String, subst, ◌≤◌, Result,
}
use pangolin_gateway.Effect.{Effect}
use pangolin_gateway.Listing.{list_pages, list_rows, stalled, Pagination}
use pangolin_gateway.Listing.Bounds.{IsBounded, listing_ends}
use pangolin_gateway.Listing.Pages.{reply, serve, listing_complete}
use pangolin_gateway.Listing.Sound.{Paged, Whole, listing-Whole}
use pangolin_gateway.Text.{concat, itoa}

second_of :
    {xs ys : List ℕ} {p q : Pagination}
    → ◌≡◌ {A = Result String (List ℕ × Pagination)} (ok (xs, p)) (ok (ys, q))
    → p ≡ q
second_of e = cc

first_of :
    {xs ys : List ℕ} {p q : Pagination}
    → ◌≡◌ {A = Result String (List ℕ × Pagination)} (ok (xs, p)) (ok (ys, q))
    → xs ≡ ys
first_of e = cc

abbrev rows : List ℕ
rows = 10 ∷ 20 ∷ 30 ∷ []

-- The world counts the requests.
abbrev counting : ℕ → Effect ℕ (List ℕ × Pagination)
counting page = λ w. (serve 2 rows page, suc w)

counting-IsBounded : IsBounded "users" counting 3
unfolding serve
counting-IsBounded page w v items p e =
    let q : record { total = 3; page_size = 2; page = page } ≡ p = second_of (ap (λ r. r.0) e) in
    subst (λ (x : Pagination). x.total ≤ 3) q (omega arith)

listing_ends_example :
    ((list_rows "users" counting 4 0).0 ≢ none) × ((list_pages "users" counting 4 0).0 ≢ none)
listing_ends_example = listing_ends "users" counting 3 4 0 counting-IsBounded (omega arith)

listing_complete_example :
    (list_rows "users" (reply {W = ℕ} 1 rows) 4 7 ≡ (some (ok rows), 7))
    × (list_pages "users" (reply {W = ℕ} 1 rows) 4 7 ≡ (some (ok rows), 7))
listing_complete_example = listing_complete "users" 1 rows 4 7 (omega arith)

counting-Paged : Paged counting 2
unfolding serve
counting-Paged = record {
  rows = λ w. rows;
  reads = λ page w. refl;
  shows = λ page w items p e. (
    sym (first_of e),
    let q : record { total = 3; page_size = 2; page = page } ≡ p = second_of e in
        subst (λ (x : Pagination). x.total ≡ 3) q refl,
  );
}

listing-Whole_example :
    Whole {T = ℕ} (λ w. rows) rows (list_rows "users" counting 4 0)
    × Whole {T = ℕ} (λ w. rows) rows (list_pages "users" counting 4 0)
unfolding counting-Paged
listing-Whole_example = listing-Whole "users" 1 counting counting-Paged 4 0

-- A server that ignores the page is reported, and not asked for ever.
abbrev stuck : ℕ → Effect ℕ (List ℕ × Pagination)
stuck page = λ w. (ok (7 ∷ [], record { total = 9; page_size = 1; page = 1 }), suc w)

stalled_test : list_rows {T = ℕ} "sites" stuck 10 0 ≡ (some (stalled "sites" 2 1), 2)
unfolding list_rows concat itoa
stalled_test = refl
