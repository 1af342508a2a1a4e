-- ===== src/Listing/Sound.antt =====
-- A walk that succeeds has read the whole listing, also where requests may fail: what the prune,
-- which deletes what a listing shows, relies on.
use pangolin_gateway.Prelude.{
  List, Result, String, [], arith, true, err, length, ok, refl, some, suc, zero, ℕ, ◌*◌, ◌++◌, ◌-◌,
  ◌∷◌, ◌≡◌, ◌<◌, ◌∙◌, ◌≤◌, nat_eq, ap, Bool-cases, inl, inr,
}
use mathlib.Core.List.{append_assoc}
use pangolin_gateway.Effect.{Effect}
use pangolin_gateway.Listing.{
  Pagination, Walked, list_from, list_pages, list_pages_from, list_rows, is_stalled, is_last,
  lacks_total, list_round, list_pages_round,
}
use pangolin_gateway.Listing.Pages.{drop, eq_of_short, next_page, take, take-append-drop}

module _ {W T : Type 0} (fetch : ℕ → Effect W (List T × Pagination)) where
  -- A server that holds `rows w`: a request changes nothing of them, and an answer that arrives
  -- holds their page of `size` rows and tells their number. Any request may fail.
  pub record Paged (size : ℕ) : Type 0 where
    pub rows : W → List T
    pub reads : (page : ℕ) (w : W) → rows (fetch page w).1 ≡ rows w
    pub shows :
        (page : ℕ) (w : W) (items : List T) (p : Pagination)
        → (fetch page w).0 ≡ ok (items, p)
        → (items ≡ take size (drop (size * (page - 1)) (rows w))) × (p.total ≡ length (rows w))

-- What a walk has made of the rows of a server.
abbrev pub Whole : {W T : Type 0} → (W → List T) → List T → Walked W T → Type 0
Whole {T} rows all walked =
    (rows walked.1 ≡ all) × ((live : List T) → walked.0 ≡ some (ok live) → live ≡ all)

-- Behind a last page with rows there are as many rows as the total says.
last-le :
    {T : Type 0} (items gathered : List T) (p : Pagination) {x : T} {xs : List T}
    → items ≡ x ∷ xs
    → is_last items gathered p ≡ true
    → p.total ≤ length gathered
last-le [] gathered p i l = absurd (cc)
last-le (y ∷ ys) gathered p i l = ground arith

-- The page that ends a walk has brought the rest.
last_whole :
    {T : Type 0} (extra : ℕ) (before rest all items : List T) (p : Pagination)
    → items ≡ take (suc extra) rest
    → p.total ≡ length all
    → before ++ rest ≡ all
    → is_last items (before ++ items) p ≡ true
    → before ++ items ≡ all
unfolding take
last_whole extra before [] all items p i t a l = rw i a
last_whole extra before (x ∷ xs) all items p i t a l =
    let whole : (before ++ items) ++ drop (suc extra) (x ∷ xs) ≡ all = rw i (
      append_assoc before _ _
      ∙ ap (λ r. before ++ r) (take-append-drop (suc extra) (x ∷ xs))
      ∙ a) in
    eq_of_short (before ++ items) (drop (suc extra) (x ∷ xs)) all whole
      (let n = last-le items (before ++ items) p i l in omega (arith, t))

module _ {W T : Type 0} (what : String) (extra : ℕ) (rows : W → List T) where
  abbrev Fits : List T → List T → Result String (List T × Pagination) → Type 0
  Fits rest all answer =
      (items : List T) (p : Pagination)
      → answer ≡ ok (items, p)
      → (items ≡ take (suc extra) rest) × (p.total ≡ length all)

  list_round-Whole :
      (page : ℕ) (before rest all : List T) (made : Result String (List T × Pagination) × W)
      (more : List T → W → Walked W T)
      → rows made.1 ≡ all
      → Fits rest all made.0
      → before ++ rest ≡ all
      → ((v : W) → rows v ≡ all → Whole rows all (more (before ++ take (suc extra) rest) v))
      → Whole rows all (list_round what page before made more)
  unfolding list_round
  list_round-Whole page before rest all (err e, v) more s f a next = (s, λ live q. absurd (cc))
  list_round-Whole page before rest all (ok (items, p), v) more s f a next =
      let g = f items p refl in
      elim (Bool-cases (is_stalled page p)) [
        | inl other ↦ rw (other, list_round) (s, λ live q. absurd (cc))
        | inr asked ↦ elim (Bool-cases (is_last items (before ++ items) p)) [
          | inl last ↦
              rw (asked, list_round)
                (rw last (
                  s,
                  λ live q.
                      let w : before ++ items ≡ all =
                        last_whole extra before rest all items p g.0 g.1 a last in
                      cc,
                ))
          | inr open_end ↦ rw (asked, list_round) (rw open_end (rw (← g.0) at next v s))
        ]
      ]

  list_pages_round-Whole :
      (page : ℕ) (before rest all : List T) (made : Result String (List T × Pagination) × W)
      (more : List T → W → Walked W T)
      → rows made.1 ≡ all
      → Fits rest all made.0
      → before ++ rest ≡ all
      → ((v : W) → rows v ≡ all → Whole rows all (more (before ++ take (suc extra) rest) v))
      → Whole rows all (list_pages_round what page before made more)
  unfolding list_pages_round
  list_pages_round-Whole page before rest all (err e, v) more s f a next =
      (s, λ live q. absurd (cc))
  list_pages_round-Whole page before rest all (ok (items, p), v) more s f a next =
      let g = f items p refl in
      elim (Bool-cases (is_stalled page p)) [
        | inl other ↦ rw (other, list_pages_round) (s, λ live q. absurd (cc))
        | inr asked ↦ elim (Bool-cases (lacks_total items p)) [
          | inl lacking ↦ rw (asked, list_pages_round) (rw lacking (s, λ live q. absurd (cc)))
          | inr counted ↦ elim (Bool-cases (is_last items (before ++ items) p)) [
            | inl last ↦
                rw (asked, list_pages_round)
                  (rw counted (
                    rw last (
                      s,
                      λ live q.
                          let w : before ++ items ≡ all =
                            last_whole extra before rest all items p g.0 g.1 a last in
                          cc,
                    )))
            | inr open_end ↦
                rw (asked, list_pages_round) (rw counted (rw open_end (rw (← g.0) at next v s)))
          ]
        ]
      ]

module _ {W T : Type 0} (what : String) (extra : ℕ) (fetch : ℕ → Effect W (List T × Pagination))
    (server : Paged fetch (suc extra)) where
  fits :
      (page : ℕ) (w : W) (rest all : List T)
      → server.rows w ≡ all
      → drop (suc extra * (page - 1)) all ≡ rest
      → Fits what extra server.rows rest all (fetch page w).0
  fits page w rest all s d items p q =
      let (i, t) = server.shows page w items p q in
      (i ∙ ap (take (suc extra)) (ap (drop (suc extra * (page - 1))) s ∙ d), t ∙ ap length s)

  list_from-Whole :
      (fuel page : ℕ) (before rest all : List T) (w : W)
      → 0 < page
      → server.rows w ≡ all
      → drop (suc extra * (page - 1)) all ≡ rest
      → before ++ rest ≡ all
      → Whole server.rows all (list_from what fetch fuel page before w)
  unfolding list_from
  list_from-Whole zero page before rest all w h s d a = (s, λ live q. absurd (cc))
  list_from-Whole (suc fuel) page before rest all w h s d a =
      list_round-Whole what extra server.rows page before rest all (fetch page w)
        (list_from what fetch fuel (suc page)) (server.reads page w ∙ s) (fits page w rest all s d)
        a
        (λ v t.
          list_from-Whole fuel (suc page) (before ++ take (suc extra) rest) (drop (suc extra) rest)
            all v (omega arith) t (next_page extra all page h ∙ ap (drop (suc extra)) d)
            (append_assoc before _ _
              ∙ ap (λ r. before ++ r) (take-append-drop (suc extra) rest)
              ∙ a))

  list_pages_from-Whole :
      (fuel page : ℕ) (before rest all : List T) (w : W)
      → 0 < page
      → server.rows w ≡ all
      → drop (suc extra * (page - 1)) all ≡ rest
      → before ++ rest ≡ all
      → Whole server.rows all (list_pages_from what fetch fuel page before w)
  unfolding list_pages_from
  list_pages_from-Whole zero page before rest all w h s d a = (s, λ live q. absurd (cc))
  list_pages_from-Whole (suc fuel) page before rest all w h s d a =
      list_pages_round-Whole what extra server.rows page before rest all (fetch page w)
        (list_pages_from what fetch fuel (suc page)) (server.reads page w ∙ s)
        (fits page w rest all s d) a
        (λ v t.
          list_pages_from-Whole fuel (suc page) (before ++ take (suc extra) rest)
            (drop (suc extra) rest) all v (omega arith) t
            (next_page extra all page h ∙ ap (drop (suc extra)) d)
            (append_assoc before _ _
              ∙ ap (λ r. before ++ r) (take-append-drop (suc extra) rest)
              ∙ a))

  first : (all : List T) → drop (suc extra * (1 - 1)) all ≡ all
  unfolding drop
  first all = let e : suc extra * (1 - 1) ≡ 0 = omega arith in ap (λ k. drop k all) e

  -- Where any request may fail, and an answer that arrives holds the rows of its page and their
  -- number, either walk that succeeds gives all rows in their order, and a walk changes none.
  pub listing-Whole :
      (fuel : ℕ) (w : W)
      → Whole server.rows (server.rows w) (list_rows what fetch fuel w)
        × Whole server.rows (server.rows w) (list_pages what fetch fuel w)
  unfolding list_rows list_pages
  listing-Whole fuel w = (
    list_from-Whole fuel 1 [] (server.rows w) (server.rows w) w (omega arith) refl
        (first (server.rows w)) refl,
    list_pages_from-Whole fuel 1 [] (server.rows w) (server.rows w) w (omega arith) refl
        (first (server.rows w)) refl,
  )
