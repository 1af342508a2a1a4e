-- ===== src/Listing/Pages.antt =====
-- A server that cuts its rows into pages is read completely, by either walk.
use mathlib.Core.List.{append-nil, append_assoc}
use pangolin_gateway.Prelude.{
  List, Result, String, [], ap, arith, length, ok, refl, suc, zero, ℕ, ◌*◌, ◌++◌, ◌+◌, ◌-◌, ◌∷◌,
  ◌≡◌, length-append, some, sym, ◌<◌, ◌∙◌, ◌≤◌, nat_eq,
}
use pangolin_gateway.Effect.{Effect}
use pangolin_gateway.Listing.{Pagination, list_from, list_pages, list_pages_from, list_rows}

module _ {T : Type 0} where
  unfoldable pub take : ℕ → List T → List T
  take zero xs = []
  take (suc n) [] = []
  take (suc n) (x ∷ xs) = x ∷ take n xs

  unfoldable pub drop : ℕ → List T → List T
  drop zero xs = xs
  drop (suc n) [] = []
  drop (suc n) (x ∷ xs) = drop n xs

  pub take-append-drop : (n : ℕ) (xs : List T) → take n xs ++ drop n xs ≡ xs
  unfolding take drop
  take-append-drop zero xs = refl
  take-append-drop (suc n) [] = refl
  take-append-drop (suc n) (x ∷ xs) = ap (λ r. x ∷ r) (take-append-drop n xs)

  pub drop-nil : (n : ℕ) → drop n [] ≡ []
  unfolding drop
  drop-nil zero = refl
  drop-nil (suc n) = refl

  drop-drop : (n m : ℕ) (xs : List T) → drop (n + m) xs ≡ drop m (drop n xs)
  unfolding drop
  drop-drop zero m xs = let e : 0 + m ≡ m = omega arith in ap (λ k. drop k xs) e
  drop-drop (suc n) m [] = drop-nil (suc n + m) ∙ sym (drop-nil m)
  drop-drop (suc n) m (x ∷ xs) =
      let e : suc n + m ≡ suc (n + m) = omega arith in
      ap (λ k. drop k (x ∷ xs)) e ∙ drop-drop n m xs

  pub length-drop : (n : ℕ) (xs : List T) → length (drop n xs) ≤ length xs
  unfolding drop
  length-drop zero xs = omega arith
  length-drop (suc n) [] = omega arith
  length-drop (suc n) (x ∷ xs) = omega (arith, length-drop n xs)

  -- What is as long as the whole is the whole.
  pub eq_of_short : (xs ys zs : List T) → xs ++ ys ≡ zs → length zs ≤ length xs → xs ≡ zs
  eq_of_short xs [] zs e h = sym (append-nil xs) ∙ e
  eq_of_short xs (y ∷ ys) zs e h = absurd (omega (arith, length-append xs (y ∷ ys), ap length e))

-- The pages of `size` rows each that the rows fall into, counted from 1.
module _ {T : Type 0} (size : ℕ) (rows : List T) where
  unfoldable pub serve : ℕ → Result String (List T × Pagination)
  serve page = ok (
    take size (drop (size * (page - 1)) rows),
    record { total = length rows; page_size = size; page = page },
  )

module _ {T : Type 0} (extra : ℕ) (rows : List T) where
  abbrev pub size : ℕ
  size = suc extra

  pub gathered-append :
      (all : List T) (x : T) (xs : List T)
      → (all ++ (x ∷ take extra xs)) ++ drop extra xs ≡ all ++ (x ∷ xs)
  gathered-append all x xs =
      append_assoc all (x ∷ take extra xs) (drop extra xs)
      ∙ ap (λ r. all ++ (x ∷ r)) (take-append-drop extra xs)

  pub next_page :
      (page : ℕ)
      → 0 < page
      → drop (size * (suc page - 1)) rows ≡ drop size (drop (size * (page - 1)) rows)
  next_page zero h = elim h [ ]
  next_page (suc q) h =
      let up : suc (suc q) - 1 ≡ suc q = omega arith in
      let down : suc q - 1 ≡ q = omega arith in
      let e : size * (suc (suc q) - 1) ≡ size * (suc q - 1) + size = rw (up, down) (omega arith) in
      ap (λ k. drop k rows) e ∙ drop-drop (size * (suc q - 1)) size rows

module _ {W T : Type 0} (extra : ℕ) (rows : List T) where
  -- The answer to a request, by a server that stays as it is.
  abbrev pub reply : ℕ → Effect W (List T × Pagination)
  reply page = λ w. (serve (suc extra) rows page, w)

module _ {W T : Type 0} (what : String) (extra : ℕ) (rows : List T) where
  list_from-reads :
      (fuel page : ℕ) (all rest : List T) (w : W)
      → 0 < page
      → drop (suc extra * (page - 1)) rows ≡ rest
      → all ++ rest ≡ rows
      → length rest < fuel
      → list_from what (reply extra rows) fuel page all w ≡ (some (ok rows), w)
  unfolding list_from serve
  list_from-reads zero page all rest w h d a k = elim k [ ]
  list_from-reads (suc fuel) page all [] w h d a k =
      let nothing : take (suc extra) (drop (suc extra * (page - 1)) rows) ≡ [] =
        rw d (unfold take in refl) in
      rw (nothing, list_from) (ground (arith, a))
  list_from-reads (suc fuel) page all (x ∷ xs) w h d a k =
      let items : take (suc extra) (drop (suc extra * (page - 1)) rows) ≡ x ∷ take extra xs =
        rw d (unfold take in refl) in
      let gathered : List T = all ++ (x ∷ take extra xs) in
      let whole : gathered ++ drop extra xs ≡ rows = gathered-append extra rows all x xs ∙ a in
      rw (items, list_from)
        (ground (
          arith,
          length-append all (x ∷ xs),
          ap length a,
          ap length whole,
          length-append gathered (drop extra xs),
          eq_of_short gathered (drop extra xs) rows whole,
          list_from-reads fuel (suc page) gathered (drop extra xs) w (omega arith)
              (next_page extra rows page h ∙ ap (drop (suc extra)) d ∙ (unfold drop in refl)) whole
              (omega (arith, length-drop extra xs)),
        ))

  list_pages_from-reads :
      (fuel page : ℕ) (all rest : List T) (w : W)
      → 0 < page
      → drop (suc extra * (page - 1)) rows ≡ rest
      → all ++ rest ≡ rows
      → length rest < fuel
      → list_pages_from what (reply extra rows) fuel page all w ≡ (some (ok rows), w)
  unfolding list_pages_from serve
  list_pages_from-reads zero page all rest w h d a k = elim k [ ]
  list_pages_from-reads (suc fuel) page all [] w h d a k =
      let nothing : take (suc extra) (drop (suc extra * (page - 1)) rows) ≡ [] =
        rw d (unfold take in refl) in
      rw (nothing, list_pages_from) (ground (arith, a))
  list_pages_from-reads (suc fuel) page all (x ∷ xs) w h d a k =
      let items : take (suc extra) (drop (suc extra * (page - 1)) rows) ≡ x ∷ take extra xs =
        rw d (unfold take in refl) in
      let gathered : List T = all ++ (x ∷ take extra xs) in
      let whole : gathered ++ drop extra xs ≡ rows = gathered-append extra rows all x xs ∙ a in
      rw (items, list_pages_from)
        (ground (
          arith,
          length-append all (x ∷ xs),
          ap length a,
          ap length whole,
          length-append gathered (drop extra xs),
          eq_of_short gathered (drop extra xs) rows whole,
          list_pages_from-reads fuel (suc page) gathered (drop extra xs) w (omega arith)
              (next_page extra rows page h ∙ ap (drop (suc extra)) d ∙ (unfold drop in refl)) whole
              (omega (arith, length-drop extra xs)),
        ))

  -- From a server that cuts any rows into pages of at least one row and tells their number, either
  -- walk returns exactly those rows, in their order, within one request more than there are rows.
  pub listing_complete :
      (fuel : ℕ) (w : W)
      → length rows < fuel
      → (list_rows what (reply extra rows) fuel w ≡ (some (ok rows), w))
        × (list_pages what (reply extra rows) fuel w ≡ (some (ok rows), w))
  unfolding list_rows list_pages
  listing_complete fuel w h = (
    list_from-reads fuel 1 [] rows w (omega arith) first refl h,
    list_pages_from-reads fuel 1 [] rows w (omega arith) first refl h,
  )
    where
      first : drop (suc extra * (1 - 1)) rows ≡ rows
      first =
          let e : suc extra * (1 - 1) ≡ 0 = omega arith in
          ap (λ k. drop k rows) e ∙ (unfold drop in refl)
