-- ===== src/Client/Sections.antt =====
-- internal/pangolin/client.go: the three sections of the client are what the prune takes them for, over
-- any Pangolin that serves its tables by pages and deletes by number.
use pangolin_gateway.Prelude.{
  List, Option, Result, String, [], ap, err, length, none, ok, refl, ℕ, ◌*◌, ◌-◌, ◌∷◌, ◌∙◌, ◌≡◌,
}
use pangolin_gateway.Blueprint.{Resource}
use pangolin_gateway.Client.{
  ClientError, Codec, Envelope, Http, HttpClient, do_request, list_page_size,
}
use pangolin_gateway.Client.Calls.{decoded_page, delete_row, fetch_page, page_path}
use pangolin_gateway.Effect.{Effect}
use pangolin_gateway.Listing.{Pagination}
use pangolin_gateway.Listing.Pages.{drop, take}
use pangolin_gateway.Listing.Sound.{Paged}
use pangolin_gateway.Prune.Server.{Server, without}
use pangolin_gateway.Text.{concat, itoa}

-- A table behind the API, in terms of the requests for its pages and for a deletion: a request for a
-- page changes no row; one that is answered and decoded holds the page's rows and the number of all; a
-- deletion that is answered takes out the row of that number, and one that is not changes nothing.
pub record RestTable {W D : Type 0} (get : ℕ → W → Result ClientError String × W)
    (decode : String → Result String (Envelope D)) (rows_in : D → List Resource × Pagination)
    (delete : ℕ → W → Result ClientError String × W) : Type 0 where
  pub rows : W → List Resource
  pub reads : (page : ℕ) (w : W) → rows (get page w).1 ≡ rows w
  pub shows :
      (page : ℕ) (w : W) (raw : String) (env : Envelope D)
      → (get page w).0 ≡ ok raw
      → decode raw ≡ ok env
      → ((rows_in env.payload).0
          ≡ take list_page_size (drop (list_page_size * (page - 1)) (rows w)))
        × ((rows_in env.payload).1.total ≡ length (rows w))
  pub deletes :
      (id : ℕ) (w : W) (raw : String)
      → (delete id w).0 ≡ ok raw
      → rows (delete id w).1 ≡ without id (rows w)
  pub refuses :
      (id : ℕ) (w : W) (e : ClientError) → (delete id w).0 ≡ err e → rows (delete id w).1 ≡ rows w

module _ {W : Type 0} (http : Http W) (codec : Codec) (c : HttpClient) where
  -- The request for a page of a listing, and for a deletion.
  abbrev pub get_page : (resource action : String) → ℕ → W → Result ClientError String × W
  get_page resource action page =
      do_request http codec c "GET" (page_path c.org_id resource "" page) action none

  abbrev pub delete_request : (resource action : String) → ℕ → W → Result ClientError String × W
  delete_request resource action id =
      do_request http codec c "DELETE" (concat ("/" ∷ resource ∷ "/" ∷ itoa id ∷ [])) action none

  module _ {D : Type 0} (what resource action gone_what gone_resource gone_action : String)
      (decode : String → Result String (Envelope D)) (rows_in : D → List Resource × Pagination)
      (table : RestTable
        (get_page resource action)
        decode
        rows_in
        (delete_request gone_resource gone_action)) where
    decoded_page-rows :
        (page : ℕ) (made : Result ClientError String × W)
        → (decoded_page what page decode rows_in made).1 ≡ made.1
    decoded_page-rows page (err e, w) = refl
    decoded_page-rows page (ok raw, w) = go (decode raw) refl
      where
        go :
            (d : Result String (Envelope D))
            → decode raw ≡ d
            → (decoded_page what page decode rows_in (ok raw, w)).1 ≡ w
        go (err e) q = rw (q, decoded_page) refl
        go (ok env) q = rw (q, decoded_page) refl

    decoded_page-ok :
        (page : ℕ) (made : Result ClientError String × W) (found : List Resource) (p : Pagination)
        → (decoded_page what page decode rows_in made).0 ≡ ok (found, p)
        → (raw : String) × (env : Envelope D) × (made.0 ≡ ok raw)
          × (decode raw ≡ ok env)
          × ((rows_in env.payload).0 ≡ found)
          × ((rows_in env.payload).1 ≡ p)
    decoded_page-ok page (err e, w) found p h = absurd (cc)
    decoded_page-ok page (ok raw, w) found p h = go (decode raw) refl
      where
        go :
            (d : Result String (Envelope D))
            → decode raw ≡ d
            → (raw' : String) × (env : Envelope D) × (◌≡◌ {A = Result ClientError String}
                (ok raw)
                (ok raw'))
              × (decode raw' ≡ ok env)
              × ((rows_in env.payload).0 ≡ found)
              × ((rows_in env.payload).1 ≡ p)
        go (err e) q = absurd (let k = rw (q, decoded_page) at h in cc)
        go (ok env) q = let k = rw (q, decoded_page) at h in (raw, env, refl, q, cc, cc)

    paged : Paged (fetch_page http codec c what resource "" action decode rows_in) list_page_size
    unfolding fetch_page
    paged = record {
      rows = table.rows;
      reads = λ page w.
          ap table.rows (decoded_page-rows page (get_page resource action page w))
          ∙ table.reads page w;
      shows = λ page w found p h.
          let (raw, env, a, b, i, t) =
            decoded_page-ok page (get_page resource action page w) found p h in
          let (k, n) = table.shows page w raw env a b in (rw (← i) k, rw (← t) n);
    }

    fetch : ℕ → Effect W (List Resource × Pagination)
    fetch = fetch_page http codec c what resource "" action decode rows_in

    removed : ℕ → W → Option String × W
    removed = delete_row http codec c gone_what gone_resource gone_action
