-- ===== src/Client/Quiet.antt =====
-- internal/pangolin/client.go: what the calls of the client that only read keep, if GET requests keep
-- it.
use Prim.Native.String
use pangolin_gateway.Prelude.{
  Bool, List, Option, Result, String, [], err, false, true, if◌then◌else◌, ◌++◌, none, ok, refl,
  some, suc, zero, ℕ, ◌≡◌,
}
use pangolin_gateway.Client.{
  ClientError, Codec, Envelope, Http, HttpClient, Request, Response, answered, do_request, exchange,
  request_of, MtlsCertificatesData,
}
use pangolin_gateway.Client.Calls.{
  decoded_certificates, decoded_page, fetch_page, fetch_machines, fetch_policies, fetch_private,
  fetch_public, fetch_sites, fetch_users, fingerprints_of, finished, http_client, list_machines,
  list_private_resources, list_public_resources, list_resource_policies, list_sites, list_users,
}
use pangolin_gateway.DryRun.{dry_run}
use pangolin_gateway.Effect.{Effect}
use pangolin_gateway.Publisher.Keeping.{ListingsKeep}
use pangolin_gateway.Publisher.Whole.{PangolinKeeps}
use pangolin_gateway.Effect.Keeping.{Keeps, pure-Keeps}
use pangolin_gateway.Listing.{
  Pagination, Walked, is_last, is_stalled, lacks_total, list_from, list_pages, list_pages_from,
  list_pages_round, list_round, list_rows,
}

-- A GET request keeps it.
abbrev pub GetsKeep : {W : Type 0} → (W → Type 0) → Http W → Type 0
GetsKeep Kept http = (r : Request) → r.method ≡ "GET" → Keeps Kept (http.send r)

module _ {W : Type 0} (Kept : W → Type 0) where
  if-kept :
      {A : Type 0} (b : Bool) (x y : A × W) → Kept x.1 → Kept y.1 → Kept (if b then x else y).1
  if-kept true x y h k = h
  if-kept false x y h k = k

  finished-kept : {T : Type 0} (walked : Walked W T) → Kept walked.1 → Kept (finished walked).1
  finished-kept (some result, w) h = h
  finished-kept (none, w) h = h

  module _ {T : Type 0} (what : String) where
    list_round-kept :
        (page : ℕ) (all : List T) (made : Result String (List T × Pagination) × W)
        (more : List T → W → Walked W T)
        → Kept made.1
        → ((gathered : List T) (w : W) → Kept w → Kept (more gathered w).1)
        → Kept (list_round what page all made more).1
    unfolding list_round
    list_round-kept page all (err e, w) more h k = h
    list_round-kept page all (ok (items, p), w) more h k =
        if-kept (is_stalled page p) _ _ h
          (if-kept (is_last items (all ++ items) p) _ _ h (k (all ++ items) w h))

    list_from-kept :
        (fetch : ℕ → Effect W (List T × Pagination)) (fuel page : ℕ) (all : List T) (w : W)
        → ((k : ℕ) → Keeps Kept (fetch k))
        → Kept w
        → Kept (list_from what fetch fuel page all w).1
    unfolding list_from
    list_from-kept fetch zero page all w g h = h
    list_from-kept fetch (suc fuel) page all w g h =
        list_round-kept page all (fetch page w) (list_from what fetch fuel (suc page))
          ((g page).keeps w h) (λ gathered v k. list_from-kept fetch fuel (suc page) gathered v g k)

    list_pages_round-kept :
        (page : ℕ) (all : List T) (made : Result String (List T × Pagination) × W)
        (more : List T → W → Walked W T)
        → Kept made.1
        → ((gathered : List T) (w : W) → Kept w → Kept (more gathered w).1)
        → Kept (list_pages_round what page all made more).1
    unfolding list_pages_round
    list_pages_round-kept page all (err e, w) more h k = h
    list_pages_round-kept page all (ok (items, p), w) more h k = if-kept (is_stalled page p) _ _ h (
        if-kept (lacks_total items p) _ _ h
          (if-kept (is_last items (all ++ items) p) _ _ h (k (all ++ items) w h)))

    list_pages_from-kept :
        (fetch : ℕ → Effect W (List T × Pagination)) (fuel page : ℕ) (all : List T) (w : W)
        → ((k : ℕ) → Keeps Kept (fetch k))
        → Kept w
        → Kept (list_pages_from what fetch fuel page all w).1
    unfolding list_pages_from
    list_pages_from-kept fetch zero page all w g h = h
    list_pages_from-kept fetch (suc fuel) page all w g h =
        list_pages_round-kept page all (fetch page w) (list_pages_from what fetch fuel (suc page))
          ((g page).keeps w h)
          (λ gathered v k. list_pages_from-kept fetch fuel (suc page) gathered v g k)

    list_rows-Keeps :
        (fetch : ℕ → Effect W (List T × Pagination)) (pages : ℕ)
        → ((k : ℕ) → Keeps Kept (fetch k))
        → Keeps Kept (λ w. finished (list_rows what fetch pages w))
    unfolding list_rows
    list_rows-Keeps fetch pages g = record {
      keeps = λ w h. finished-kept _ (list_from-kept fetch pages 1 [] w g h);
    }

    list_pages-Keeps :
        (fetch : ℕ → Effect W (List T × Pagination)) (pages : ℕ)
        → ((k : ℕ) → Keeps Kept (fetch k))
        → Keeps Kept (λ w. finished (list_pages what fetch pages w))
    unfolding list_pages
    list_pages-Keeps fetch pages g = record {
      keeps = λ w h. finished-kept _ (list_pages_from-kept fetch pages 1 [] w g h);
    }

  answered-kept :
      (method path action : String) (made : Result String Response × W)
      → Kept made.1
      → Kept (answered method path action made).1
  answered-kept method path action (err e, w) h = h
  answered-kept method path action (ok r, w) h = h

  decoded_page-kept :
      {D T : Type 0} (what : String) (page : ℕ) (decode : String → Result String (Envelope D))
      (rows : D → List T × Pagination) (made : Result ClientError String × W)
      → Kept made.1
      → Kept (decoded_page what page decode rows made).1
  decoded_page-kept what page decode rows (err e, w) h = h
  decoded_page-kept {D} what page decode rows (ok raw, w) h = go (decode raw) refl
    where
      go :
          (d : Result String (Envelope D))
          → decode raw ≡ d
          → Kept (decoded_page what page decode rows (ok raw, w)).1
      go (err e) q = rw (q, decoded_page) h
      go (ok env) q = rw (q, decoded_page) h

  decoded_certificates-kept :
      (decode : String → Result String (Envelope MtlsCertificatesData)) (id : ℕ)
      (made : Result ClientError String × W)
      → Kept made.1
      → Kept (fingerprints_of (decoded_certificates decode id made)).1
  decoded_certificates-kept decode id (err e, w) h = h
  decoded_certificates-kept decode id (ok raw, w) h = go (decode raw) refl
    where
      go :
          (d : Result String (Envelope MtlsCertificatesData))
          → decode raw ≡ d
          → Kept (fingerprints_of (decoded_certificates decode id (ok raw, w))).1
      go (err e) q = rw (q, fingerprints_of, decoded_certificates) h
      go (ok env) q = rw (q, fingerprints_of, decoded_certificates) h

  module _ (http : Http W) (codec : Codec) (c : HttpClient) (gets : GetsKeep Kept http) where
    get-kept :
        (path action : String) (w : W)
        → Kept w
        → Kept (do_request http codec c "GET" path action none w).1
    unfolding do_request
    get-kept path action w h = go (http.complaint "GET" (String.◌++◌ c.endpoint path)) refl
      where
        go :
            (o : Option String)
            → http.complaint "GET" (String.◌++◌ c.endpoint path) ≡ o
            → Kept (do_request http codec c "GET" path action none w).1
        go (some e) q = rw (q, do_request, exchange) h
        go none q =
            rw (q, do_request, exchange)
              (answered-kept "GET" path action _
                ((gets (request_of c "GET" path none) refl).keeps w h))

    fetch_page-Keeps :
        {D T : Type 0} (what resource extra action : String)
        (decoder : String → Result String (Envelope D)) (rows : D → List T × Pagination) (page : ℕ)
        → Keeps Kept (fetch_page http codec c what resource extra action decoder rows page)
    unfolding fetch_page
    fetch_page-Keeps what resource extra action decoder rows page = record {
      keeps = λ w h. decoded_page-kept what page decoder rows _ (get-kept _ action w h);
    }

    fetch_public-Keeps : (page : ℕ) → Keeps Kept (fetch_public http codec c page)
    unfolding fetch_public
    fetch_public-Keeps page = fetch_page-Keeps _ _ _ _ _ _ page

    fetch_private-Keeps : (page : ℕ) → Keeps Kept (fetch_private http codec c page)
    unfolding fetch_private
    fetch_private-Keeps page = fetch_page-Keeps _ _ _ _ _ _ page

    fetch_sites-Keeps : (page : ℕ) → Keeps Kept (fetch_sites http codec c page)
    unfolding fetch_sites
    fetch_sites-Keeps page = fetch_page-Keeps _ _ _ _ _ _ page

    fetch_machines-Keeps : (page : ℕ) → Keeps Kept (fetch_machines http codec c page)
    unfolding fetch_machines
    fetch_machines-Keeps page = fetch_page-Keeps _ _ _ _ _ _ page

    fetch_users-Keeps : (page : ℕ) → Keeps Kept (fetch_users http codec c page)
    unfolding fetch_users
    fetch_users-Keeps page = fetch_page-Keeps _ _ _ _ _ _ page

    fetch_policies-Keeps : (page : ℕ) → Keeps Kept (fetch_policies http codec c page)
    unfolding fetch_policies
    fetch_policies-Keeps page = fetch_page-Keeps _ _ _ _ _ _ page

    module _ (pages : ℕ) where
      list_public_resources-Keeps : Keeps Kept (list_public_resources http codec c pages)
      unfolding list_public_resources
      list_public_resources-Keeps =
          list_rows-Keeps "public resources" (fetch_public http codec c) pages fetch_public-Keeps

      list_private_resources-Keeps : Keeps Kept (list_private_resources http codec c pages)
      unfolding list_private_resources
      list_private_resources-Keeps =
          list_rows-Keeps "private resources" (fetch_private http codec c) pages fetch_private-Keeps

      list_sites-Keeps : Keeps Kept (list_sites http codec c pages)
      unfolding list_sites
      list_sites-Keeps = list_rows-Keeps "sites" (fetch_sites http codec c) pages fetch_sites-Keeps

      list_machines-Keeps : Keeps Kept (list_machines http codec c pages)
      unfolding list_machines
      list_machines-Keeps =
          list_pages-Keeps "machine clients" (fetch_machines http codec c) pages
            fetch_machines-Keeps

      list_users-Keeps : Keeps Kept (list_users http codec c pages)
      unfolding list_users
      list_users-Keeps = list_pages-Keeps "users" (fetch_users http codec c) pages fetch_users-Keeps

      list_resource_policies-Keeps : Keeps Kept (list_resource_policies http codec c pages)
      unfolding list_resource_policies
      list_resource_policies-Keeps =
          list_pages-Keeps "resource policies" (fetch_policies http codec c) pages
            fetch_policies-Keeps

      -- The listings before the render only send GET requests.
      pub http_client-ListingsKeep : ListingsKeep Kept (http_client http codec c pages)
      unfolding http_client
      http_client-ListingsKeep = record {
        lists_sites = list_sites-Keeps;
        lists_machines = list_machines-Keeps;
        lists_users = list_users-Keeps;
      }

      -- Under the dry run the client sends GET requests only.
      pub dry_client-PangolinKeeps : PangolinKeeps Kept (dry_run (http_client http codec c pages))
      unfolding http_client dry_run
      dry_client-PangolinKeeps = record {
        listings = record {
          lists_sites = list_sites-Keeps;
          lists_machines = list_machines-Keeps;
          lists_users = list_users-Keeps;
        };
        applies = λ bp. pure-Keeps tt;
        publics = record { lists = list_public_resources-Keeps; deletes = λ id w h. h };
        privates = record { lists = list_private_resources-Keeps; deletes = λ id w h. h };
        policies = record { lists = list_resource_policies-Keeps; deletes = λ id w h. h };
        lists_certificates = λ id. pure-Keeps [];
      }
