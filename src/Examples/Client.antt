-- ===== src/Examples/Client.antt =====
-- Tests and instances for the client of the API.
use pangolin_gateway.Prelude.{
  Bool, List, Option, Result, String, [], err, false, none, ok, refl, string_eq, true, ℕ, ◌∷◌, ◌≡◌,
  ◌↔◌, ◌⊎◌, length, ap, sym, ◌*◌, ◌-◌, ◌∙◌,
}
use pangolin_gateway.Blueprint.{Resource}
use pangolin_gateway.Client.{
  Codec, Envelope, Http, HttpClient, Options, Response, Url, auth_error, body_limit, configured,
  do_request, new_http_client, request_of,
}
use pangolin_gateway.Client.Answers.{Answered, do_request_denied, do_request_iff}
use pangolin_gateway.Client.Configured.{IsComplete, new_http_client_iff}
use pangolin_gateway.Client.Calls.{page_path}
use pangolin_gateway.Listing.{Pagination}
use pangolin_gateway.Listing.Pages.{drop, drop-nil, take}
use pangolin_gateway.Client.Sections.{RestTable, delete_request, get_page}
use pangolin_gateway.Prelude.Int.{pos}
use pangolin_gateway.Prune.Server.{Server, without}
use pangolin_gateway.Text.{concat, itoa, path_escape}

abbrev options : Options
options = record {
  endpoint = "https://api.example.com/v1/";
  org_id = "acme";
  api_key = "id.secret";
  timeout = pos 0;
}

abbrev parsed : String → Result String Url
parsed t = ok (record { scheme = "https"; host = "api.example.com" })

new_http_client_iff_example :
    (new_http_client parsed options ≡ ok (configured options))
    ↔ (IsComplete parsed options × (configured options ≡ configured options))
new_http_client_iff_example = new_http_client_iff parsed options (configured options)

path_test : page_path "a/b ü" "sites" "" 2 ≡ "/org/a%2Fb%20%C3%BC/sites?page=2&pageSize=100"
unfolding path_escape concat itoa
path_test = refl

-- A table of one row: it answers no listing before the row is gone. The world says whether the row is
-- there; a deletion is refused while it is.
abbrev row : Resource
row = record { resource_id = 1; nice_id = "gw-shop-web" }

abbrev live : Bool → List Resource
live true = row ∷ []
live false = []

abbrev busy : Response
busy = record { status = 403; read = λ n. ok "locked" }

abbrev empty_page : Response
empty_page = record { status = 200; read = λ n. ok "empty" }

abbrev answer : Bool → Response
answer true = busy
answer false = empty_page

abbrev service : Http Bool
service = record { complaint = λ method url. none; send = λ r w. (ok (answer w), w) }

abbrev envelope : {D : Type 0} → D → Envelope D
envelope d = record { payload = d; success = true; error = false; message = ""; status = 200 }

abbrev codec : Codec
codec = record {
  marshal = λ j. ok "{}";
  base64 = λ t. "e30=";
  sites = λ t. err "no sites";
  resources = λ t. ok (
      envelope
        (record { resources = []; pagination = record { total = 0; page_size = 100; page = 0 } }));
  private_resources = λ t. ok (
      envelope (record {
        site_resources = [];
        pagination = record { total = 0; page_size = 100; page = 0 };
      }));
  machines = λ t. err "no clients";
  policies = λ t. ok (
      envelope
        (record { policies = []; pagination = record { total = 0; page_size = 100; page = 0 } }));
  users = λ t. err "no users";
  certificates = λ t. err "no certificates";
}

abbrev client : HttpClient
client = configured options

do_request_iff_example :
    (do_request service codec client "GET" "/org/acme/sites" "listSites" none false
      ≡ (ok "empty", false))
    ↔ Answered service codec client "GET" "/org/acme/sites" none false "empty" false
do_request_iff_example =
    do_request_iff service codec client "GET" "/org/acme/sites" "listSites" none false false "empty"

denied :
    (do_request service codec client "GET" "/org/acme/sites" "listSites" none true).0
    ≡ err (auth_error 403 "listSites" "locked")
unfolding do_request
denied = refl

do_request_denied_example :
    (content : Option String) × (r : Response) × ((service.send
        (request_of client "GET" "/org/acme/sites" content)
        true).0
      ≡ ok r)
    × (r.read body_limit ≡ ok "locked")
    × (r.status ≡ 403)
    × ◌≡◌ {A = String} "listSites" "listSites"
    × (◌≡◌ {A = ℕ} 403 401 ⊎ ◌≡◌ {A = ℕ} 403 403)
do_request_denied_example =
    do_request_denied service codec client "GET" "/org/acme/sites" "listSites" none true 403
      "listSites" "locked" denied

-- The three tables of the service hold the same row.
module _ {D : Type 0} (decode : String → Result String (Envelope D))
    (rows_in : D → List Resource × Pagination)
    (nothing : (raw : String) (env : Envelope D)
      → decode raw ≡ ok env
      → ((rows_in env.payload).0 ≡ []) × ((rows_in env.payload).1.total ≡ 0)) where
  served_table :
      (resource action gone gone_action : String)
      → RestTable
          (get_page service codec client resource action)
          decode
          rows_in
          (delete_request service codec client gone gone_action)
  unfolding do_request without take
  served_table resource action gone gone_action = record {
    rows = live;
    reads = λ page w. refl;
    shows = shows;
    deletes = deletes;
    refuses = λ id w e h. refl;
  }
    where
      shows :
          (page : ℕ) (w : Bool) (raw : String) (env : Envelope D)
          → (get_page service codec client resource action page w).0 ≡ ok raw
          → decode raw ≡ ok env
          → ((rows_in env.payload).0 ≡ take 100 (drop (100 * (page - 1)) (live w)))
            × ((rows_in env.payload).1.total ≡ length (live w))
      shows page true raw env a b = absurd (cc)
      shows page false raw env a b =
          let (found, total) = nothing raw env b in
          (found ∙ sym (ap (take 100) (drop-nil (100 * (page - 1)))), total)

      deletes :
          (id : ℕ) (w : Bool) (raw : String)
          → (delete_request service codec client gone gone_action id w).0 ≡ ok raw
          → live (delete_request service codec client gone gone_action id w).1 ≡ without id (live w)
      deletes id true raw h = absurd (cc)
      deletes id false raw h = refl
