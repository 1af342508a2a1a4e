-- ===== src/Client.antt =====
-- internal/pangolin/client.go: the client of the Integration API, its configuration, its errors and
-- the request that every call makes. `Http` stands for net/http, `Codec` for the texts of
-- encoding/json and encoding/base64, `parse_url` for net/url.
pub mod Calls
pub mod Answers
pub mod Configured
pub mod Quiet
pub mod Sections
use Prim.Native.String
use Prim.Native.String.{len, slice}
use pangolin_gateway.Prelude.{
  Bool, List, Option, Result, String, [], err, false, if◌then◌else◌, leb, ltb, none, not, ok, some,
  true, ℕ, ◌++◌, ◌==◌, ◌^◌, ◌||◌, ◌∷◌, string_eq, nat_eq,
}
use pangolin_gateway.Blueprint.{Machine, Resource, Site, User}
use pangolin_gateway.Effect.{Effect}
use pangolin_gateway.Json.{Json}
use pangolin_gateway.Listing.{Pagination}
use pangolin_gateway.Prelude.Int.{ℤ, pos, negsuc}
use pangolin_gateway.Text.{concat, contains_char, itoa, quote, trim_space, trim_suffix_char}

-- Options. Durations are nanoseconds.
pub record Options : Type 0 where
  pub endpoint : String
  pub org_id : String
  pub api_key : String
  pub timeout : ℤ

pub record HttpClient : Type 0 where
  pub endpoint : String
  pub org_id : String
  pub api_key : String
  pub timeout : ℤ

-- url.URL, with the fields that the source reads.
pub record Url : Type 0 where
  pub scheme : String
  pub host : String

abbrev pub default_timeout : ℤ
default_timeout = pos 30000000000

abbrev pub list_page_size : ℕ
list_page_size = 100

abbrev pub or_default : ℤ → ℤ
or_default (pos n) = if n == 0 then default_timeout else pos n
or_default (negsuc n) = negsuc n

abbrev no_host : String → String
no_host endpoint =
    concat ("pangolin endpoint " ∷ quote endpoint ∷ " needs a scheme and a host" ∷ [])

abbrev unparsed : String → String → String
unparsed endpoint e = concat ("parsing pangolin endpoint " ∷ quote endpoint ∷ ": " ∷ e ∷ [])

abbrev pub configured : Options → HttpClient
configured o = record {
  endpoint = trim_suffix_char o.endpoint b'/';
  org_id = o.org_id;
  api_key = o.api_key;
  timeout = or_default o.timeout;
}

abbrev pub checked_url : Options → Result String Url → Result String HttpClient
checked_url o (err e) = err (unparsed o.endpoint e)
checked_url o (ok u) =
    if u.scheme == "" || u.host == "" then err (no_host o.endpoint) else ok (configured o)

-- NewHTTPClient
unfoldable pub new_http_client : (String → Result String Url) → Options → Result String HttpClient
new_http_client parse_url o =
    if o.endpoint == ""
    then err "pangolin endpoint is empty"
    else if o.org_id == ""
    then err "pangolin organisation id is empty"
    else if o.api_key == ""
    then err "pangolin API key is empty"
    else if not (contains_char o.api_key ".")
    then err "pangolin API key is not of the form <key_id>.<key_secret>"
    else checked_url o (parse_url o.endpoint)

-- AuthError, apiError, and the errors that are a message only.
pub data ClientError : Type 0 where
  auth_error : ℕ → String → String → ClientError
  api_error : ℕ → String → ClientError
  failed : String → ClientError

-- truncate. A cut inside a character keeps the characters before it.
unfoldable pub truncate : String → ℕ → String
truncate text n =
    let s = trim_space text in if leb (len s) n then s else String.◌++◌ (slice s 0 n) "…"

-- Error
unfoldable pub message_of : ClientError → String
unfolding truncate
message_of (auth_error status action body) = concat (
    "pangolin returned "
    ∷ itoa status
    ∷ ": the API key may lack the "
    ∷ quote action
    ∷ " action, or the endpoint may not be the Integration API (body: "
    ∷ truncate body 200
    ∷ ")"
    ∷ [])
message_of (api_error status body) =
    concat ("pangolin returned " ∷ itoa status ∷ " (body: " ∷ truncate body 200 ∷ ")" ∷ [])
message_of (failed e) = e

-- The envelope of every answer.
pub record Envelope (D : Type 0) : Type 0 where
  pub payload : D
  pub success : Bool
  pub error : Bool
  pub message : String
  pub status : ℕ

pub record SitesData : Type 0 where
  pub sites : List Site
  pub pagination : Pagination

pub record ListData : Type 0 where
  pub resources : List Resource
  pub pagination : Pagination

pub record SiteResource : Type 0 where
  pub site_resource_id : ℕ
  pub nice_id : String

pub record PrivateListData : Type 0 where
  pub site_resources : List SiteResource
  pub pagination : Pagination

pub record MachinesData : Type 0 where
  pub clients : List Machine
  pub pagination : Pagination

pub record PolicyRow : Type 0 where
  pub resource_policy_id : ℕ
  pub nice_id : String

pub record PoliciesData : Type 0 where
  pub policies : List PolicyRow
  pub pagination : Pagination

pub record UsersData : Type 0 where
  pub users : List User
  pub pagination : Pagination

pub record MtlsCertificate : Type 0 where
  pub fingerprint : String
  pub subject : String
  pub not_after : String

pub record MtlsCertificatesData : Type 0 where
  pub certificates : List MtlsCertificate

-- encoding/json and encoding/base64: json.Marshal of a value, base64.StdEncoding.EncodeToString, and
-- json.Unmarshal into the envelope of each call.
pub record Codec : Type 0 where
  pub marshal : Json → Result String String
  pub base64 : String → String
  pub sites : String → Result String (Envelope SitesData)
  pub resources : String → Result String (Envelope ListData)
  pub private_resources : String → Result String (Envelope PrivateListData)
  pub machines : String → Result String (Envelope MachinesData)
  pub policies : String → Result String (Envelope PoliciesData)
  pub users : String → Result String (Envelope UsersData)
  pub certificates : String → Result String (Envelope MtlsCertificatesData)

pub record Request : Type 0 where
  pub method : String
  pub url : String
  pub headers : List (String × String)
  pub body : Option String

-- `read n` is what io.ReadAll gives of the first n bytes of the body.
pub record Response : Type 0 where
  pub status : ℕ
  pub read : ℕ → Result String String

-- net/http: the complaint of NewRequestWithContext about a method and a URL, and Client.Do.
pub record Http (W : Type 0) : Type 0 where
  pub complaint : String → String → Option String
  pub send : Request → Effect W Response

abbrev pub body_limit : ℕ
body_limit = 2 ^ 20

-- What `do` makes of a response.
unfoldable pub classified : String → String → String → Response → Result ClientError String
classified method path action r = elim (r.read body_limit) [
  | err e ↦ err (failed (concat ("reading " ∷ method ∷ " " ∷ path ∷ " response: " ∷ e ∷ [])))
  | ok raw ↦
      if r.status == 401 || r.status == 403
      then err (auth_error r.status action raw)
      else if ltb r.status 200 || ltb 299 r.status
      then err (api_error r.status raw)
      else ok raw
]

abbrev pub answered :
    {W : Type 0}
    → String
    → String
    → String
    → Result String Response × W
    → Result ClientError String × W
answered method path action (err e, w) =
    (err (failed (concat (method ∷ " " ∷ path ∷ ": " ∷ e ∷ []))), w)
answered method path action (ok r, w) = (classified method path action r, w)

abbrev pub content_headers : Option String → List (String × String)
content_headers none = []
content_headers (some content) = ("Content-Type", "application/json") ∷ []

abbrev pub request_of : HttpClient → String → String → Option String → Request
request_of c method path content = record {
  method = method;
  url = String.◌++◌ c.endpoint path;
  headers =
      ("Authorization", String.◌++◌ "Bearer " c.api_key)
      ∷ ("Accept", "application/json")
      ∷ content_headers content;
  body = content;
}

module _ {W : Type 0} (http : Http W) (codec : Codec) (c : HttpClient) where
  -- The bytes of the body, if there is one.
  abbrev pub encoded : Option Json → Result String (Option String)
  encoded none = ok none
  encoded (some json) = elim (codec.marshal json) [ err e ↦ err e | ok raw ↦ ok (some raw) ]

  abbrev pub exchange : String → String → String → Option String → W → Result ClientError String × W
  exchange method path action content = elim (http.complaint method (String.◌++◌ c.endpoint path)) [
    | some e ↦ λ w. (err (failed (concat ("building " ∷ method ∷ " " ∷ path ∷ ": " ∷ e ∷ []))), w)
    | none ↦ λ w. answered method path action (http.send (request_of c method path content) w)
  ]

  -- do
  unfoldable pub do_request :
      String → String → String → Option Json → W → Result ClientError String × W
  unfolding classified
  do_request method path action body = elim (encoded body) [
    | err e ↦ λ w. (err (failed (String.◌++◌ "encoding request body: " e)), w)
    | ok content ↦ exchange method path action content
  ]
