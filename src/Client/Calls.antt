-- ===== src/Client/Calls.antt =====
-- internal/pangolin/client.go: the calls of HTTPClient, and the client as the reconciler's Pangolin. A
-- listing may ask for `pages` pages at most; Listing/Bounds says how many are enough.
use Prim.Native.String
use pangolin_gateway.Prelude.{List, Option, Result, String, [], err, map, none, ok, some, ℕ, ◌∷◌}
use pangolin_gateway.Blueprint.{Blueprint, Machine, Resource, Site, User}
use pangolin_gateway.Client.{
  ClientError, Codec, Envelope, Http, HttpClient, MtlsCertificate, MtlsCertificatesData, PolicyRow,
  SiteResource, do_request, list_page_size, message_of,
}
use pangolin_gateway.Document.{blueprint_json}
use pangolin_gateway.Effect.{Effect}
use pangolin_gateway.Json.{Fields, Json}
use pangolin_gateway.Listing.{Pagination, Walked, list_pages, list_rows}
use pangolin_gateway.Publisher.{PangolinApi}
use pangolin_gateway.Text.{concat, itoa, path_escape}

abbrev pub not_ended : String
not_ended = "the listing did not end within its pages"

-- A listing as a call.
abbrev pub finished : {W T : Type 0} → Walked W T → Result String (List T) × W
finished (some result, w) = (result, w)
finished (none, w) = (err not_ended, w)

-- The path of one page.
abbrev pub page_path : String → String → String → ℕ → String
page_path org_id resource extra page = concat (
    "/org/"
    ∷ path_escape org_id
    ∷ "/"
    ∷ resource
    ∷ "?page="
    ∷ itoa page
    ∷ "&pageSize="
    ∷ itoa list_page_size
    ∷ extra
    ∷ [])

abbrev pub org_path : String → String
org_path org_id = concat ("/org/" ∷ path_escape org_id ∷ "/blueprint" ∷ [])

abbrev pub of_page : String → ℕ → String → String
of_page what page e = concat (what ∷ " (page " ∷ itoa page ∷ "): " ∷ e ∷ [])

-- The rows of the listings, as one type of row for the prune.
abbrev pub site_row : SiteResource → Resource
site_row r = record { resource_id = r.site_resource_id; nice_id = r.nice_id }

abbrev pub policy_row : PolicyRow → Resource
policy_row r = record { resource_id = r.resource_policy_id; nice_id = r.nice_id }

abbrev pub fingerprint_of : MtlsCertificate → String
fingerprint_of cert = cert.fingerprint

-- What a page of a listing makes of the answer to its request.
abbrev pub decoded_page :
    {W D T : Type 0}
    → String
    → ℕ
    → (String → Result String (Envelope D))
    → (D → List T × Pagination)
    → Result ClientError String × W
    → Result String (List T × Pagination) × W
decoded_page what page decode rows (err e, w) =
    (err (of_page (String.◌++◌ "listing " what) page (message_of e)), w)
decoded_page what page decode rows (ok raw, w) = elim (decode raw) [
  | err e ↦ (err (of_page (String.◌++◌ "decoding " what) page e), w)
  | ok env ↦ (ok (rows env.payload), w)
]

-- A call of which only the failure counts.
abbrev pub failing_with :
    {W A : Type 0} → (String → String) → Result ClientError A × W → Option String × W
failing_with explain (err e, w) = (some (explain (message_of e)), w)
failing_with explain (ok a, w) = (none, w)

abbrev pub deleting : String → ℕ → String → String
deleting what id e = concat ("deleting " ∷ what ∷ " " ∷ itoa id ∷ ": " ∷ e ∷ [])

abbrev pub applied : {W A : Type 0} → Result ClientError A × W → Result String (Unit {0}) × W
applied (err e, w) = (err (String.◌++◌ "applying blueprint: " (message_of e)), w)
applied (ok a, w) = (ok tt, w)

abbrev pub of_resource : String → ℕ → String → String
of_resource doing id e =
    concat (doing ∷ " mTLS certificates for resource " ∷ itoa id ∷ ": " ∷ e ∷ [])

abbrev pub decoded_certificates :
    {W : Type 0}
    → (String → Result String (Envelope MtlsCertificatesData))
    → ℕ
    → Result ClientError String × W
    → Result String (List MtlsCertificate) × W
decoded_certificates decode id (err e, w) = (err (of_resource "listing" id (message_of e)), w)
decoded_certificates decode id (ok raw, w) = elim (decode raw) [
  | err e ↦ (err (of_resource "decoding" id e), w)
  | ok env ↦ (ok env.payload.certificates, w)
]

abbrev pub fingerprints_of :
    {W : Type 0} → Result String (List MtlsCertificate) × W → Result String (List String) × W
fingerprints_of (err e, w) = (err e, w)
fingerprints_of (ok certs, w) = (ok (map fingerprint_of certs), w)

module _ {W : Type 0} (http : Http W) (codec : Codec) (c : HttpClient) where
  -- The request for one page: `resource` and `extra` are what the path varies in.
  unfoldable pub fetch_page :
      {D T : Type 0}
      → (what resource extra action : String) → (String → Result String (Envelope D))
      → (D → List T × Pagination)
      → ℕ
      → Effect W (List T × Pagination)
  fetch_page what resource extra action decode rows page = λ w.
      decoded_page what page decode rows
        (do_request http codec c "GET" (page_path c.org_id resource extra page) action none w)

  -- ApplyBlueprint
  unfoldable pub apply_blueprint : Blueprint → Effect W (Unit {0})
  apply_blueprint bp = elim (codec.marshal (blueprint_json bp)) [
    | err e ↦ λ w. (err (String.◌++◌ "encoding blueprint: " e), w)
    | ok raw ↦ λ w. applied (
        do_request http codec c "PUT" (org_path c.org_id) "applyBlueprint"
          (some (Json.obj (Fields.field "blueprint" (Json.str (codec.base64 raw)) Fields.end))) w)
  ]

  unfoldable pub fetch_public : ℕ → Effect W (List Resource × Pagination)
  fetch_public =
      fetch_page "public resources" "public-resources" "" "listResources" codec.resources
        (λ d. (d.resources, d.pagination))

  unfoldable pub fetch_sites : ℕ → Effect W (List Site × Pagination)
  fetch_sites = fetch_page "sites" "sites" "" "listSites" codec.sites (λ d. (d.sites, d.pagination))

  unfoldable pub fetch_private : ℕ → Effect W (List Resource × Pagination)
  fetch_private =
      fetch_page "private resources" "private-resources" "" "listSiteResources"
        codec.private_resources (λ d. (map site_row d.site_resources, d.pagination))

  unfoldable pub fetch_machines : ℕ → Effect W (List Machine × Pagination)
  fetch_machines =
      fetch_page "machine clients" "clients" "&status=active,blocked,archived" "listClients"
        codec.machines (λ d. (d.clients, d.pagination))

  unfoldable pub fetch_users : ℕ → Effect W (List User × Pagination)
  fetch_users = fetch_page "users" "users" "" "listUsers" codec.users (λ d. (d.users, d.pagination))

  unfoldable pub fetch_policies : ℕ → Effect W (List Resource × Pagination)
  fetch_policies =
      fetch_page "resource policies" "resource-policies" "" "listResourcePolicies" codec.policies
        (λ d. (map policy_row d.policies, d.pagination))

  -- DeletePublicResource, DeletePrivateResource and DeleteResourcePolicy.
  unfoldable pub delete_row : (what resource action : String) → ℕ → W → Option String × W
  delete_row what resource action id w = failing_with (deleting what id) (
      do_request http codec c "DELETE" (concat ("/" ∷ resource ∷ "/" ∷ itoa id ∷ [])) action none w)

  unfoldable pub delete_public_resource : ℕ → W → Option String × W
  unfolding delete_row
  delete_public_resource = delete_row "public resource" "public-resource" "deleteResource"

  unfoldable pub delete_private_resource : ℕ → W → Option String × W
  unfolding delete_row
  delete_private_resource = delete_row "private resource" "private-resource" "deleteSiteResource"

  unfoldable pub delete_resource_policy : ℕ → W → Option String × W
  unfolding delete_row
  delete_resource_policy = delete_row "resource policy" "resource-policy" "deleteResourcePolicy"

  -- ListResourceMtlsCertificates
  unfoldable pub list_certificates : ℕ → Effect W (List MtlsCertificate)
  list_certificates id = λ w. decoded_certificates codec.certificates id (
      do_request http codec c "GET"
        (concat ("/public-resource/" ∷ itoa id ∷ "/mtls/certificates" ∷ []))
        "listResourceMtlsCertificates" none w)

  module _ (pages : ℕ) where
    -- ListPublicResources, ListSites, ListPrivateResources.
    unfoldable pub list_public_resources : Effect W (List Resource)
    unfolding fetch_public
    list_public_resources = λ w. finished (list_rows "public resources" fetch_public pages w)

    unfoldable pub list_sites : Effect W (List Site)
    unfolding fetch_sites
    list_sites = λ w. finished (list_rows "sites" fetch_sites pages w)

    unfoldable pub list_private_resources : Effect W (List Resource)
    unfolding fetch_private
    list_private_resources = λ w. finished (list_rows "private resources" fetch_private pages w)

    -- ListMachines, ListUsers, ListResourcePolicies.
    unfoldable pub list_machines : Effect W (List Machine)
    unfolding fetch_machines
    list_machines = λ w. finished (list_pages "machine clients" fetch_machines pages w)

    unfoldable pub list_users : Effect W (List User)
    unfolding fetch_users
    list_users = λ w. finished (list_pages "users" fetch_users pages w)

    unfoldable pub list_resource_policies : Effect W (List Resource)
    unfolding fetch_policies
    list_resource_policies = λ w. finished (list_pages "resource policies" fetch_policies pages w)

    -- HTTPClient as a Client.
    unfoldable pub http_client : PangolinApi W
    http_client = record {
      apply_blueprint = apply_blueprint;
      list_sites = list_sites;
      list_machines = list_machines;
      list_users = list_users;
      public_section = record { list = list_public_resources; del = delete_public_resource };
      private_section = record { list = list_private_resources; del = delete_private_resource };
      policy_section = record { list = list_resource_policies; del = delete_resource_policy };
      list_certificates = λ id w. fingerprints_of (list_certificates id w);
    }
