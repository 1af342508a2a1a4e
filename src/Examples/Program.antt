-- ===== src/Examples/Program.antt =====
-- A program that was started with --dry-run, over a Pangolin that any request but a GET would empty.
use pangolin_gateway.Prelude.{
  Result, String, [], err, false, if◌then◌else◌, none, ok, refl, string_eq, true, ◌==◌, ◌≡◌,
}
use pangolin_gateway.Client.{Codec, Http, HttpClient, Url, new_http_client}
use pangolin_gateway.Client.Quiet.{GetsKeep}
use pangolin_gateway.Examples.Passes.{
  Rows, Unchanged, append_one, cluster_keeps, first_pass, idle_cluster, no_pem, no_yaml, rows,
}
use pangolin_gateway.Prelude.Int.{pos}
use pangolin_gateway.Program.{Flags, Setup, client_of, publisher_of, start}
use pangolin_gateway.Program.Rehearsal.{dry_run_keeps}
use pangolin_gateway.Publisher.Reconcile.{reconcile}
use pangolin_gateway.Text.{contains_char, trim_suffix_char}

abbrev fragile : Http Rows
fragile = record {
  complaint = λ method url. none;
  send = λ r w.
      (ok (record { status = 503; read = λ n. ok "busy" }), if r.method == "GET" then w else []);
}

fragile-GetsKeep : GetsKeep Unchanged fragile
fragile-GetsKeep r m = record { keeps = λ w h. rw m h }

abbrev no_codec : Codec
no_codec = record {
  marshal = λ j. ok "{}";
  base64 = λ t. "e30=";
  sites = λ t. err "no sites";
  resources = λ t. err "no resources";
  private_resources = λ t. err "no resources";
  machines = λ t. err "no clients";
  policies = λ t. err "no policies";
  users = λ t. err "no users";
  certificates = λ t. err "no certificates";
}

abbrev flags : Flags
flags = record {
  config = record { metrics_address = ":8080"; probe_address = ":8081"; leader_election = false };
  endpoint = "https://api.example.com/v1/";
  org = "acme";
  default_site = "home";
  dry_run = true;
  licensed = false;
  resync = pos 0;
  api_key = "id.secret";
}

abbrev parsed : String → Result String Url
parsed t = ok (record { scheme = "https"; host = "api.example.com" })

abbrev smooth : Setup
smooth = record {
  creates = λ o. none;
  adds_healthz = none;
  adds_readyz = none;
  adds_controller = λ p. none;
}

abbrev client : HttpClient
client = record {
  endpoint = "https://api.example.com/v1";
  org_id = "acme";
  api_key = "id.secret";
  timeout = pos 30000000000;
}

started :
    start fragile no_codec 3 parsed smooth flags
    ≡ ok (publisher_of flags, client_of fragile no_codec 3 true client)
unfolding start new_http_client contains_char trim_suffix_char
started = refl

dry_run_keeps_example :
    (reconcile idle_cluster
      (client_of fragile no_codec 3 true client)
      (publisher_of flags)
      no_pem
      (λ c. "")
      append_one
      no_yaml
      first_pass).1.world
    ≡ rows
dry_run_keeps_example =
    dry_run_keeps fragile no_codec 3 Unchanged parsed smooth flags (publisher_of flags)
      (client_of fragile no_codec 3 true client) idle_cluster no_pem (λ c. "") append_one no_yaml
      first_pass started refl cluster_keeps fragile-GetsKeep refl
