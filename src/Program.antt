-- ===== src/Program.antt =====
-- cmd/main.go and internal/manager/options.go: from the flags to the reconciler. The flags are parsed
-- already; `Setup` stands for controller-runtime, by the failures of its four steps.
pub mod Rehearsal
use pangolin_gateway.Prelude.{
  Bool, List, Option, Result, String, [], err, false, if◌then◌else◌, none, ok, some, ℕ, ◌==◌, ◌∷◌,
  string_eq,
}
use pangolin_gateway.Client.{Codec, Http, HttpClient, Options, Url, new_http_client}
use pangolin_gateway.Client.Calls.{http_client}
use pangolin_gateway.DryRun.{dry_run}
use pangolin_gateway.Prelude.Int.{ℤ, pos}
use pangolin_gateway.Publisher.{PangolinApi, Publisher, default_resync_interval}

-- The names that two releases must agree on.
abbrev pub leader_election_id : String
leader_election_id = "pangolin-gateway.p3l1.de"

abbrev pub controller_name : String
controller_name = "p3l1.de/pangolin"

-- manager.Config
pub record Config : Type 0 where
  pub metrics_address : String
  pub probe_address : String
  pub leader_election : Bool

-- ctrl.Options, with the fields that the source sets. The scheme is that of the registered types.
pub record ManagerOptions : Type 0 where
  pub uncached : List String
  pub metrics_bind_address : String
  pub health_probe_bind_address : String
  pub leader_election : Bool
  pub leader_election_id : String

-- ControllerOptions
unfoldable pub controller_options : Config → ManagerOptions
controller_options c = record {
  uncached = "Secret" ∷ "ConfigMap" ∷ [];
  metrics_bind_address = c.metrics_address;
  health_probe_bind_address = c.probe_address;
  leader_election = c.leader_election;
  leader_election_id = leader_election_id;
}

-- The command line, and the API key of the environment.
pub record Flags : Type 0 where
  pub config : Config
  pub endpoint : String
  pub org : String
  pub default_site : String
  pub dry_run : Bool
  pub licensed : Bool
  pub resync : ℤ
  pub api_key : String

-- The flags of an empty command line.
abbrev pub default_flags : String → Flags
default_flags key = record {
  config = record { metrics_address = ":8080"; probe_address = ":8081"; leader_election = false };
  endpoint = "";
  org = "";
  default_site = "";
  dry_run = false;
  licensed = false;
  resync = default_resync_interval;
  api_key = key;
}

-- What fails of the manager: its creation, its two checks, the controller.
pub record Setup : Type 0 where
  pub creates : ManagerOptions → Option String
  pub adds_healthz : Option String
  pub adds_readyz : Option String
  pub adds_controller : Publisher → Option String

abbrev pub client_options : Flags → Options
client_options f = record {
  endpoint = f.endpoint;
  org_id = f.org;
  api_key = f.api_key;
  timeout = pos 0;
}

abbrev pub publisher_of : Flags → Publisher
publisher_of f = record {
  controller_name = controller_name;
  default_site = f.default_site;
  resync_interval = f.resync;
  licensed = f.licensed;
  dry_run = f.dry_run;
}

-- A step whose failure ends the program.
abbrev pub step : {A : Type 0} → Option String → Result String A → Result String A
step none next = next
step (some e) next = err e

module _ {W : Type 0} (http : Http W) (codec : Codec) (pages : ℕ) where
  -- The client of the reconciler: under --dry-run behind the decorator.
  abbrev pub client_of : Bool → HttpClient → PangolinApi W
  client_of dry c =
      if dry then dry_run (http_client http codec c pages) else http_client http codec c pages

  abbrev pub assembled : Setup → Flags → HttpClient → Result String (Publisher × PangolinApi W)
  assembled setup f c = step (setup.creates (controller_options f.config)) (
      step setup.adds_healthz (
        step setup.adds_readyz (
          step (setup.adds_controller (publisher_of f))
            (ok (publisher_of f, client_of f.dry_run c)))))

  abbrev pub opened :
      Setup → Flags → Result String HttpClient → Result String (Publisher × PangolinApi W)
  opened setup f (err e) = err e
  opened setup f (ok c) = assembled setup f c

  -- main: the reconciler and its client of Pangolin, or why the program exits.
  unfoldable pub start :
      (String → Result String Url) → Setup → Flags → Result String (Publisher × PangolinApi W)
  start parse_url setup f =
      if f.default_site == ""
      then err "--default-site is required"
      else opened setup f (new_http_client parse_url (client_options f))
