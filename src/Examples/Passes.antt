-- ===== src/Examples/Passes.antt =====
-- A pass whose apply is refused, where any deletion would empty Pangolin.
use pangolin_gateway.Prelude.{
  Bool, List, Result, String, [], err, false, string_eq, none, ok, refl, true, ◌++◌, ◌∷◌, ◌≡◌,
}
use pangolin_gateway.Api.{Condition}
use pangolin_gateway.Blueprint.{Resource}
use pangolin_gateway.Certificates.{Pem}
use pangolin_gateway.Effect.{pure, raise}
use pangolin_gateway.Effect.Keeping.{pure-Keeps, raise-Keeps}
use pangolin_gateway.Prelude.Int.{pos}
use pangolin_gateway.Prune.{Pass, SectionApi}
use pangolin_gateway.Publisher.{ClusterApi, PangolinApi, Publisher}
use pangolin_gateway.Publisher.Failed.{RefusesApply, reconcile_refused_keeps}
use pangolin_gateway.Publisher.Keeping.{ClusterKeeps, ListingsKeep, ReadsKeep}
use pangolin_gateway.Publisher.Reconcile.{reconcile}
use pangolin_gateway.Publisher.Statuses.Keeping.{UpdatesKeep}
use pangolin_gateway.Rules.{RuleSpec}
use pangolin_gateway.Secrets.{SecretApi}
use pangolin_gateway.Secrets.Keeping.{SecretsKeep}

abbrev pub Rows : Type 0
Rows = List Resource

abbrev pub rows : Rows
rows = record { resource_id = 1; nice_id = "gw-shop-old" } ∷ []

abbrev emptying : SectionApi Rows
emptying = record { list = λ w. (ok w, w); del = λ id w. (none, []) }

abbrev pub refusing : PangolinApi Rows
refusing = record {
  apply_blueprint = λ bp. raise "timeout";
  list_sites = pure [];
  list_machines = pure [];
  list_users = pure [];
  public_section = emptying;
  private_section = emptying;
  policy_section = emptying;
  list_certificates = λ id. pure [];
}

abbrev pub no_secrets : SecretApi Rows
no_secrets = record {
  get_secret = λ n. pure none;
  get_config_map = λ n. pure none;
  create_secret = λ s. pure tt;
  random_password = pure "p";
  complaint = λ n. none;
}

abbrev pub idle_cluster : ClusterApi Rows
idle_cluster = record {
  list_classes = pure [];
  list_gateways = pure [];
  list_routes = pure [];
  list_resources = pure [];
  list_policies = pure [];
  update_route = λ r. pure tt;
  update_class = λ c. pure tt;
  update_gateway = λ g. pure tt;
  update_resource = λ r. pure tt;
  update_policy = λ r. pure tt;
  secrets = no_secrets;
}

abbrev pub publisher : Publisher
publisher = record {
  controller_name = "p3l1.de/pangolin";
  default_site = "";
  resync_interval = pos 0;
  licensed = true;
  dry_run = false;
}

abbrev pub no_pem : Pem
no_pem = record { decode = λ t. none; encode = λ b. ""; complaint = λ t. none }

abbrev pub append_one : List Condition → Condition → List Condition × Bool
append_one cs c = (cs ++ (c ∷ []), true)

abbrev pub no_yaml : String → Result String (List RuleSpec)
no_yaml t = err "no rules"

abbrev pub Unchanged : Rows → Type 0
Unchanged w = w ≡ rows

secrets_keep : SecretsKeep Unchanged no_secrets
secrets_keep = record {
  gets_secret = λ n. pure-Keeps none;
  gets_config_map = λ n. pure-Keeps none;
  creates_secret = λ s. pure-Keeps tt;
  draws_password = pure-Keeps "p";
}

updates_keep : UpdatesKeep Unchanged idle_cluster
updates_keep = record {
  updates_route = λ r. pure-Keeps tt;
  updates_class = λ c. pure-Keeps tt;
  updates_gateway = λ g. pure-Keeps tt;
  updates_resource = λ r. pure-Keeps tt;
  updates_policy = λ r. pure-Keeps tt;
}

reads_keep : ReadsKeep Unchanged idle_cluster
reads_keep = record {
  lists_classes = pure-Keeps [];
  lists_gateways = pure-Keeps [];
  lists_routes = pure-Keeps [];
  lists_resources = pure-Keeps [];
  lists_policies = pure-Keeps [];
  secret_calls = secrets_keep;
}

pub cluster_keeps : ClusterKeeps Unchanged idle_cluster
cluster_keeps = record { cluster_reads = reads_keep; updates = updates_keep }

listings_keep : ListingsKeep Unchanged refusing
listings_keep = record {
  lists_sites = pure-Keeps [];
  lists_machines = pure-Keeps [];
  lists_users = pure-Keeps [];
}

refuses_apply : RefusesApply Unchanged refusing
refuses_apply = record {
  listings = listings_keep;
  applies = λ bp. raise-Keeps "timeout";
  refuses = λ bp w. ("timeout", refl);
}

abbrev pub first_pass : Pass Rows
first_pass = record { world = rows; metrics = [] }

reconcile_refused_keeps_example :
    (reconcile idle_cluster refusing publisher no_pem
      (λ c. "")
      append_one
      no_yaml
      first_pass).1.world
    ≡ rows
reconcile_refused_keeps_example =
    reconcile_refused_keeps Unchanged idle_cluster refusing publisher no_pem (λ c. "") append_one
      no_yaml cluster_keeps refuses_apply first_pass refl

-- A cluster that does not show its routes, and whose updates would empty Pangolin.
abbrev blind_cluster : ClusterApi Rows
blind_cluster = record idle_cluster {
  list_routes = raise "forbidden";
  update_route = λ r w. (ok tt, []);
}
