-- ===== src/Examples/Success.antt =====
-- A pass that succeeds, and deletes an orphan on the way.
use pangolin_gateway.Prelude.{ok, refl, ◌≡◌}
use pangolin_gateway.Examples.Passes.{
  Rows, append_one, first_pass, idle_cluster, no_pem, no_yaml, publisher, refusing,
}
use pangolin_gateway.Map.{has_key}
use pangolin_gateway.Order.{stable_sort}
use pangolin_gateway.Parents.{served_routes}
use pangolin_gateway.Prelude.Int.{pos}
use pangolin_gateway.Prune.{join_errors, prune}
use pangolin_gateway.Publisher.{PangolinApi, resync_interval}
use pangolin_gateway.Publisher.Reconcile.{reconcile}
use pangolin_gateway.Publisher.Statuses.{write_policies, write_resources, write_status}
use pangolin_gateway.Publisher.Succeeds.{Succeeded, reconcile-Succeeded}
use pangolin_gateway.Publisher.Verify.{verify_mtls}
use pangolin_gateway.Render.{render_all}
use pangolin_gateway.Secrets.{resolve_basic_auth_from, resolve_mtls_from}
use pangolin_gateway.Text.{has_prefix}

-- A Pangolin that accepts the blueprint, and holds an orphan.
abbrev accepting : PangolinApi Rows
accepting = record refusing { apply_blueprint = λ bp w. (ok tt, w) }

accepted_pass :
    (reconcile idle_cluster accepting publisher no_pem (λ c. "") append_one no_yaml first_pass).0
    ≡ ok (pos 300000000000)
unfolding reconcile resolve_basic_auth_from served_routes resolve_mtls_from verify_mtls render_all
    stable_sort write_status write_resources write_policies join_errors prune has_prefix has_key
    resync_interval
accepted_pass = refl

reconcile-Succeeded_example :
    Succeeded idle_cluster accepting publisher no_pem
      (λ c. "")
      append_one
      no_yaml
      first_pass
      (pos 300000000000)
reconcile-Succeeded_example =
    reconcile-Succeeded idle_cluster accepting publisher no_pem (λ c. "") append_one no_yaml
      first_pass accepted_pass
