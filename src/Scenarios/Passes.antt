-- ===== src/Scenarios/Passes.antt =====
-- A pass of the scheduler over a degraded cluster that Argo CD does not know.
use talos_app.Prelude.{◌≡◌, refl, some, find, true, false, [], ◌∷◌, arith}
use talos_app.Shared.{sentinel, not_found, lit, no_text}
use talos_app.Domain.Audit.{Alert, warning, firing, is_firing}
use talos_app.Exec.{ok, err}
use talos_app.Domain.Cluster.{State}
use talos_app.Platform.{Platform}
use talos_app.Platform.Rows.{affects}
use talos_app.Ports.{ArgoCdClient}
use talos_app.AuditRepo.Firing.{fires, titled}
use talos_app.Scheduler.{
  observed, reconcile_cluster, run_if_leader, cluster_state_title, drift_title, health_title,
}
use talos_app.Scheduler.Onset.{fire_again, upsert_cluster_alert-onset}
use talos_app.Scheduler.Observes.{run_if_leader-observes}
use talos_app.Scheduler.Pass.{reconcile_cluster-settles}
use talos_app.Scenarios.{healthy, healthy-IsHealthy, publish_fails}
use talos_app.Scenarios.Clusters.{a_cluster, holding}

abbrev unknown : ArgoCdClient (Unit {0})
unknown = record {
  get_application = λ name x. (err (sentinel not_found), x);
  sync = λ name x. (ok tt, x);
}

run_if_leader-observes_example :
    let s = holding State.degraded in
    let r = run_if_leader publish_fails unknown true s in
    (record r.1.db { alerts = []; applications = [] } ≡ s.db) × (r.1.dispatches ≡ [])
run_if_leader-observes_example =
    run_if_leader-observes publish_fails unknown true (holding State.degraded)

reconcile_cluster-settles_example :
    let r = reconcile_cluster healthy unknown (a_cluster State.degraded) (holding State.degraded) in
    (r.0 ≡ ok tt)
    × (affects (fires 5 cluster_state_title) r.1.db.alerts ≡ true)
    × (affects (fires 5 drift_title) r.1.db.alerts ≡ false)
    × (affects (fires 5 health_title) r.1.db.alerts ≡ false)
unfolding affects talos_app.Platform.Rows.newest_where
reconcile_cluster-settles_example =
    reconcile_cluster-settles healthy healthy-IsHealthy (a_cluster State.degraded) unknown
      (holding State.degraded) (omega arith)

abbrev an_alert : Alert
an_alert = record (observed 3 5 cluster_state_title warning firing no_text) { id = 90 }

abbrev firing_already : Platform (Unit {0})
firing_already = record (holding State.degraded) {
  db = record (holding State.degraded).db { alerts = an_alert ∷ [] };
}

upsert_cluster_alert-onset_example :
    let details = lit "seen" ∷ lit "seen again" ∷ [] in
    (row : Alert) × (find
        (titled 5 cluster_state_title)
        (fire_again healthy healthy-IsHealthy 5 cluster_state_title warning details
          firing_already).1.db.alerts
      ≡ some row)
    × (row.fired_at ≡ 3)
    × (is_firing row.status ≡ true)
unfolding find
upsert_cluster_alert-onset_example =
    upsert_cluster_alert-onset healthy healthy-IsHealthy 5 cluster_state_title warning
      (lit "seen" ∷ lit "seen again" ∷ []) firing_already an_alert refl refl
