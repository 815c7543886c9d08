-- ===== src/Scheduler.antt =====
-- cmd/platform-scheduler/main.go: the reconciliation pass over the clusters. Metrics, traces and log
-- lines are left out.
pub mod Settled
pub mod Observes
pub mod Pass
pub mod Onset
use talos_app.Prelude.{
  String, Bool, true, false, Option, none, some, List, [], ◌∷◌, ◌||◌, map, str_eq, if◌then◌else◌,
}
use talos_app.Shared.{Uuid, Time, Page, zero_id, Text, lit, join, no_text, no_timestamps}
use talos_app.Exec.{Exec, Result, ok, err, pure, attempt, ◌>>=◌, ◌>>◌}
use talos_app.Domain.Audit.{
  EventSeverity, Alert, AlertStatus, warning, error, firing, resolved, is_resolved,
}
use talos_app.Domain.Cluster.{Cluster, State, failed, state_name}
use talos_app.Domain.GitOps.{
  SyncStatus, HealthStatus, out_of_sync, missing, health_unknown, progressing, healthy, suspended,
}
use talos_app.Platform.{Platform, World, clock}
use talos_app.Ports.{ArgoCdClient, ApplicationStatus, outside}
use talos_app.AuditRepo.{AlertFilter, upsert_alert, list_alerts}
use talos_app.ClusterRepo.Listing.{no_filter, list_clusters}
use talos_app.GitOpsRepo.{upsert_application}

abbrev pub is_unwell : State → Bool
is_unwell State.degraded = true
is_unwell failed = true
is_unwell _ = false

abbrev pub has_drifted : SyncStatus → Bool
has_drifted out_of_sync = true
has_drifted _ = false

abbrev pub is_unhealthy : HealthStatus → Bool
is_unhealthy HealthStatus.degraded = true
is_unhealthy missing = true
is_unhealthy _ = false

unfoldable pub health_name : HealthStatus → String
health_name health_unknown = "Unknown"
health_name progressing = "Progressing"
health_name healthy = "Healthy"
health_name suspended = "Suspended"
health_name HealthStatus.degraded = "Degraded"
health_name missing = "Missing"

abbrev pub cluster_state_title : String
cluster_state_title = "Cluster in DEGRADED/FAILED state"

abbrev pub drift_title : String
drift_title = "GitOps drift detected"

abbrev pub health_title : String
health_title = "Argo CD application unhealthy"

-- `firing[title]`
unfoldable pub is_listed : String → List String → Bool
is_listed title [] = false
is_listed title (t ∷ rest) = if str_eq t title then true else is_listed title rest

abbrev pub firing_of : Uuid → AlertFilter
firing_of id = record { target_kind = "cluster"; target_id = some id; status = some firing }

abbrev or_none : Result (List String) → List String
or_none (ok titles) = titles
or_none (err x) = []

-- The alert that `upsertAlert` makes.
abbrev pub observed : Time → Uuid → String → EventSeverity → AlertStatus → Text → Alert
observed now cluster title severity status detail = record {
  id = zero_id;
  target_kind = "cluster";
  target_id = cluster;
  severity = severity;
  status = status;
  title = title;
  detail = detail;
  fired_at = now;
  resolved_at = if is_resolved status then some now else none;
}

module _ {X : Type 0} (w : World) where
  -- `upsertAlert`: its error is logged.
  unfoldable pub upsert_cluster_alert :
      Uuid → String → EventSeverity → AlertStatus → Text → Exec (Platform X) (Unit {0})
  upsert_cluster_alert cluster title severity status detail = do
    now ← clock w
    attempt (upsert_alert w (observed now cluster title severity status detail))
    pure tt

  -- The alert of one condition: it fires where the condition holds, and is resolved where it fired.
  unfoldable pub settle_alert :
      Uuid → String → EventSeverity → Bool → List String → Text → Exec (Platform X) (Unit {0})
  settle_alert cluster title severity holds titles detail =
      if holds
      then upsert_cluster_alert cluster title severity firing detail
      else if is_listed title titles
      then upsert_cluster_alert cluster title severity resolved no_text
      else pure tt

  unfoldable pub firing_alert_titles : Uuid → Exec (Platform X) (List String)
  firing_alert_titles cluster = do
    alerts ← list_alerts w (firing_of cluster) (record { limit = 50; offset = 0 })
    pure (map (λ (a : Alert). a.title) alerts)

  -- `reconcileArgoCD` once the application is known.
  unfoldable pub observe_application :
      Cluster → List String → Result ApplicationStatus → Exec (Platform X) (Unit {0})
  observe_application c titles (err x) = pure tt
  observe_application c titles (ok status) = do
    attempt (
        upsert_application w (record {
          id = zero_id;
          cluster_id = c.id;
          name = status.name;
          namespace = status.namespace;
          project = status.project;
          sync_status = status.sync_status;
          health_status = status.health_status;
          revision = status.revision;
          last_synced_at = none;
          timestamps = no_timestamps;
        }))
    settle_alert c.id drift_title warning (has_drifted status.sync_status) titles (
        join (lit "Argo CD reports %s as OutOfSync (revision %s)")
          (join (lit c.name) (lit status.revision)))
    settle_alert c.id health_title error (is_unhealthy status.health_status) titles (
        join (lit "Argo CD reports %s health as %s")
          (join (lit c.name) (lit (health_name status.health_status))))

  module _ (argo : ArgoCdClient X) where
    unfoldable pub reconcile_argocd : Cluster → List String → Exec (Platform X) (Unit {0})
    reconcile_argocd c titles = do
      status ← attempt (outside (argo.get_application c.name))
      observe_application c titles status

    unfoldable pub reconcile_cluster : Cluster → Exec (Platform X) (Unit {0})
    reconcile_cluster c = do
      listed ← attempt (firing_alert_titles c.id)
      let titles = or_none listed
      settle_alert c.id cluster_state_title warning (is_unwell c.state) titles (
          join (lit "cluster observed in %s state during reconciliation pass")
            (lit (state_name c.state)))
      if c.spec.argocd.enabled then reconcile_argocd c titles else pure tt

    -- The loop of `run`.
    unfoldable pub reconcile_all : List Cluster → Exec (Platform X) (Unit {0})
    reconcile_all [] = pure tt
    reconcile_all (c ∷ rest) = do reconcile_cluster c; reconcile_all rest

    unfoldable pub reconcile_listed : Result (List Cluster) → Exec (Platform X) (Unit {0})
    reconcile_listed (ok clusters) = reconcile_all clusters
    reconcile_listed (err x) = pure tt

    unfoldable pub run : Exec (Platform X) (Unit {0})
    run = do
      listed ← attempt (list_clusters w no_filter (record { limit = 500; offset = 0 }))
      reconcile_listed listed

    -- `runIfLeader`, from the answer of the elector.
    unfoldable pub run_if_leader : Bool → Exec (Platform X) (Unit {0})
    run_if_leader leads = if leads then run else pure tt
