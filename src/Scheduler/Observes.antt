-- ===== src/Scheduler/Observes.antt =====
-- What a pass of cmd/platform-scheduler/main.go leaves alone.
use talos_app.Prelude.{◌≡◌, refl, ap, Bool, true, false, String, List, [], ◌∷◌, if◌then◌else◌}
use talos_app.Shared.{Uuid, Text}
use talos_app.Exec.{Result, ok, err}
use talos_app.Exec.Frame.{
  IsFixed, then-IsFixed, attempt-IsFixed, wrapped-IsFixed, pure-IsFixed, if-IsFixed,
}
use talos_app.Domain.Audit.{EventSeverity, Alert, AlertStatus}
use talos_app.Domain.Cluster.{Cluster}
use talos_app.Platform.{Platform, Db, World, new_id}
use talos_app.Platform.Calls.{call-IsFixed, clock-IsFixed}
use talos_app.Ports.{ArgoCdClient, ApplicationStatus, outside}
use talos_app.AuditRepo.{upsert_alert, list_alerts}
use talos_app.ClusterRepo.Listing.{list_clusters}
use talos_app.GitOpsRepo.{upsert_application, fill_id}
use talos_app.Scheduler.{
  upsert_cluster_alert, settle_alert, firing_alert_titles, observe_application, reconcile_argocd,
  reconcile_cluster, reconcile_all, reconcile_listed, run, run_if_leader,
}

module _ {X : Type 0} where
  -- All tables but the alerts and the cached applications, and the messages.
  abbrev pub besides : Platform X → Db × List Uuid
  besides s = (record s.db { alerts = []; applications = [] }, s.dispatches)

module _ {X : Type 0} (w : World) where
  given_id-IsFixed :
      (id : Uuid) (b : Bool) → IsFixed (besides {X = X}) (λ s. if b then new_id w s else (ok id, s))
  given_id-IsFixed id true = record { fixed = λ s. refl }
  given_id-IsFixed id false = record { fixed = λ s. refl }

  upsert_alert-IsFixed : (a : Alert) → IsFixed (besides {X = X}) (upsert_alert w a)
  unfolding upsert_alert
  upsert_alert-IsFixed a = then-IsFixed besides _ _ (given_id-IsFixed a.id _) (λ id.
      wrapped-IsFixed besides _ _
        (call-IsFixed besides (λ s. refl) w _ (record { fixed = λ s. refl })))

  upsert_application-IsFixed : (a : _) → IsFixed (besides {X = X}) (upsert_application w a)
  unfolding upsert_application fill_id
  upsert_application-IsFixed a =
      then-IsFixed besides _ _ (clock-IsFixed besides (λ s. refl) w) (λ now.
        then-IsFixed besides _ _ (given_id-IsFixed a.id _)
          (λ id. call-IsFixed besides (λ s. refl) w _ (record { fixed = λ s. refl })))

  upsert_cluster_alert-IsFixed :
      (id : Uuid) (title : String) (sev : EventSeverity) (st : AlertStatus) (t : Text)
      → IsFixed (besides {X = X}) (upsert_cluster_alert w id title sev st t)
  unfolding upsert_cluster_alert
  upsert_cluster_alert-IsFixed id title sev st t =
      then-IsFixed besides _ _ (clock-IsFixed besides (λ s. refl) w) (λ now.
        then-IsFixed besides _ _ (attempt-IsFixed besides _ (upsert_alert-IsFixed _))
          (λ r. pure-IsFixed besides tt))

  settle_alert-IsFixed :
      (id : Uuid) (title : String) (sev : EventSeverity) (holds : Bool) (ts : List String)
      (t : Text)
      → IsFixed (besides {X = X}) (settle_alert w id title sev holds ts t)
  unfolding settle_alert
  settle_alert-IsFixed id title sev holds ts t =
      if-IsFixed besides holds _ _ (upsert_cluster_alert-IsFixed id title sev _ t) (
        if-IsFixed besides _ _ _ (upsert_cluster_alert-IsFixed id title sev _ _)
          (pure-IsFixed besides tt))

  observe_application-IsFixed :
      (c : Cluster) (ts : List String) (r : Result ApplicationStatus)
      → IsFixed (besides {X = X}) (observe_application w c ts r)
  unfolding observe_application
  observe_application-IsFixed c ts (err x) = pure-IsFixed besides tt
  observe_application-IsFixed c ts (ok status) =
      then-IsFixed besides _ _ (attempt-IsFixed besides _ (upsert_application-IsFixed _)) (λ r.
        then-IsFixed besides _ _ (settle_alert-IsFixed c.id _ _ _ ts _)
          (λ u. settle_alert-IsFixed c.id _ _ _ ts _))

  firing_alert_titles-IsFixed : (id : Uuid) → IsFixed (besides {X = X}) (firing_alert_titles w id)
  unfolding firing_alert_titles list_alerts
  firing_alert_titles-IsFixed id =
      then-IsFixed besides _ _
        (wrapped-IsFixed besides _ _
          (call-IsFixed besides (λ s. refl) w _ (record { fixed = λ s. refl })))
        (λ l. pure-IsFixed besides _)

  module _ (argo : ArgoCdClient X) where
    reconcile_argocd-IsFixed :
        (c : Cluster) (ts : List String) → IsFixed besides (reconcile_argocd w argo c ts)
    unfolding reconcile_argocd outside
    reconcile_argocd-IsFixed c ts =
        then-IsFixed besides _ _ (attempt-IsFixed besides _ (record { fixed = λ s. refl }))
          (λ r. observe_application-IsFixed c ts r)

    reconcile_cluster-IsFixed : (c : Cluster) → IsFixed besides (reconcile_cluster w argo c)
    unfolding reconcile_cluster
    reconcile_cluster-IsFixed c =
        then-IsFixed besides _ _ (attempt-IsFixed besides _ (firing_alert_titles-IsFixed c.id))
          (λ r. then-IsFixed besides _ _ (settle_alert-IsFixed c.id _ _ _ _ _) (λ u.
            if-IsFixed besides c.spec.argocd.enabled _ _ (reconcile_argocd-IsFixed c _)
              (pure-IsFixed besides tt)))

    reconcile_all-IsFixed : (cs : List Cluster) → IsFixed besides (reconcile_all w argo cs)
    unfolding reconcile_all
    reconcile_all-IsFixed [] = pure-IsFixed besides tt
    reconcile_all-IsFixed (c ∷ rest) =
        then-IsFixed besides _ _ (reconcile_cluster-IsFixed c) (λ u. reconcile_all-IsFixed rest)

    reconcile_listed-IsFixed :
        (r : Result (List Cluster)) → IsFixed besides (reconcile_listed w argo r)
    unfolding reconcile_listed
    reconcile_listed-IsFixed (ok cs) = reconcile_all-IsFixed cs
    reconcile_listed-IsFixed (err x) = pure-IsFixed besides tt

    run-IsFixed : IsFixed besides (run w argo)
    unfolding run list_clusters
    run-IsFixed =
        then-IsFixed besides _ _
          (attempt-IsFixed besides _ (
            wrapped-IsFixed besides _ _
              (call-IsFixed besides (λ s. refl) w _ (record { fixed = λ s. refl }))))
          (λ r. reconcile_listed-IsFixed r)

    -- Whatever calls fail and whatever Argo CD answers, a pass of the scheduler writes no table but
    -- the alerts and the cached applications, and sends no message: it observes the clusters only.
    pub run_if_leader-observes :
        (leads : Bool) (s : Platform X)
        → let r = run_if_leader w argo leads s in
          (record r.1.db { alerts = s.db.alerts; applications = s.db.applications } ≡ s.db)
          × (r.1.dispatches ≡ s.dispatches)
    unfolding run_if_leader
    run_if_leader-observes leads s =
        let e =
          (if-IsFixed besides leads (run w argo) _ run-IsFixed (pure-IsFixed besides tt)).fixed s in
        (
          ap (λ q. record q.0 { alerts = s.db.alerts; applications = s.db.applications }) e,
          ap (λ q. q.1) e,
        )
