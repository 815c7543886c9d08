-- ===== src/Scheduler/Pass.antt =====
-- The alerts of a cluster after a pass of cmd/platform-scheduler/main.go.
use talos_app.Prelude.{
  ◌≤◌, suc, ◌≡◌, refl, sym, ◌∙◌, Bool, true, false, String, List, if◌then◌else◌, length,
}
use talos_app.Shared.{zero_id}
use talos_app.Exec.{Result, ok, err, pure, ◌>>=◌, attempt}
use talos_app.Exec.Triple.{After, Triple, then-Triple, pure-Triple}
use talos_app.Domain.Cluster.{Cluster}
use talos_app.Domain.GitOps.{ArgoApplication}
use talos_app.Platform.{Platform, World, IsHealthy, call, tick}
use talos_app.Platform.Rows.{affects}
use talos_app.Ports.{ArgoCdClient, ApplicationStatus, outside}
use talos_app.AuditRepo.{list_alerts}
use talos_app.AuditRepo.Firing.{fires}
use talos_app.GitOpsRepo.{upsert_application, fill_id}
use talos_app.Scheduler.{
  cluster_state_title, drift_title, health_title, is_listed, is_unwell, has_drifted, is_unhealthy,
  settle_alert, firing_alert_titles, observe_application, reconcile_argocd, reconcile_cluster,
}
use talos_app.Scheduler.Settled.{firing_alerts, titles_of, listed_fires, settle_alert-Settles}

-- What a pass sees of an application: nothing without Argo CD, or where Argo CD does not answer.
abbrev pub seen : Bool → Result ApplicationStatus → (ApplicationStatus → Bool) → Bool → Bool
seen false r test before = before
seen true (err x) test before = before
seen true (ok status) test before = test status

abbrev Never : {S : Type 0} → S → Type 0
Never s = ⊥

module _ {X : Type 0} (w : World) (h : IsHealthy w) (c : Cluster) where
  -- Which of the three alerts fire.
  abbrev Fire : Bool → Bool → Bool → Platform X → Type 0
  Fire a d k s =
      (affects (fires c.id cluster_state_title) s.db.alerts ≡ a)
      × (affects (fires c.id drift_title) s.db.alerts ≡ d)
      × (affects (fires c.id health_title) s.db.alerts ≡ k)

  application-Triple :
      (a d k : Bool) (app : ArgoApplication)
      → app.id ≡ zero_id
      → Triple (Fire a d k) (λ u s. Fire a d k s) Never (attempt (upsert_application w app))
  unfolding upsert_application fill_id call ◌>>=◌
  application-Triple a d k app e = record { leads = λ s p. rw (e, h (suc (suc s.calls))) p }

  module _ (ts : List String) (a d k : Bool) where
    drift-Triple :
        (holds : Bool) (sev : _) (t : _)
        → is_listed drift_title ts ≡ d
        → Triple
            (Fire a d k)
            (λ u s. Fire a holds k s)
            Never
            (settle_alert w c.id drift_title sev holds ts t)
    drift-Triple holds sev t l = record {
      leads = λ s (p, q, o).
          let r = settle_alert-Settles w h c.id drift_title sev holds ts t s in
          rw r.returns (r.others _ refl ∙ p, r.own (l ∙ sym q), r.others _ refl ∙ o);
    }

    health-Triple :
        (holds : Bool) (sev : _) (t : _)
        → is_listed health_title ts ≡ k
        → Triple
            (Fire a d k)
            (λ u s. Fire a d holds s)
            Never
            (settle_alert w c.id health_title sev holds ts t)
    health-Triple holds sev t l = record {
      leads = λ s (p, q, o).
          let r = settle_alert-Settles w h c.id health_title sev holds ts t s in
          rw r.returns (r.others _ refl ∙ p, r.others _ refl ∙ q, r.own (l ∙ sym o));
    }

    state-Triple :
        (o : X) (holds : Bool) (sev : _) (t : _)
        → is_listed cluster_state_title ts ≡ a
        → Triple
            (λ s. Fire a d k s × (s.outside ≡ o))
            (λ u s. Fire holds d k s × (s.outside ≡ o))
            Never
            (settle_alert w c.id cluster_state_title sev holds ts t)
    state-Triple o holds sev t l = record {
      leads = λ s ((p, q, u), same).
          let r = settle_alert-Settles w h c.id cluster_state_title sev holds ts t s in
          rw r.returns
            ((r.own (l ∙ sym p), r.others _ refl ∙ q, r.others _ refl ∙ u), r.aside ∙ same);
    }

  module _ (ts : List String) (a d k : Bool) where
    observe-Triple :
        (res : Result ApplicationStatus)
        → is_listed drift_title ts ≡ d
        → is_listed health_title ts ≡ k
        → Triple
            (Fire a d k)
            (λ u s.
              Fire a
                (seen true res (λ x. has_drifted x.sync_status) d)
                (seen true res (λ x. is_unhealthy x.health_status) k)
                s)
            Never
            (observe_application w c ts res)
    unfolding observe_application
    observe-Triple (err x) ld lk = pure-Triple tt (λ s p. p)
    observe-Triple (ok status) ld lk = then-Triple _ _ (application-Triple a d k _ refl) (λ u.
        then-Triple _ _ (drift-Triple ts a d k (has_drifted status.sync_status) _ _ ld) (λ v.
          health-Triple ts a (has_drifted status.sync_status) k (is_unhealthy status.health_status)
            _ _ lk))

  module _ (argo : ArgoCdClient X) (ts : List String) (a d k : Bool) where
    -- The application is asked for in the state of Argo CD at the start of the pass.
    argocd-Triple :
        (o : X)
        → is_listed drift_title ts ≡ d
        → is_listed health_title ts ≡ k
        → let res = (argo.get_application c.name o).0 in
          Triple
            (λ s. Fire a d k s × (s.outside ≡ o))
            (λ u s.
              Fire a
                (seen true res (λ x. has_drifted x.sync_status) d)
                (seen true res (λ x. is_unhealthy x.health_status) k)
                s)
            Never
            (reconcile_argocd w argo c ts)
    unfolding reconcile_argocd outside ◌>>=◌
    argocd-Triple o ld lk = record {
      leads = λ s (p, same). rw same (
          (observe-Triple ts a d k (argo.get_application c.name o).0 ld lk).leads
            (record s { outside = (argo.get_application c.name o).1 }) p);
    }

    optional-Triple :
        (o : X) (on : Bool)
        → is_listed drift_title ts ≡ d
        → is_listed health_title ts ≡ k
        → let res = (argo.get_application c.name o).0 in
          Triple
            (λ s. Fire a d k s × (s.outside ≡ o))
            (λ u s.
              Fire a
                (seen on res (λ x. has_drifted x.sync_status) d)
                (seen on res (λ x. is_unhealthy x.health_status) k)
                s)
            Never
            (if on then reconcile_argocd w argo c ts else pure tt)
    optional-Triple o true ld lk = argocd-Triple o ld lk
    optional-Triple o false ld lk = pure-Triple tt (λ s p. p.0)

  -- Where every call of the database goes through and the cluster has at most fifty firing alerts: after
  -- a pass over a cluster, an alert of its state fires exactly if it is DEGRADED or FAILED. With Argo CD
  -- enabled and an application that it knows, an alert of drift fires exactly if it is out of sync, and
  -- one of its health exactly if it is degraded or missing; else both are as they were.
  pub reconcile_cluster-settles :
      (argo : ArgoCdClient X) (s : Platform X)
      → length (firing_alerts c.id s.db.alerts) ≤ 50
      → let r = reconcile_cluster w argo c s in
        let res = (argo.get_application c.name s.outside).0 in
        let on = c.spec.argocd.enabled in
        let before = λ (title : String). affects (fires c.id title) s.db.alerts in
        (r.0 ≡ ok tt)
        × (affects (fires c.id cluster_state_title) r.1.db.alerts ≡ is_unwell c.state)
        × (affects (fires c.id drift_title) r.1.db.alerts
            ≡ seen on res (λ x. has_drifted x.sync_status) (before drift_title))
        × (affects (fires c.id health_title) r.1.db.alerts
            ≡ seen on res (λ x. is_unhealthy x.health_status) (before health_title))
  unfolding reconcile_cluster firing_alert_titles list_alerts call ◌>>=◌
  reconcile_cluster-settles argo s few =
      let ts = titles_of c.id s.db.alerts in
      let listed = λ (title : String). listed_fires c.id title s.db.alerts few in
      rw (h s.calls) (
        ended _ _ _ _ _ (
          (then-Triple _ _
              (state-Triple ts _ _ _ s.outside (is_unwell c.state) _ _ (listed cluster_state_title))
              (λ u.
                optional-Triple argo ts (is_unwell c.state) _ _ s.outside c.spec.argocd.enabled
                  (listed drift_title) (listed health_title))).leads
            (tick s) ((refl, refl, refl), refl)))
    where
      ended :
          (a d k : Bool) (r : Result (Unit {0})) (y : Platform X)
          → After (λ u z. Fire a d k z) Never r y
          → (r ≡ ok tt)
            × (affects (fires c.id cluster_state_title) y.db.alerts ≡ a)
            × (affects (fires c.id drift_title) y.db.alerts ≡ d)
            × (affects (fires c.id health_title) y.db.alerts ≡ k)
      ended a d k (ok u) y (p, q, o) = (refl, p, q, o)
      ended a d k (err x) y p = elim p [ ]
