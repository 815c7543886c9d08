-- ===== src/Scheduler/Onset.antt =====
-- Since when an alert of cmd/platform-scheduler/main.go fires.
use talos_app.Prelude.{suc, ◌≡◌, refl, ◌∙◌, String, true, some, List, [], ◌∷◌, find}
use talos_app.Shared.{Uuid, Text}
use talos_app.Exec.{Exec, pure, ◌>>=◌, ◌>>◌}
use talos_app.Domain.Audit.{Alert, EventSeverity, firing, is_firing}
use talos_app.Platform.{Platform, World, IsHealthy, tick}
use talos_app.Platform.Rows.Lookup.{affects_of_find, find-update_rows}
use talos_app.AuditRepo.{set_alert, put_alert, kept_fired_at}
use talos_app.AuditRepo.Firing.{titled}
use talos_app.Scheduler.{upsert_cluster_alert, observed}
use talos_app.Scheduler.Settled.{upsert-healthy}

module _ (id : Uuid) (t : String) where
  once :
      (a row : Alert) (rows : List Alert)
      → find (titled id t) rows ≡ some row
      → find
          (titled id t)
          (put_alert (record a { target_kind = "cluster"; target_id = id; title = t }) rows)
        ≡ some (set_alert (record a { target_kind = "cluster"; target_id = id; title = t }) row)
  unfolding put_alert set_alert
  once a row rows found =
      rw (affects_of_find (titled id t) rows row found)
        (find-update_rows (titled id t) _ rows row (λ y. refl) found)

kept :
    (a row : Alert)
    → is_firing row.status ≡ true
    → a.status ≡ firing
    → ((set_alert a row).fired_at ≡ row.fired_at) × (is_firing (set_alert a row).status ≡ true)
unfolding set_alert kept_fired_at
kept a row on e = rw (e, on) (refl, refl)

module _ {X : Type 0} (w : World) (h : IsHealthy w) (id : Uuid) (t : String)
    (sev : EventSeverity) where
  -- The alert of a condition that holds in one pass after the other, with what each pass says of it.
  unfoldable pub fire_again : List Text → Exec (Platform X) (Unit {0})
  fire_again [] = pure tt
  fire_again (detail ∷ rest) = do upsert_cluster_alert w id t sev firing detail; fire_again rest

  -- Where every call goes through, an alert that fires keeps the time at which it began to fire, and
  -- fires on, however often the condition is seen again.
  pub upsert_cluster_alert-onset :
      (details : List Text) (s : Platform X) (row : Alert)
      → find (titled id t) s.db.alerts ≡ some row
      → is_firing row.status ≡ true
      → (row' : Alert) × (find (titled id t) (fire_again details s).1.db.alerts ≡ some row')
        × (row'.fired_at ≡ row.fired_at)
        × (is_firing row'.status ≡ true)
  unfolding fire_again ◌>>=◌
  upsert_cluster_alert-onset [] s row found on = (row, found, refl, on)
  upsert_cluster_alert-onset (detail ∷ rest) s row found on =
      let a = record (observed (w.time s.calls) id t sev firing detail) {
        id = w.fresh (suc s.calls);
      } in
      let (same, still) = kept a row on refl in
      let s' = record (tick (tick (tick s))) {
        db = record s.db { alerts = put_alert a s.db.alerts };
      } in
      let (row', f, g, k) =
        upsert_cluster_alert-onset rest s' (set_alert a row) (once id t a row s.db.alerts found)
          still in
      rw (upsert-healthy w h id t sev firing detail s) (row', f, g ∙ same, k)
