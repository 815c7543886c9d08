-- ===== src/AuditRepo.antt =====
-- internal/infrastructure/postgres/audit_repo.go: the alerts and the events.
pub mod Firing
use talos_app.Prelude.{
  String, Bool, true, false, Option, none, some, List, [], ◌∷◌, ◌++◌, ◌==◌, ◌&&◌, not, str_eq,
  if◌then◌else◌,
}
use talos_app.Shared.{Uuid, Time, Page, matches_text}
use talos_app.Exec.{Exec, ok, wrapped, ◌>>=◌}
use talos_app.Domain.Audit.{
  Alert, AlertStatus, firing, resolved, acknowledged, is_firing, is_resolved, Event,
}
use talos_app.Platform.{Platform, World, call, new_id}
use talos_app.Platform.Rows.{update_rows, affects, newest_where, paged}

-- The unique key of an alert.
abbrev pub same_alert : Alert → Alert → Bool
same_alert a row =
    str_eq row.target_kind a.target_kind && row.target_id == a.target_id && str_eq row.title a.title

-- The `CASE` of `fired_at`: kept, unless an alert that is not firing fires.
unfoldable pub kept_fired_at : AlertStatus → AlertStatus → Time → Time → Time
kept_fired_at given old given_at old_at =
    if is_firing given && not (is_firing old) then given_at else old_at

-- `ON CONFLICT (target_kind, target_id, title) DO UPDATE SET …`
unfoldable pub set_alert : Alert → Alert → Alert
unfolding kept_fired_at
set_alert a row = record row {
  severity = a.severity;
  status = a.status;
  detail = a.detail;
  fired_at = kept_fired_at a.status row.status a.fired_at row.fired_at;
  resolved_at = if is_resolved a.status then a.resolved_at else none;
}

unfoldable pub put_alert : Alert → List Alert → List Alert
put_alert a rows =
    if affects (same_alert a) rows
    then update_rows (same_alert a) (set_alert a) rows
    else rows ++ a ∷ []

-- A status, or any for the empty one.
pub record AlertFilter : Type 0 where
  pub target_kind : String
  pub target_id : Option Uuid
  pub status : Option AlertStatus

abbrev pub status_eq : AlertStatus → AlertStatus → Bool
status_eq firing firing = true
status_eq resolved resolved = true
status_eq acknowledged acknowledged = true
status_eq _ _ = false

abbrev matches_target : Option Uuid → Uuid → Bool
matches_target none id = true
matches_target (some wanted) id = id == wanted

abbrev matches_status : Option AlertStatus → AlertStatus → Bool
matches_status none st = true
matches_status (some wanted) st = status_eq st wanted

unfoldable pub selects_alert : AlertFilter → Alert → Bool
selects_alert f a =
    matches_text f.target_kind a.target_kind
    && matches_target f.target_id a.target_id
    && matches_status f.status a.status

abbrev pub alert_age : Alert → Time
alert_age a = a.fired_at

module _ {X : Type 0} (w : World) where
  unfoldable pub upsert_alert : Alert → Exec (Platform X) (Unit {0})
  unfolding put_alert
  upsert_alert given = do
    id ← (λ s. if given.id == 0 then new_id w s else (ok given.id, s))
    wrapped "upserting alert" (
        call w (λ s. (
          ok tt,
          record s {
            db = record s.db { alerts = put_alert (record given { id = id }) s.db.alerts };
          },
        )))

  unfoldable pub list_alerts : AlertFilter → Page → Exec (Platform X) (List Alert)
  list_alerts f page =
      wrapped "listing alerts"
        (call w (λ s. (ok (paged page (newest_where (selects_alert f) alert_age s.db.alerts)), s)))

  -- `RecordEvent`; an event's identifier and data are never read.
  unfoldable pub record_event : Event → Exec (Platform X) (Unit {0})
  record_event e =
      wrapped "recording event"
        (call w (λ s. (ok tt, record s { db = record s.db { events = e ∷ s.db.events } })))

  -- `ListEvents`
  unfoldable pub list_events : String → Uuid → Page → Exec (Platform X) (List Event)
  list_events kind id page = wrapped "listing events" (
      call w (λ s. (
        ok (
            paged page (
              newest_where (λ (e : Event). str_eq e.target_kind kind && e.target_id == id)
                (λ e. e.occurred_at) s.db.events)),
        s,
      )))
