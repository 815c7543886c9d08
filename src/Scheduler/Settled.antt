-- ===== src/Scheduler/Settled.antt =====
-- The alerts of a cluster after a pass of cmd/platform-scheduler/main.go.
use talos_app.Prelude.{
  ◌≤◌, suc, ◌≡◌, refl, sym, ap, ◌∙◌, String, Bool, true, false, List, [], ◌∷◌, ◌&&◌, ◌==◌, map,
  str_eq, str_eq_iff, str_eq-refl, ==_self, arith, Bool-cases, inl, inr, take, length,
}
use talos_app.Shared.{Uuid, Text, no_text}
use talos_app.Exec.{Result, ok, ◌>>=◌}
use talos_app.Domain.Audit.{
  Alert, AlertStatus, EventSeverity, firing, resolved, acknowledged, is_firing,
}
use talos_app.Platform.{Platform, World, IsHealthy, call, tick}
use talos_app.Platform.Rows.{affects, newest_where}
use talos_app.Platform.Rows.Affects.{affects-same, affects-newest_where, take_all}
use talos_app.AuditRepo.{put_alert, upsert_alert, selects_alert, alert_age, status_eq}
use talos_app.AuditRepo.Firing.{titled, fires, put_alert-fires, put_alert-elsewhere}
use talos_app.Scheduler.{is_listed, firing_of, observed, upsert_cluster_alert, settle_alert}

apart :
    (id : Uuid) (t other : String)
    → str_eq t other ≡ false
    → (row : Alert) → titled id t row ≡ true
    → titled id other row ≡ false
apart id t other d row h = elim (Bool-cases (str_eq row.title t)) [
  | inl e ↦
      (let same = (str_eq_iff row.title t).0 e in
        let no_title = ap (λ x. str_eq x other) same ∙ d in rw no_title (ground arith))
  | inr e ↦ ground (arith, e, h)
]

-- The listed titles are those that fire, as long as the page holds them.
is_listed-affects :
    (t : String) (l : List Alert)
    → is_listed t (map (λ (a : Alert). a.title) l) ≡ affects (λ a. str_eq a.title t) l
unfolding is_listed affects
is_listed-affects t [] = refl
is_listed-affects t (a ∷ l) = ground (arith, is_listed-affects t l)

swapped :
    (x y c : Bool) (st : AlertStatus)
    → ((x && y && status_eq st firing) && c) ≡ ((x && y && c) && is_firing st)
swapped x y c firing = ground arith
swapped x y c resolved = ground arith
swapped x y c acknowledged = ground arith

selects-fires :
    (id : Uuid) (t : String) (a : Alert)
    → (selects_alert (firing_of id) a && str_eq a.title t) ≡ fires id t a
unfolding selects_alert
selects-fires id t a =
    swapped (str_eq a.target_kind "cluster") (a.target_id == id) (str_eq a.title t) a.status

abbrev pub firing_alerts : Uuid → List Alert → List Alert
firing_alerts id = newest_where (selects_alert (firing_of id)) alert_age

abbrev pub titles_of : Uuid → List Alert → List String
titles_of id rows = map (λ (a : Alert). a.title) (take 50 (firing_alerts id rows))

pub listed_fires :
    (id : Uuid) (t : String) (rows : List Alert)
    → length (firing_alerts id rows) ≤ 50
    → is_listed t (titles_of id rows) ≡ affects (fires id t) rows
listed_fires id t rows few = rw (take_all 50 (firing_alerts id rows) few) (
    is_listed-affects t (firing_alerts id rows)
    ∙ affects-newest_where (selects_alert (firing_of id)) (λ a. str_eq a.title t) alert_age rows
    ∙ affects-same _ _ rows (selects-fires id t))

module _ {X : Type 0} (w : World) (h : IsHealthy w) (id : Uuid) where
  pub upsert-healthy :
      (t : String) (sev : EventSeverity) (st : AlertStatus) (detail : Text) (s : Platform X)
      → upsert_cluster_alert w id t sev st detail s ≡ (
        ok tt,
        record (tick (tick (tick s))) {
          db = record s.db {
            alerts =
                put_alert
                  (record (observed (w.time s.calls) id t sev st detail) {
                    id = w.fresh (suc s.calls);
                  })
                  s.db.alerts;
          };
        },
      )
  unfolding upsert_cluster_alert upsert_alert call ◌>>=◌
  upsert-healthy t sev st detail s = rw (h (suc (suc s.calls))) refl

  -- What one condition's alert comes to.
  pub record Settles (t : String) (holds : Bool) (ts : List String) (s : Platform X)
      (r : Result (Unit {0}) × Platform X) : Type 0 where
    pub returns : r.0 ≡ ok tt
    pub own :
        is_listed t ts ≡ affects (fires id t) s.db.alerts
        → affects (fires id t) r.1.db.alerts ≡ holds
    pub others :
        (other : String)
        → str_eq t other ≡ false
        → affects (fires id other) r.1.db.alerts ≡ affects (fires id other) s.db.alerts
    pub aside : r.1.outside ≡ s.outside

  upsert-Settles :
      (t : String) (sev : EventSeverity) (st : AlertStatus) (ts : List String) (detail : Text)
      (s : Platform X)
      → Settles t (is_firing st) ts s (upsert_cluster_alert w id t sev st detail s)
  upsert-Settles t sev st ts detail s =
      let own : titled id t (observed 0 id t sev st detail) ≡ true =
        rw (==_self id, str_eq-refl t) refl in
      rw (upsert-healthy t sev st detail s) (record {
        returns = refl;
        own = λ q. put_alert-fires _ id t (λ row. refl) s.db.alerts own;
        others = λ other d.
            put_alert-elsewhere _ id t (λ row. refl) other s.db.alerts (apart id t other d) own;
        aside = refl;
      })

  pub settle_alert-Settles :
      (t : String) (sev : EventSeverity) (holds : Bool) (ts : List String) (detail : Text)
      (s : Platform X)
      → Settles t holds ts s (settle_alert w id t sev holds ts detail s)
  unfolding settle_alert ◌>>=◌
  settle_alert-Settles t sev true ts detail s = upsert-Settles t sev firing ts detail s
  settle_alert-Settles t sev false ts detail s = elim (Bool-cases (is_listed t ts)) [
    | inl b ↦ rw b (upsert-Settles t sev resolved ts no_text s)
    | inr b ↦
        rw b
          (record { returns = refl; own = λ q. sym q ∙ b; others = λ other d. refl; aside = refl })
  ]
