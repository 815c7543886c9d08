-- ===== src/Domain/Audit.antt =====
-- internal/domain/audit/audit.go: the events and the alerts that the platform records.
use talos_app.Prelude.{String, Bool, true, false, Option}
use talos_app.Shared.{Uuid, Time, Text}

pub data EventSeverity : Type 0 where
  info warning error : EventSeverity

-- `Data` is never set by the code that is modelled.
pub record Event : Type 0 where
  pub source : String
  pub kind : String
  pub severity : EventSeverity
  pub target_kind : String
  pub target_id : Uuid
  pub message : Text
  pub occurred_at : Time

pub data AlertStatus : Type 0 where
  firing resolved acknowledged : AlertStatus

abbrev pub is_firing : AlertStatus → Bool
is_firing firing = true
is_firing _ = false

abbrev pub is_resolved : AlertStatus → Bool
is_resolved resolved = true
is_resolved _ = false

pub record Alert : Type 0 where
  pub id : Uuid
  pub target_kind : String
  pub target_id : Uuid
  pub severity : EventSeverity
  pub status : AlertStatus
  pub title : String
  pub detail : Text
  pub fired_at : Time
  pub resolved_at : Option Time
