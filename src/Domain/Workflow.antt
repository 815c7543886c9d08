-- ===== src/Domain/Workflow.antt =====
-- internal/domain/workflow/workflow.go: a durable run of a named sequence of steps.
use talos_app.Prelude.{ℕ, String, Bool, true, false, Option}
use talos_app.Shared.{Uuid, Time, Timestamps, Text, JsonMap}

-- The state of a run or of a step.
pub data Status : Type 0 where
  pending running succeeded failed needs_attention cancelled awaiting_approval : Status

-- The type of a run.
pub data Kind : Type 0 where
  cluster_provision cluster_upgrade machine_upgrade machine_discovery cluster_delete : Kind
  worker_scale : Kind

pub record Workflow : Type 0 where
  pub id : Uuid
  pub kind : Kind
  pub idempotency_key : String
  pub cluster_id : Option Uuid
  pub machine_id : Option Uuid
  pub requested_by : Uuid
  pub input : JsonMap
  pub status : Status
  pub current_step : ℕ
  pub error : Text
  pub started_at : Option Time
  pub finished_at : Option Time
  pub timestamps : Timestamps

pub record Step : Type 0 where
  pub id : Uuid
  pub workflow_id : Uuid
  pub sequence : ℕ
  pub name : String
  pub status : Status
  pub output : JsonMap
  pub error : Text
  pub attempts : ℕ
  pub started_at : Option Time
  pub finished_at : Option Time
  pub timestamps : Timestamps

abbrev pub is_pending : Status → Bool
is_pending pending = true
is_pending _ = false

abbrev pub is_awaiting : Status → Bool
is_awaiting awaiting_approval = true
is_awaiting _ = false

abbrev pub is_succeeded : Status → Bool
is_succeeded succeeded = true
is_succeeded _ = false
