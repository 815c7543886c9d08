-- ===== src/Domain/Operation.antt =====
-- internal/domain/operation/operation.go: one imperative action against a machine or a cluster.
use talos_app.Prelude.{String, Bool, true, false, Option}
use talos_app.Shared.{Uuid, Time, Timestamps, Text}

pub data Kind : Type 0 where
  reboot_machine shutdown_machine drain_node cordon_node uncordon_node upgrade_talos : Kind
  upgrade_kubernetes reset_machine remove_etcd_member destroy_cluster : Kind
  hard_power_on hard_power_off hard_power_cycle : Kind

-- `Danger`
unfoldable pub danger : Kind → Bool
danger reset_machine = true
danger remove_etcd_member = true
danger destroy_cluster = true
danger upgrade_talos = true
danger hard_power_off = true
danger hard_power_cycle = true
danger _ = false

pub data Status : Type 0 where
  requested running succeeded failed : Status

pub record Operation : Type 0 where
  pub id : Uuid
  pub idempotency_key : String
  pub kind : Kind
  pub cluster_id : Option Uuid
  pub machine_id : Option Uuid
  pub requested_by : Uuid
  pub status : Status
  pub result : Text
  pub started_at : Option Time
  pub finished_at : Option Time
  pub timestamps : Timestamps
