-- ===== src/MachineRepo/Machines.antt =====
-- internal/infrastructure/postgres/machine_repo.go: the table of machines.
use talos_app.Prelude.{
  ℕ, Bool, true, false, Option, none, some, List, [], ◌∷◌, ◌++◌, ◌&&◌, ◌==◌, if◌then◌else◌,
}
use talos_app.Shared.{Uuid, Time, Page, touch, driver, sentinel, not_found, matches_id}
use talos_app.Exec.{Exec, ok, err, pure, wrapped, ◌>>=◌, ◌>>◌}
use talos_app.Domain.Machine.{
  Machine, Role, control_plane, worker, Phase, discovered, provisioning, installing, ready,
  upgrading, draining, cordoned, unhealthy, deleting, deleted, Bmc, BmcProtocol, no_bmc,
}
use talos_app.Platform.{Platform, World, call, clock, new_id}
use talos_app.Platform.Rows.{update_rows, affects, delete_rows, newest_where, paged}
use talos_app.MachineRepo.{machine_has_id}

-- `machine.Filter`; an empty role or phase is none.
pub record Filter : Type 0 where
  pub cluster_id : Option Uuid
  pub site_id : Option Uuid
  pub provider_id : Option Uuid
  pub role : Option Role
  pub phase : Option Phase

abbrev pub of_cluster : Uuid → Filter
of_cluster id = record {
  cluster_id = some id;
  site_id = none;
  provider_id = none;
  role = none;
  phase = none;
}

abbrev role_eq : Role → Role → Bool
role_eq control_plane control_plane = true
role_eq worker worker = true
role_eq _ _ = false

abbrev phase_tag : Phase → ℕ
phase_tag discovered = 0
phase_tag provisioning = 1
phase_tag installing = 2
phase_tag ready = 3
phase_tag upgrading = 4
phase_tag draining = 5
phase_tag cordoned = 6
phase_tag unhealthy = 7
phase_tag deleting = 8
phase_tag deleted = 9

abbrev matches_role : Option Role → Role → Bool
matches_role none r = true
matches_role (some wanted) r = role_eq r wanted

abbrev matches_phase : Option Phase → Phase → Bool
matches_phase none p = true
matches_phase (some wanted) p = phase_tag p == phase_tag wanted

-- `cluster_id = $1`, which a machine without a cluster never satisfies.
abbrev in_cluster : Option Uuid → Option Uuid → Bool
in_cluster none given = true
in_cluster (some wanted) none = false
in_cluster (some wanted) (some id) = id == wanted

unfoldable pub satisfies : Filter → Machine → Bool
satisfies f m =
    in_cluster f.cluster_id m.cluster_id
    && matches_id f.site_id m.site_id
    && matches_id f.provider_id m.provider_id
    && matches_role f.role m.role
    && matches_phase f.phase m.phase

-- `ORDER BY created_at DESC`
abbrev pub machine_age : Machine → Time
machine_age m = m.timestamps.created_at

abbrev speaks : BmcProtocol → Bool
speaks no_bmc = false
speaks _ = true

-- A BMC without a protocol is written as NONE, and read back as no BMC.
unfoldable pub stored_bmc : Option Bmc → Option Bmc
stored_bmc none = none
stored_bmc (some b) = if speaks b.protocol then some b else none

-- All the columns but the key and the time of creation.
unfoldable pub set_machine : Machine → Machine → Machine
unfolding stored_bmc
set_machine m row = record m {
  id = row.id;
  bmc = stored_bmc m.bmc;
  timestamps = record {
    created_at = row.timestamps.created_at;
    updated_at = m.timestamps.updated_at;
  };
}

module _ {X : Type 0} (w : World) where
  unfoldable pub create_machine : Machine → Exec (Platform X) Machine
  unfolding stored_bmc
  create_machine given = do
    now ← clock w
    id ← (λ s. if given.id == 0 then new_id w s else (ok given.id, s))
    let m = record given { id = id; timestamps = touch now given.timestamps }
    wrapped "inserting machine" (
        call w (λ s.
          if affects (machine_has_id m.id) s.db.machines
          then (err (driver "duplicate key"), s)
          else (
            ok tt,
            record s {
              db = record s.db {
                machines = s.db.machines ++ record m { bmc = stored_bmc m.bmc } ∷ [];
              };
            },
          )))
    pure m

  unfoldable pub list_machines : Filter → Page → Exec (Platform X) (List Machine)
  list_machines f page =
      wrapped "listing machines"
        (call w (λ s. (ok (paged page (newest_where (satisfies f) machine_age s.db.machines)), s)))

  unfoldable pub update_machine : Machine → Exec (Platform X) (Unit {0})
  update_machine given = do
    now ← clock w
    let m = record given { timestamps = touch now given.timestamps }
    wrapped "updating machine" (call w (λ s. (ok tt, s)))
    λ s.
        if affects (machine_has_id m.id) s.db.machines
        then (
          ok tt,
          record s {
            db = record s.db {
              machines = update_rows (machine_has_id m.id) (set_machine m) s.db.machines;
            };
          },
        )
        else (err (sentinel not_found), s)

  unfoldable pub delete_machine : Uuid → Exec (Platform X) (Unit {0})
  delete_machine id = do
    wrapped "deleting machine" (call w (λ s. (ok tt, s)))
    λ s.
        if affects (machine_has_id id) s.db.machines
        then (
          ok tt,
          record s {
            db = record s.db { machines = delete_rows (machine_has_id id) s.db.machines };
          },
        )
        else (err (sentinel not_found), s)
