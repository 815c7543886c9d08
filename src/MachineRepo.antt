-- ===== src/MachineRepo.antt =====
-- The tables that the machine service reads and writes: internal/infrastructure/postgres/operation_repo.go,
-- and the reads by id of machine_repo.go and infraprovider_repo.go.
pub mod Machines
use talos_app.Prelude.{String, Bool, List, [], ◌∷◌, ◌++◌, ◌||◌, ◌==◌, str_eq, if◌then◌else◌, find}
use talos_app.Shared.{Uuid, touch, driver, sentinel, not_found}
use talos_app.Exec.{Exec, ok, err, pure, wrapped, ◌>>=◌, ◌>>◌}
use talos_app.Domain.Operation.{Operation}
use talos_app.Domain.Machine.{Machine, InfrastructureProvider}
use talos_app.Platform.{Platform, World, call, clock, new_id}
use talos_app.Platform.Rows.{update_rows, affects, or_not_found}

abbrev pub op_has_id : Uuid → Operation → Bool
op_has_id id o = o.id == id

abbrev pub op_has_key : String → Operation → Bool
op_has_key key o = str_eq o.idempotency_key key

abbrev pub machine_has_id : Uuid → Machine → Bool
machine_has_id id m = m.id == id

abbrev pub provider_has_id : Uuid → InfrastructureProvider → Bool
provider_has_id id p = p.id == id

-- The columns that `Update` sets.
unfoldable pub set_operation : Operation → Operation → Operation
set_operation o row = record row {
  status = o.status;
  result = o.result;
  started_at = o.started_at;
  finished_at = o.finished_at;
  timestamps = record {
    created_at = row.timestamps.created_at;
    updated_at = o.timestamps.updated_at;
  };
}

-- What is already there: the primary key, or the unique idempotency key.
abbrev pub op_clashes : Operation → List Operation → Bool
op_clashes o rows = affects (λ row. op_has_id o.id row || op_has_key o.idempotency_key row) rows

module _ {X : Type 0} (w : World) where
  unfoldable pub get_machine : Uuid → Exec (Platform X) Machine
  get_machine id = call w (λ s. (or_not_found (find (machine_has_id id) s.db.machines), s))

  unfoldable pub get_provider : Uuid → Exec (Platform X) InfrastructureProvider
  get_provider id = call w (λ s. (or_not_found (find (provider_has_id id) s.db.providers), s))

  unfoldable pub get_operation : Uuid → Exec (Platform X) Operation
  get_operation id = call w (λ s. (or_not_found (find (op_has_id id) s.db.operations), s))

  unfoldable pub get_operation_by_key : String → Exec (Platform X) Operation
  get_operation_by_key key = call w (λ s. (or_not_found (find (op_has_key key) s.db.operations), s))

  -- Both writes answer with the operation as the caller's pointer then shows it.
  unfoldable pub create_operation : Operation → Exec (Platform X) Operation
  create_operation given = do
    now ← clock w
    id ← (λ s. if given.id == 0 then new_id w s else (ok given.id, s))
    let o = record given { id = id; timestamps = touch now given.timestamps }
    wrapped "inserting operation" (
        call w (λ s.
          if op_clashes o s.db.operations
          then (err (driver "duplicate key"), s)
          else (ok tt, record s { db = record s.db { operations = s.db.operations ++ o ∷ [] } })))
    pure o

  unfoldable pub update_operation : Operation → Exec (Platform X) Operation
  update_operation given = do
    now ← clock w
    let o = record given { timestamps = touch now given.timestamps }
    wrapped "updating operation" (call w (λ s. (ok tt, s)))
    λ s.
        if affects (op_has_id o.id) s.db.operations
        then (
          ok o,
          record s {
            db = record s.db {
              operations = update_rows (op_has_id o.id) (set_operation o) s.db.operations;
            };
          },
        )
        else (err (sentinel not_found), s)
