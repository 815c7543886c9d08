-- ===== src/WorkflowRepo.antt =====
-- internal/infrastructure/postgres/workflow_repo.go: the durable runs, their steps and the claim
-- that the workers share. A transaction's writes are seen when it commits.
pub mod Healthy
pub mod Claims
use talos_app.Prelude.{
  ℕ, suc, ◌+◌, String, Bool, true, false, Option, none, some, List, [], ◌∷◌, ◌++◌, ◌&&◌, ◌||◌, ◌==◌,
  str_eq, if◌then◌else◌, find,
}
use talos_app.Shared.{
  Uuid, Time, Timestamps, Error, driver, sentinel, not_found, touch, zero_id, wrap,
}
use talos_app.Exec.{Exec, Result, ok, err, pure, gets, lift, wrapped, ◌>>=◌, ◌>>◌, wrap_result}
use talos_app.Domain.Workflow.{Workflow, Step, Status, pending, running, is_pending}
use talos_app.Platform.{Platform, Db, World, call, clock, new_id, tick}
use talos_app.Platform.Rows.{update_rows, affects, first_where, all_where, or_not_found}

-- `WHERE id = $1`
abbrev pub has_id : Uuid → Workflow → Bool
has_id id wf = wf.id == id

abbrev pub has_key : String → Workflow → Bool
has_key key wf = str_eq wf.idempotency_key key

abbrev pub step_has_id : Uuid → Step → Bool
step_has_id id s = s.id == id

abbrev pub of_workflow : Uuid → Step → Bool
of_workflow id s = s.workflow_id == id

-- The columns that `Update` sets.
unfoldable pub set_workflow : Time → Workflow → Workflow → Workflow
set_workflow now wf row = record row {
  status = wf.status;
  current_step = wf.current_step;
  error = wf.error;
  started_at = wf.started_at;
  finished_at = wf.finished_at;
  input = wf.input;
  timestamps = record { created_at = row.timestamps.created_at; updated_at = now };
}

-- The columns that `UpdateStep` sets.
unfoldable pub set_step : Time → Step → Step → Step
set_step now s row = record row {
  status = s.status;
  output = s.output;
  error = s.error;
  attempts = s.attempts;
  started_at = s.started_at;
  finished_at = s.finished_at;
  timestamps = record { created_at = row.timestamps.created_at; updated_at = now };
}

-- The columns that `ClaimNextStep` sets, on the row and on the value that it returns.
unfoldable pub claimed : Time → Step → Step
claimed now s = record s {
  status = running;
  attempts = s.attempts + 1;
  timestamps = touch now s.timestamps;
}

unfoldable pub set_claim : Time → Step → Step → Step
set_claim now s row = record row {
  status = running;
  attempts = s.attempts + 1;
  output = s.output;
  timestamps = record { created_at = row.timestamps.created_at; updated_at = now };
}

-- A PENDING step of the workflow `id`.
abbrev pub is_open : Uuid → Step → Bool
is_open id st = of_workflow id st && is_pending st.status

-- `WHERE workflow_id = $1 AND status = 'PENDING' ORDER BY sequence ASC LIMIT 1`
unfoldable pub next_pending : Uuid → List Step → Option Step
next_pending id = first_where (is_open id) (λ st. st.sequence)

-- `WHERE workflow_id = $1 ORDER BY sequence ASC`
unfoldable pub steps_of : Uuid → List Step → List Step
steps_of id = all_where (of_workflow id) (λ st. st.sequence)

-- What is already there: the primary key, or the unique idempotency key.
abbrev pub violates : Workflow → List Workflow → Bool
violates wf rows = affects (λ row. has_id wf.id row || has_key wf.idempotency_key row) rows

module _ {X : Type 0} (w : World) where
  unfoldable pub get : Uuid → Exec (Platform X) Workflow
  get id = call w (λ s. (or_not_found (find (has_id id) s.db.workflows), s))

  unfoldable pub get_by_idempotency_key : String → Exec (Platform X) Workflow
  get_by_idempotency_key key = call w (λ s. (or_not_found (find (has_key key) s.db.workflows), s))

  unfoldable pub update : Workflow → Exec (Platform X) (Unit {0})
  update wf = do
    now ← clock w
    wrapped "updating workflow" (call w (λ s. (ok tt, s)))
    λ s.
        if affects (has_id wf.id) s.db.workflows
        then (
          ok tt,
          record s {
            db = record s.db {
              workflows = update_rows (has_id wf.id) (set_workflow now wf) s.db.workflows;
            };
          },
        )
        else (err (sentinel not_found), s)

  unfoldable pub update_step : Step → Exec (Platform X) (Unit {0})
  update_step st = do
    now ← clock w
    wrapped "updating workflow step" (call w (λ s. (ok tt, s)))
    λ s.
        if affects (step_has_id st.id) s.db.steps
        then (
          ok tt,
          record s {
            db = record s.db {
              steps = update_rows (step_has_id st.id) (set_step now st) s.db.steps;
            };
          },
        )
        else (err (sentinel not_found), s)

  unfoldable pub list_steps : Uuid → Exec (Platform X) (List Step)
  list_steps id = wrapped "listing workflow steps" (call w (λ s. (ok (steps_of id s.db.steps), s)))

  unfoldable pub claim_next_step : Uuid → Exec (Platform X) Step
  claim_next_step id = do
    wrapped "beginning tx" (call w (λ s. (ok tt, s)))
    st ← call w (λ s. (or_not_found (next_pending id s.db.steps), s))
    now ← clock w
    wrapped "claiming workflow step" (call w (λ s. (ok tt, s)))
    wrapped "committing step claim" (
        call w (λ s. (
          ok (claimed now st),
          record s {
            db = record s.db {
              steps = update_rows (step_has_id st.id) (set_claim now st) s.db.steps;
            };
          },
        )))

  -- A zero identifier is replaced by a new one.
  unfoldable pub named : Uuid → Exec (Platform X) Uuid
  named id s = if id == zero_id then new_id w s else (ok id, s)

  -- The loop over the steps of `Create`: the rows that the commit inserts.
  unfoldable pub insert_steps : Uuid → List Step → Exec (Platform X) (List Step)
  insert_steps wid [] = pure []
  insert_steps wid (st ∷ rest) = do
    now ← clock w
    id ← named st.id
    wrapped "inserting workflow step" (call w (λ s. (ok tt, s)))
    rows ← insert_steps wid rest
    pure ((record st { id = id; workflow_id = wid; timestamps = touch now st.timestamps }) ∷ rows)

  -- It answers with the workflow as the caller's pointer then shows it.
  unfoldable pub create : Workflow → List Step → Exec (Platform X) Workflow
  create given steps = do
    now ← clock w
    id ← named given.id
    let wf = record given { id = id; timestamps = touch now given.timestamps }
    wrapped "beginning tx" (call w (λ s. (ok tt, s)))
    wrapped "inserting workflow" (
        call w
          (λ s. (if violates wf s.db.workflows then err (driver "duplicate key") else ok tt, s)))
    rows ← insert_steps wf.id steps
    call w (λ s. (
      ok wf,
      record s {
        db = record s.db { workflows = s.db.workflows ++ wf ∷ []; steps = s.db.steps ++ rows };
      },
    ))
