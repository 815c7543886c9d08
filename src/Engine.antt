-- ===== src/Engine.antt =====
-- internal/workflows/engine.go: the durable workflow engine. `Platform.dispatches` is its topic on the
-- broker, and a step of a definition is any action on the platform that returns an output or an error.
pub mod Execute
pub mod Outcome
pub mod Consume
pub mod Rows
pub mod Stage
pub mod Order
pub mod Progress
pub mod Frame
pub mod Requests
pub mod Inserted
pub mod Accepted
pub mod Endings
use talos_app.Prelude.{
  ℕ, suc, ◌+◌, String, Bool, true, false, not, Option, none, some, List, [], ◌∷◌, ◌++◌, ◌==◌,
  if◌then◌else◌,
}
use talos_app.Shared.{
  Uuid, Time, Error, text, sentinel, wrap, not_found, invalid_input, awaiting_approval, is, Text,
  lit, num, printed, join, no_text, JsonMap, no_timestamps, zero_id,
}
use talos_app.Exec.{
  Exec, Result, ok, err, pure, raise, gets, lift, attempt, wrapped, ◌>>=◌, ◌>>◌, when, continue,
}
use talos_app.Domain.Workflow.{
  Workflow, Step, Status, Kind, pending, running, succeeded, failed, needs_attention, cancelled,
  is_pending, is_awaiting, is_succeeded,
}
use talos_app.Domain.Workflow
use talos_app.Domain.Audit.{Event, EventSeverity, info, error}
use talos_app.Platform.{Platform, Db, World, call, clock, new_id, tick}
use talos_app.WorkflowRepo

-- `StepFunc` and `StepDefinition`
pub record StepDefinition (X : Type 0) : Type 0 where
  pub name : String
  pub run : Workflow → Exec (Platform X) JsonMap

pub record Definition (X : Type 0) : Type 0 where
  pub kind : Kind
  pub steps : List (StepDefinition X)

abbrev tag : Kind → ℕ
tag Kind.cluster_provision = 0
tag Kind.cluster_upgrade = 1
tag Kind.machine_upgrade = 2
tag Kind.machine_discovery = 3
tag Kind.cluster_delete = 4
tag Kind.worker_scale = 5

unfoldable pub kind_name : Kind → String
kind_name Kind.cluster_provision = "CLUSTER_PROVISION"
kind_name Kind.cluster_upgrade = "CLUSTER_UPGRADE"
kind_name Kind.machine_upgrade = "MACHINE_UPGRADE"
kind_name Kind.machine_discovery = "MACHINE_DISCOVERY"
kind_name Kind.cluster_delete = "CLUSTER_DELETE"
kind_name Kind.worker_scale = "WORKER_SCALE"

abbrev pub kind_eq : Kind → Kind → Bool
kind_eq a b = tag a == tag b

-- The parts of an `Engine` that differ between processes: its registry, and whether it has an
-- audit repository.
pub record Engine (X : Type 0) : Type 0 where
  pub registry : List (Definition X)
  pub audited : Bool

-- `e.registry[t]`; the latest registration of a type comes first.
unfoldable pub lookup : {X : Type 0} → Kind → List (Definition X) → Option (Definition X)
lookup k [] = none
lookup k (d ∷ rest) = if kind_eq d.kind k then some d else lookup k rest

unfoldable pub register : {X : Type 0} → Definition X → Engine X → Engine X
register d e = record e { registry = d ∷ e.registry }

-- The statuses at which `executeNext` returns at once.
unfoldable pub is_terminal : Status → Bool
is_terminal Status.succeeded = true
is_terminal Status.failed = true
is_terminal Status.cancelled = true
is_terminal Status.needs_attention = true
is_terminal _ = false

-- The steps of a new run, one for each step definition, all PENDING.
unfoldable pub planned : {X : Type 0} → ℕ → List (StepDefinition X) → List Step
planned n [] = []
planned n (d ∷ rest) =
    record {
      id = zero_id;
      workflow_id = zero_id;
      sequence = n;
      name = d.name;
      status = pending;
      output = [];
      error = no_text;
      attempts = 0;
      started_at = none;
      finished_at = none;
      timestamps = no_timestamps;
    }
    ∷ planned (n + 1) rest

-- A new run, before it is stored.
unfoldable pub new_run :
    Uuid → Kind → String → JsonMap → Option Uuid → Option Uuid → Uuid → Workflow
new_run id kind key input cluster machine by = record {
  id = id;
  kind = kind;
  idempotency_key = key;
  cluster_id = cluster;
  machine_id = machine;
  requested_by = by;
  input = input;
  status = pending;
  current_step = 0;
  error = no_text;
  started_at = none;
  finished_at = none;
  timestamps = no_timestamps;
}

module _ {X : Type 0} (w : World) (e : Engine X) where
  -- `recordEvent`: its own error is dropped.
  unfoldable pub record_event : Workflow → Text → EventSeverity → Exec (Platform X) (Unit {0})
  record_event wf message severity = when e.audited (do
    now ← clock w
    attempt (
        call w (λ s. (
          ok (tt {0}),
          record s {
            db = record s.db {
              events =
                  record {
                    source = "workflow-engine";
                    kind = kind_name wf.kind;
                    severity = severity;
                    target_kind = "workflow";
                    target_id = wf.id;
                    message = message;
                    occurred_at = now;
                  }
                  ∷ s.db.events;
            };
          },
        )))
    pure tt)

  -- `dispatch`: a message on the topic.
  unfoldable pub dispatch : Uuid → Exec (Platform X) (Unit {0})
  dispatch id = call w (λ s. (ok tt, record s { dispatches = s.dispatches ++ id ∷ [] }))

  unfoldable pub finish : Workflow → Status → Text → Exec (Platform X) (Unit {0})
  finish wf status message = do
    now ← clock w
    let done = record wf { status = status; error = message; finished_at = some now }
    wrapped "finishing workflow" (WorkflowRepo.update w done)
    record_event done (join (lit "workflow %s: %s") message)
        (if is_succeeded status then info else error)

  -- The rest of `Enqueue` once the type's definition is known.
  unfoldable pub enqueue_run :
      Option (Definition X)
      → Kind
      → String
      → JsonMap
      → Option Uuid
      → Option Uuid
      → Uuid
      → Exec (Platform X) Workflow
  enqueue_run none kind key input cluster machine by =
      raise (text "no workflow definition registered for type %s")
  enqueue_run (some def) kind key input cluster machine by = do
    id ← new_id w
    let wf = new_run id kind key input cluster machine by
    made ← wrapped "creating workflow" (WorkflowRepo.create w wf (planned 0 def.steps))
    wrapped "dispatching workflow" (dispatch made.id)
    pure made

  -- The branches of `Enqueue` on what the idempotency key finds.
  unfoldable pub enqueue_found :
      Result Workflow
      → Kind
      → String
      → JsonMap
      → Option Uuid
      → Option Uuid
      → Uuid
      → Exec (Platform X) Workflow
  enqueue_found (ok existing) kind key input cluster machine by = pure existing
  enqueue_found (err x) kind key input cluster machine by =
      if is x not_found
      then enqueue_run (lookup kind e.registry) kind key input cluster machine by
      else raise (wrap "checking idempotency key" x)

  unfoldable pub enqueue :
      Kind → String → JsonMap → Option Uuid → Option Uuid → Uuid → Exec (Platform X) Workflow
  unfolding enqueue_found
  enqueue kind key input cluster machine by = do
    found ← attempt (WorkflowRepo.get_by_idempotency_key w key)
    enqueue_found found kind key input cluster machine by

  unfoldable pub resume : Uuid → Exec (Platform X) (Unit {0})
  resume id = do
    wf ← wrapped "loading workflow" (WorkflowRepo.get w id)
    if is_awaiting wf.status
        then (do
          let woken = record wf { status = running }
          wrapped "resuming workflow" (WorkflowRepo.update w woken)
          record_event woken (lit "workflow resumed") info
          dispatch id)
        else raise (wrap "workflow %s is %s, not awaiting approval" (sentinel invalid_input))

  -- `Get`, for display.
  unfoldable pub get_run : Uuid → Exec (Platform X) (Workflow × List Step)
  get_run id = do wf ← WorkflowRepo.get w id; steps ← WorkflowRepo.list_steps w id; pure (wf, steps)
