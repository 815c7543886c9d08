-- ===== src/Engine/Execute.antt =====
-- `executeNext` of internal/workflows/engine.go, in two phases: up to the claim, and from there on.
pub mod Settle
pub mod Claim
use talos_app.Prelude.{◌+◌, Option, none, some, get_elem?, if◌then◌else◌}
use talos_app.Shared.{
  Uuid, Time, Error, wrap, not_found, awaiting_approval, is, lit, num, printed, join, no_text,
  JsonMap,
}
use talos_app.Exec.{Exec, Result, ok, err, pure, raise, attempt, wrapped, ◌>>=◌, ◌>>◌}
use talos_app.Domain.Workflow.{
  Workflow, Step, Status, pending, running, succeeded, failed, needs_attention, is_pending,
}
use talos_app.Domain.Workflow
use talos_app.Domain.Audit.{info}
use talos_app.Platform.{Platform, World, clock}
use talos_app.WorkflowRepo
use talos_app.Engine.{Engine, StepDefinition, lookup, is_terminal, record_event, dispatch, finish}

module _ {X : Type 0} (w : World) (e : Engine X) where
  -- A PENDING workflow is marked RUNNING when its first message arrives.
  start_pending : Workflow → Exec (Platform X) Workflow
  start_pending wf =
      if is_pending wf.status
      then (do
        now ← clock w
        let started = record wf { status = running; started_at = some now }
        wrapped "marking workflow running" (WorkflowRepo.update w started)
        pure started)
      else pure wf

  -- `executeNext` up to the claim: `none` for a terminal workflow, else what the claim returned.
  unfoldable pub claim_phase : Uuid → Exec (Platform X) (Option (Workflow × Result Step))
  unfolding start_pending
  claim_phase id = do
    wf ← wrapped "loading workflow" (WorkflowRepo.get w id)
    if is_terminal wf.status then pure none else do
      started ← start_pending wf
      claim ← attempt (WorkflowRepo.claim_next_step w id)
      pure (some (started, claim))

  -- The step returned `ErrAwaitingApproval`: it is put back, and the workflow waits.
  unfoldable pub pause : Workflow → Step → Exec (Platform X) (Unit {0})
  pause wf st = do
    wrapped "reverting step to pending"
        (WorkflowRepo.update_step w (record st { status = pending; finished_at = none }))
    let waiting = record wf { status = Status.awaiting_approval }
    wrapped "marking workflow awaiting approval" (WorkflowRepo.update w waiting)
    record_event w e waiting (join (lit "step %q is awaiting approval") (lit st.name)) info

  -- The step failed: its own update may fail unseen, and the workflow needs attention.
  unfoldable pub fail : Workflow → Step → Time → Error → Exec (Platform X) (Unit {0})
  fail wf st now x = do
    attempt (
        WorkflowRepo.update_step w
          (record st { finished_at = some now; status = failed; error = printed x }))
    finish w e wf needs_attention (join (lit "step %q failed: %v") (join (lit st.name) (printed x)))

  unfoldable pub succeed : Workflow → Step → Time → JsonMap → Exec (Platform X) (Unit {0})
  succeed wf st now output = do
    wrapped "persisting step result" (
        WorkflowRepo.update_step w
          (record st { finished_at = some now; status = succeeded; output = output }))
    let advanced = record wf { current_step = st.sequence + 1 }
    wrapped "updating workflow progress" (WorkflowRepo.update w advanced)
    record_event w e advanced (join (lit "step %q succeeded") (lit st.name)) info
    dispatch w e wf.id

  unfoldable pub settle : Workflow → Step → Time → Result JsonMap → Exec (Platform X) (Unit {0})
  unfolding pause fail succeed
  settle wf st now (ok output) = succeed wf st now output
  settle wf st now (err x) = if is x awaiting_approval then pause wf st else fail wf st now x

  -- `e.registry[wf.Type]` and `def.Steps[step.Sequence]`, with both checks.
  unfoldable pub step_definition : Workflow → Step → Option (StepDefinition X)
  step_definition wf st = elim (lookup wf.kind e.registry) [
    | none ↦ none
    | some def ↦ get_elem? def.steps st.sequence
  ]

  unfoldable pub run_step :
      Option (StepDefinition X) → Workflow → Step → Exec (Platform X) (Unit {0})
  unfolding settle
  run_step none wf st =
      finish w e wf failed
        (join (lit "no step definition at sequence %d for type %s") (num st.sequence))
  run_step (some d) wf st = do outcome ← attempt (d.run wf); now ← clock w; settle wf st now outcome

  -- `executeNext` after the claim.
  unfoldable pub run_phase : Option (Workflow × Result Step) → Exec (Platform X) (Unit {0})
  unfolding run_step step_definition
  run_phase none = pure tt
  run_phase (some (wf, ok st)) = run_step (step_definition wf st) wf st
  run_phase (some (wf, err x)) =
      if is x not_found
      then finish w e wf succeeded no_text
      else raise (wrap "claiming next step for workflow" x)

  unfoldable pub execute_next : Uuid → Exec (Platform X) (Unit {0})
  execute_next id = do claim ← claim_phase id; run_phase claim
