-- ===== src/Engine/Outcome.antt =====
-- One message of internal/workflows/engine.go, start to end: what the run, its step and the topic show
-- after each result that the step's function can have.
use talos_app.Prelude.{◌≡◌, refl, ◌∙◌, Option, some, List, [], ◌∷◌, find, if◌then◌else◌, ==_self}
use mathlib.Core.Option
use talos_app.Shared.{Uuid, Time, is, awaiting_approval, JsonMap}
use talos_app.Exec.{Exec, Result, ok, err}
use talos_app.Domain.Workflow.{Workflow, Step, Status, pending, succeeded, failed, needs_attention}
use talos_app.Platform.{Platform, World, IsHealthy}
use talos_app.Platform.Rows.Lookup.{
  affects_of_In, affects-update_rows, find_of_affects, first_where-In,
}
use talos_app.WorkflowRepo.{has_id, step_has_id, set_claim, claimed, next_pending}
use talos_app.Engine.{Engine}
use talos_app.Engine.Execute.{step_definition}
use talos_app.Engine.Execute.Claim.{begun, begin, take}

module _ {X : Type 0} where
  abbrev pub status_of : Uuid → Platform X → Option Status
  status_of id s = Option.map (λ wf. wf.status) (find (has_id id) s.db.workflows)

  abbrev pub step_status : Uuid → Platform X → Option Status
  step_status id s = Option.map (λ st. st.status) (find (step_has_id id) s.db.steps)

  -- A step's function leaves the tables of the engine and its topic alone.
  pub record LeavesRuns (run : Workflow → Exec (Platform X) JsonMap) : Type 0 where
    pub workflows : (wf : Workflow) (s : Platform X) → (run wf s).1.db.workflows ≡ s.db.workflows
    pub steps : (wf : Workflow) (s : Platform X) → (run wf s).1.db.steps ≡ s.db.steps
    pub dispatches : (wf : Workflow) (s : Platform X) → (run wf s).1.dispatches ≡ s.dispatches

-- The status of the run, of the step, and the messages sent, by the result of the step's function.
abbrev pub run_status : Status → Result JsonMap → Status
run_status current (ok _) = current
run_status current (err x) =
    if is x awaiting_approval then Status.awaiting_approval else needs_attention

abbrev pub step_result : Result JsonMap → Status
step_result (ok _) = succeeded
step_result (err x) = if is x awaiting_approval then pending else failed

abbrev pub messages : Uuid → Result JsonMap → List Uuid
messages id (ok _) = id ∷ []
messages id (err _) = []

module _ {X : Type 0} (w : World) (e : Engine X) (h : IsHealthy w) where
  pub step_definition-begun :
      (t u : Time) (wf : Workflow) (st : Step)
      → step_definition w e (begun t wf) (claimed u st) ≡ step_definition w e wf st
  unfolding step_definition claimed
  step_definition-begun t u wf st = refl

  -- The rows that the step's function and what follows it meet.
  pub take-find :
      (wf : Workflow) (st : Step) (s : Platform X)
      → next_pending wf.id s.db.steps ≡ some st
      → (row : Step) × (find (step_has_id st.id) (take w st (begin w wf s)).db.steps ≡ some row)
  unfolding next_pending set_claim
  take-find wf st s n = find_of_affects (step_has_id st.id) _ (
      affects-update_rows (step_has_id st.id) (step_has_id st.id) (set_claim _ st) _ (λ y. refl)
      ∙ (affects_of_In (step_has_id st.id) s.db.steps st (first_where-In _ _ s.db.steps st n).0
          (==_self st.id)))
