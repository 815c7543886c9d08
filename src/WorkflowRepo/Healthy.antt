-- ===== src/WorkflowRepo/Healthy.antt =====
-- The operations of internal/infrastructure/postgres/workflow_repo.go where every call goes through.
use talos_app.Prelude.{suc, ◌≡◌, true, none, some, find}
use talos_app.Shared.{Uuid, sentinel, not_found}
use talos_app.Exec.{ok, err, ◌>>=◌}
use talos_app.Domain.Workflow.{Workflow, Step}
use talos_app.Platform.{Platform, World, IsHealthy, call, tick}
use talos_app.Platform.Rows.{update_rows, affects, or_not_found}
use talos_app.WorkflowRepo.{
  has_id, step_has_id, set_workflow, set_step, set_claim, claimed, next_pending, get, update,
  update_step, claim_next_step,
}

module _ {X : Type 0} (w : World) (h : IsHealthy w) where
  pub get-healthy :
      (id : Uuid) (s : Platform X)
      → get w id s ≡ (or_not_found (find (has_id id) s.db.workflows), tick s)
  unfolding get call ◌>>=◌
  get-healthy id s = rw (h s.calls)

  pub update-healthy :
      (wf : Workflow) (s : Platform X)
      → affects (has_id wf.id) s.db.workflows ≡ true
      → update w wf s ≡ (
        ok tt,
        record s {
          db = record s.db {
            workflows =
                update_rows (has_id wf.id) (set_workflow (w.time s.calls) wf) s.db.workflows;
          };
          calls = suc (suc s.calls);
        },
      )
  unfolding update call ◌>>=◌
  update-healthy wf s a = rw (h (suc s.calls), a)

  pub update_step-healthy :
      (st : Step) (s : Platform X)
      → affects (step_has_id st.id) s.db.steps ≡ true
      → update_step w st s ≡ (
        ok tt,
        record s {
          db = record s.db {
            steps = update_rows (step_has_id st.id) (set_step (w.time s.calls) st) s.db.steps;
          };
          calls = suc (suc s.calls);
        },
      )
  unfolding update_step call ◌>>=◌
  update_step-healthy st s a = rw (h (suc s.calls), a)

  pub claim_next_step-none :
      (id : Uuid) (s : Platform X)
      → next_pending id s.db.steps ≡ none
      → claim_next_step w id s ≡ (err (sentinel not_found), tick (tick s))
  unfolding claim_next_step call ◌>>=◌
  claim_next_step-none id s e = rw (h s.calls, h (suc s.calls), e)

  pub claim_next_step-some :
      (id : Uuid) (st : Step) (s : Platform X)
      → next_pending id s.db.steps ≡ some st
      → claim_next_step w id s ≡ (
        ok (claimed (w.time (suc (suc s.calls))) st),
        record s {
          db = record s.db {
            steps =
                update_rows
                  (step_has_id st.id)
                  (set_claim (w.time (suc (suc s.calls))) st)
                  s.db.steps;
          };
          calls = suc (suc (suc (suc (suc s.calls))));
        },
      )
  unfolding claim_next_step call ◌>>=◌
  claim_next_step-some id st s e = rw (
    h s.calls,
    h (suc s.calls),
    e,
    h (suc (suc (suc s.calls))),
    h (suc (suc (suc (suc s.calls)))),
  )
