-- ===== src/Engine/Execute/Claim.antt =====
-- `executeNext` of internal/workflows/engine.go up to the claim, where every call goes through.
use talos_app.Prelude.{
  suc, ◌≡◌, refl, true, false, none, some, find, Bool-cases, inl, inr, if◌then◌else◌, ==_iff, subst,
  sym,
}
use talos_app.Shared.{Uuid, Time, sentinel, not_found}
use talos_app.Exec.{◌>>=◌, ok, err}
use talos_app.Domain.Workflow.{Workflow, Step, running, is_pending}
use talos_app.Platform.{Platform, World, IsHealthy, tick}
use talos_app.Platform.Rows.{update_rows, affects}
use talos_app.Platform.Rows.Lookup.{affects_of_find, find-satisfies}
use talos_app.WorkflowRepo.{has_id, step_has_id, set_workflow, set_claim, claimed, next_pending}
use talos_app.WorkflowRepo.Healthy.{
  get-healthy, update-healthy, claim_next_step-none, claim_next_step-some,
}
use talos_app.Engine.{Engine, is_terminal}
use talos_app.Engine.Execute.{claim_phase, start_pending}

-- The workflow as the handler holds it after the first update, made at the time `now`.
abbrev pub begun : Time → Workflow → Workflow
begun now wf = record wf {
  status = if is_pending wf.status then running else wf.status;
  started_at = if is_pending wf.status then some now else wf.started_at;
}

module _ {X : Type 0} where
  -- The platform after that update.
  abbrev pub begin : World → Workflow → Platform X → Platform X
  begin w wf s = record s {
    db = record s.db {
      workflows =
          if is_pending wf.status
          then update_rows (has_id wf.id)
              (set_workflow (w.time (suc s.calls)) (begun (w.time s.calls) wf)) s.db.workflows
          else s.db.workflows;
    };
    calls = if is_pending wf.status then suc (suc (suc s.calls)) else s.calls;
  }

  -- The platform after the claim of `st`.
  abbrev pub take : World → Step → Platform X → Platform X
  take w st s = record s {
    db = record s.db {
      steps =
          update_rows (step_has_id st.id) (set_claim (w.time (suc (suc s.calls))) st) s.db.steps;
    };
    calls = suc (suc (suc (suc (suc s.calls))));
  }

module _ {X : Type 0} (w : World) (e : Engine X) (h : IsHealthy w) where
  start_pending-healthy :
      (wf : Workflow) (s : Platform X)
      → affects (has_id wf.id) s.db.workflows ≡ true
      → start_pending w e wf s ≡ (ok (begun (w.time s.calls) wf), begin w wf s)
  unfolding start_pending ◌>>=◌
  start_pending-healthy wf s a = elim (Bool-cases (is_pending wf.status)) [
    | inl b ↦ rw b (
        rw (
          update-healthy w h (record wf { status = running; started_at = some (w.time s.calls) })
            (tick s) a))
    | inr b ↦ rw b
  ]

  module _ (id : Uuid) (wf : Workflow) (s : Platform X)
      (found : find (has_id id) s.db.workflows ≡ some wf) where
    -- A terminal workflow: nothing is claimed.
    pub claim_phase-terminal :
        is_terminal wf.status ≡ true → claim_phase w e id s ≡ (ok none, tick s)
    unfolding claim_phase ◌>>=◌
    claim_phase-terminal t = rw (get-healthy w h id s) (rw found (rw t))

    present : affects (has_id wf.id) s.db.workflows ≡ true
    present =
        subst (λ k. affects (has_id k) s.db.workflows ≡ true)
          (sym ((==_iff wf.id id).0 (find-satisfies (has_id id) s.db.workflows wf found)))
          (affects_of_find (has_id id) s.db.workflows wf found)

    pub claim_phase-none :
        is_terminal wf.status ≡ false
        → next_pending id s.db.steps ≡ none
        → claim_phase w e id s ≡ (
          ok (some (begun (w.time (suc s.calls)) wf, err (sentinel not_found))),
          tick (tick (begin w wf (tick s))),
        )
    unfolding claim_phase ◌>>=◌
    claim_phase-none t n = rw (get-healthy w h id s) (
        rw found (
          rw t (
            rw (start_pending-healthy wf (tick s) present)
              (rw (claim_next_step-none w h id (begin w wf (tick s)) n) refl))))

    pub claim_phase-some :
        (st : Step)
        → is_terminal wf.status ≡ false
        → next_pending id s.db.steps ≡ some st
        → let s' = begin w wf (tick s) in
          claim_phase w e id s ≡ (
            ok (
                some
                  (begun (w.time (suc s.calls)) wf, ok (claimed (w.time (suc (suc s'.calls))) st))),
            take w st s',
          )
    unfolding claim_phase ◌>>=◌
    claim_phase-some st t n = rw (get-healthy w h id s) (
        rw found (
          rw t (
            rw (start_pending-healthy wf (tick s) present)
              (rw (claim_next_step-some w h id st (begin w wf (tick s)) n) refl))))
