-- ===== src/Engine/Execute/Settle.antt =====
-- What `executeNext` of internal/workflows/engine.go leaves behind once a step has run, where every
-- call of the database and the broker goes through.
use talos_app.Prelude.{
  suc, ◌+◌, ◌≡◌, refl, true, false, none, some, [], ◌∷◌, ◌++◌, Bool-cases, Option-cases, inl, inr,
}
use talos_app.Shared.{Uuid, Time, Error, is, awaiting_approval, printed, join, lit, JsonMap, Text}
use talos_app.Exec.{◌>>=◌, ok, err}
use talos_app.Domain.Workflow.{Workflow, Step, pending, succeeded, failed, needs_attention, Status}
use talos_app.Domain.Audit.{EventSeverity}
use talos_app.Platform.{Platform, World, IsHealthy, call, tick}
use talos_app.Platform.Rows.{update_rows, affects}
use talos_app.WorkflowRepo.{has_id, step_has_id, set_workflow, set_step}
use talos_app.WorkflowRepo.Healthy.{update-healthy, update_step-healthy}
use talos_app.Engine.{Engine, record_event, dispatch, finish}
use talos_app.Engine.Execute.{settle}

module _ {X : Type 0} where
  -- What the engine's own tables, its topic, its events and the count of the questions do not show in.
  abbrev pub aside : Platform X → Platform X
  aside s = record s {
    db = record s.db { workflows = []; steps = []; events = [] };
    dispatches = [];
    calls = 0;
  }

module _ {X : Type 0} (w : World) (e : Engine X) where
  -- An event changes the table of events alone, and its error is dropped.
  pub record_event-frame :
      (wf : Workflow) (m : Text) (sev : EventSeverity) (s : Platform X)
      → record_event w e wf m sev s ≡ (
        ok tt,
        record s {
          db = record s.db { events = (record_event w e wf m sev s).1.db.events };
          calls = (record_event w e wf m sev s).1.calls;
        },
      )
  unfolding record_event call ◌>>=◌
  record_event-frame wf m sev s = elim (Bool-cases e.audited) [
    | inl a ↦ elim (Option-cases (w.fault (suc s.calls))) [
      | inl n ↦ rw (a, n)
      | inr (m, n) ↦ rw (a, n)
    ]
    | inr a ↦ rw a
  ]

module _ {X : Type 0} (w : World) (e : Engine X) (h : IsHealthy w) where
  pub dispatch-healthy :
      (id : Uuid) (s : Platform X)
      → dispatch w e id s
        ≡ (ok tt, record s { dispatches = s.dispatches ++ id ∷ []; calls = suc s.calls })
  unfolding dispatch call ◌>>=◌
  dispatch-healthy id s = rw (h s.calls)

  -- `finish` writes the status, the message and the end of the run, and nothing but an event beside.
  pub finish-healthy :
      (wf : Workflow) (st : Status) (m : Text) (s : Platform X)
      → affects (has_id wf.id) s.db.workflows ≡ true
      → let done = record wf { status = st; error = m; finished_at = some (w.time s.calls) } in
        let s' = (finish w e wf st m s).1 in
        ((finish w e wf st m s).0 ≡ ok tt)
        × (s'.db.workflows
            ≡ update_rows (has_id wf.id) (set_workflow (w.time (suc s.calls)) done) s.db.workflows)
        × (s'.db.steps ≡ s.db.steps)
        × (s'.dispatches ≡ s.dispatches)
  unfolding finish ◌>>=◌
  finish-healthy wf st m s a =
      rw
        (update-healthy w h
          (record wf { status = st; error = m; finished_at = some (w.time s.calls) }) (tick s) a)
        (rw record_event-frame (refl, refl, refl, refl))

  pub finish-aside :
      (wf : Workflow) (st : Status) (m : Text) (s : Platform X)
      → affects (has_id wf.id) s.db.workflows ≡ true
      → aside (finish w e wf st m s).1 ≡ aside s
  unfolding finish ◌>>=◌
  finish-aside wf st m s a =
      rw
        (update-healthy w h
          (record wf { status = st; error = m; finished_at = some (w.time s.calls) }) (tick s) a)
        (rw record_event-frame refl)

  -- A step that returned an output.
  pub settle-ok :
      (wf : Workflow) (st : Step) (now : Time) (output : JsonMap) (s : Platform X)
      → affects (has_id wf.id) s.db.workflows ≡ true
      → affects (step_has_id st.id) s.db.steps ≡ true
      → let done = record st { finished_at = some now; status = succeeded; output = output } in
        let advanced = record wf { current_step = st.sequence + 1 } in
        let s' = (settle w e wf st now (ok output) s).1 in
        ((settle w e wf st now (ok output) s).0 ≡ ok tt)
        × (s'.db.workflows
            ≡ update_rows
                (has_id wf.id)
                (set_workflow (w.time (suc (suc s.calls))) advanced)
                s.db.workflows)
        × (s'.db.steps
            ≡ update_rows (step_has_id st.id) (set_step (w.time s.calls) done) s.db.steps)
        × (s'.dispatches ≡ s.dispatches ++ wf.id ∷ [])
  unfolding settle ◌>>=◌
  settle-ok wf st now output s a b =
      rw
        (update_step-healthy w h
          (record st { finished_at = some now; status = succeeded; output = output }) s b)
        (rw (update-healthy w h (record wf { current_step = st.sequence + 1 }))
          (rw record_event-frame (rw dispatch-healthy (refl, refl, refl, refl))))

  -- Beside the tables of the engine, its events and its topic, nothing is moved then.
  pub settle-aside :
      (wf : Workflow) (st : Step) (now : Time) (output : JsonMap) (s : Platform X)
      → affects (has_id wf.id) s.db.workflows ≡ true
      → affects (step_has_id st.id) s.db.steps ≡ true
      → aside (settle w e wf st now (ok output) s).1 ≡ aside s
  unfolding settle ◌>>=◌
  settle-aside wf st now output s a b =
      rw
        (update_step-healthy w h
          (record st { finished_at = some now; status = succeeded; output = output }) s b)
        (rw (update-healthy w h (record wf { current_step = st.sequence + 1 }))
          (rw record_event-frame (rw dispatch-healthy refl)))

  -- A step that returned `ErrAwaitingApproval`, wrapped or not.
  pub settle-awaiting :
      (wf : Workflow) (st : Step) (now : Time) (x : Error) (s : Platform X)
      → is x awaiting_approval ≡ true
      → affects (has_id wf.id) s.db.workflows ≡ true
      → affects (step_has_id st.id) s.db.steps ≡ true
      → let back = record st { status = pending; finished_at = none } in
        let waiting = record wf { status = Status.awaiting_approval } in
        let s' = (settle w e wf st now (err x) s).1 in
        ((settle w e wf st now (err x) s).0 ≡ ok tt)
        × (s'.db.workflows
            ≡ update_rows
                (has_id wf.id)
                (set_workflow (w.time (suc (suc s.calls))) waiting)
                s.db.workflows)
        × (s'.db.steps
            ≡ update_rows (step_has_id st.id) (set_step (w.time s.calls) back) s.db.steps)
        × (s'.dispatches ≡ s.dispatches)
  unfolding settle ◌>>=◌
  settle-awaiting wf st now x s i a b = rw i (
      rw (update_step-healthy w h (record st { status = pending; finished_at = none }) s b) (
        rw (update-healthy w h (record wf { status = Status.awaiting_approval }))
          (rw record_event-frame (refl, refl, refl, refl))))

  -- A step that returned any other error.
  pub settle-failed :
      (wf : Workflow) (st : Step) (now : Time) (x : Error) (s : Platform X)
      → is x awaiting_approval ≡ false
      → affects (has_id wf.id) s.db.workflows ≡ true
      → affects (step_has_id st.id) s.db.steps ≡ true
      → let broken = record st { finished_at = some now; status = failed; error = printed x } in
        let reason = join (lit "step %q failed: %v") (join (lit st.name) (printed x)) in
        let done = record wf {
          status = needs_attention;
          error = reason;
          finished_at = some (w.time (suc (suc s.calls)));
        } in
        let s' = (settle w e wf st now (err x) s).1 in
        ((settle w e wf st now (err x) s).0 ≡ ok tt)
        × (s'.db.workflows
            ≡ update_rows
                (has_id wf.id)
                (set_workflow (w.time (suc (suc (suc s.calls)))) done)
                s.db.workflows)
        × (s'.db.steps
            ≡ update_rows (step_has_id st.id) (set_step (w.time s.calls) broken) s.db.steps)
        × (s'.dispatches ≡ s.dispatches)
  unfolding settle ◌>>=◌
  settle-failed wf st now x s i a b = rw i (
      rw
        (update_step-healthy w h
          (record st { finished_at = some now; status = failed; error = printed x }) s b)
        (finish-healthy wf needs_attention
          (join (lit "step %q failed: %v") (join (lit st.name) (printed x)))
          (record s {
            db = record s.db {
              steps =
                  update_rows (step_has_id st.id)
                    (set_step (w.time s.calls)
                      (record st { finished_at = some now; status = failed; error = printed x }))
                    s.db.steps;
            };
            calls = suc (suc s.calls);
          })
          a))
