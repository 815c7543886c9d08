-- ===== src/Engine/Progress.antt =====
-- A whole run of internal/workflows/engine.go: every message takes one step off the run, and the
-- message after the last step ends it.
use talos_app.Prelude.{
  ℕ, zero, suc, ◌+◌, ◌≡◌, refl, sym, ap, subst, ◌∙◌, true, some, [], ◌∷◌, ◌++◌, find, get_elem?,
  Option, length, arith, ==_self,
}
use talos_app.Shared.{Uuid, JsonMap, no_text, is}
use talos_app.Exec.{◌>>=◌, ok}
use talos_app.Domain.Workflow.{Workflow, Step, succeeded, is_pending}
use talos_app.Platform.{Platform, World, IsHealthy, tick}
use talos_app.Platform.Rows.{update_rows, affects}
use talos_app.Platform.Rows.Lookup.{
  In, affects_of_find, affects_of_In, affects-update_rows, first_where-In,
}
use talos_app.Platform.Rows.Keys.{count_where-zero, count_where-suc}
use talos_app.WorkflowRepo.{
  has_id, step_has_id, set_workflow, set_step, claimed, next_pending, is_open, of_workflow,
}
use talos_app.Engine.{Engine, Definition, StepDefinition, lookup, finish}
use talos_app.Engine.Execute.{step_definition, run_step, run_phase, execute_next}
use talos_app.Engine.Execute.Settle.{aside, settle-ok, settle-aside, finish-healthy, finish-aside}
use talos_app.Engine.Execute.Claim.{begun, begin, take, claim_phase-some, claim_phase-none}
use talos_app.Engine.Outcome.{status_of, LeavesRuns, step_definition-begun}
use talos_app.Engine.Consume.{deliver, consume, settled-ok}
use talos_app.Engine.Order.{next_in_place}
use talos_app.Engine.Rows.{
  get_elem?-some, affects-if, has_id-set_workflow, step_has_id-set_claim, find_back, status_back,
  live-begun,
}
use talos_app.Engine.Stage.{Succeeds, Stage, restage, Stage-move, all_settled}

-- The run is SUCCEEDED with all of its steps, and no message is left.
abbrev pub IsCompleted : {X : Type 0} → Uuid → Platform X → Type 0
IsCompleted id s =
    (status_of id s ≡ some succeeded)
    × ((st : Step) → In st s.db.steps → of_workflow id st ≡ true → st.status ≡ succeeded)
    × (s.dispatches ≡ [])

module _ {X : Type 0} (w : World) (e : Engine X) (h : IsHealthy w) where
  run_step-ok :
      (wf : Workflow) (st : Step) (d : StepDefinition X) (s : Platform X) {o : JsonMap}
      → LeavesRuns d.run
      → (d.run wf s).0 ≡ ok o
      → affects (has_id wf.id) s.db.workflows ≡ true
      → affects (step_has_id st.id) s.db.steps ≡ true
      → let n = (d.run wf s).1.calls in
        let done = record st { finished_at = some (w.time n); status = succeeded; output = o } in
        let advanced = record wf { current_step = st.sequence + 1 } in
        let r = run_step w e (some d) wf st s in
        (r.0 ≡ ok tt)
        × (r.1.db.workflows
            ≡ update_rows
                (has_id wf.id)
                (set_workflow (w.time (suc (suc (suc n)))) advanced)
                s.db.workflows)
        × (r.1.db.steps
            ≡ update_rows (step_has_id st.id) (set_step (w.time (suc n)) done) s.db.steps)
        × (r.1.dispatches ≡ s.dispatches ++ wf.id ∷ [])
        × (aside r.1 ≡ aside (d.run wf s).1)
  unfolding run_step ◌>>=◌
  run_step-ok wf st d s {o} apart ran a b =
      let s2 = (d.run wf s).1 in
      let a' = ap (affects (has_id wf.id)) (apart.workflows wf s) ∙ a in
      let b' = ap (affects (step_has_id st.id)) (apart.steps wf s) ∙ b in
      let (done, ws, ss, ds) = settle-ok w e h wf st (w.time s2.calls) o (tick s2) a' b' in
      rw ran (
        done,
        ws ∙ ap (update_rows (has_id wf.id) _) (apart.workflows wf s),
        ss ∙ ap (update_rows (step_has_id st.id) _) (apart.steps wf s),
        ds ∙ ap (λ l. l ++ wf.id ∷ []) (apart.dispatches wf s),
        settle-aside w e h wf st (w.time s2.calls) o (tick s2) a' b',
      )

  step_definition-some :
      (def : Definition X) (d : StepDefinition X) (wf : Workflow) (st : Step)
      → lookup wf.kind e.registry ≡ some def
      → get_elem? def.steps st.sequence ≡ some d
      → step_definition w e wf st ≡ some d
  unfolding step_definition
  step_definition-some def d wf st k g = rw (k, step_definition) g

  module _ (def : Definition X) (Holds : ℕ → Platform X → Type 0) (cluster : Option Uuid)
      (id : Uuid) where
    advance :
        ((k : ℕ) (d : StepDefinition X)
          → get_elem? def.steps k ≡ some d
          → Succeeds Holds cluster k d)
        → (k n : ℕ) (s : Platform X) → Stage e def cluster id k (suc n) s
        → Holds k (aside s)
        → let r = execute_next w e id s in
          (r.0 ≡ ok tt)
          × Stage e def cluster id (suc k) n r.1
          × (r.1.dispatches ≡ s.dispatches ++ id ∷ [])
          × Holds (suc k) (aside r.1)
    unfolding execute_next run_phase next_pending claimed ◌>>=◌
    advance all k n s g holds =
        let (row, nxt) =
          count_where-suc (is_open id) (λ st. st.sequence) s.db.steps n g.remaining in
        let (i, o) = first_where-In (is_open id) (λ st. st.sequence) s.db.steps row nxt in
        let q = next_in_place e def cluster id k n s row g nxt in
        let (d, at) = get_elem?-some def.steps row.sequence (g.in_range row i o) in
        let s1 = begin w g.wf (tick s) in
        let s2 = take w row s1 in
        let u = w.time (suc (suc s1.calls)) in
        let wf = begun (w.time (suc s.calls)) g.wf in
        let good = all k d (subst (λ j. get_elem? def.steps j ≡ some d) q at) in
        let (out, ran, still) = good.succeeds wf s2 g.its holds in
        let a : affects (has_id g.wf.id) s2.db.workflows ≡ true =
          affects-if (is_pending g.wf.status) (has_id g.wf.id) _ s.db.workflows
            (has_id-set_workflow g.wf.id _ _)
          ∙ subst (λ k. affects (has_id k) s.db.workflows ≡ true) (sym g.same)
              (affects_of_find (has_id id) s.db.workflows g.wf g.found) in
        let b : affects (step_has_id row.id) s2.db.steps ≡ true =
          affects-update_rows (step_has_id row.id) (step_has_id row.id) _ s.db.steps
            (step_has_id-set_claim row.id _ row)
          ∙ affects_of_In (step_has_id row.id) s.db.steps row i (==_self row.id) in
        let (done, ws, ss, ds, same) = run_step-ok wf (claimed u row) d s2 good.apart ran a b in
        rw (claim_phase-some w e h id g.wf s g.found row g.live nxt) (
          rw
            (step_definition-begun w e h (w.time (suc s.calls)) u g.wf row
              ∙ step_definition-some def d g.wf row g.kind at)
            (
              done,
              restage e def cluster id k n s _ g row _ _ _ _ _ _ _ (is_pending g.wf.status) i o q
                  refl (live-begun (w.time (suc s.calls)) g.wf g.live) ws ss,
              ds ∙ ap (λ k. s.dispatches ++ k ∷ []) g.same,
              subst (Holds (suc k)) (sym same) still,
            ))

    -- The message after the last step.
    conclude :
        (k : ℕ) (s : Platform X)
        → Stage e def cluster id k 0 s
        → let r = execute_next w e id s in
          (r.0 ≡ ok tt)
          × (status_of id r.1 ≡ some succeeded)
          × (r.1.db.steps ≡ s.db.steps)
          × (r.1.dispatches ≡ s.dispatches)
          × (aside r.1 ≡ aside s)
    unfolding execute_next run_phase next_pending is ◌>>=◌
    conclude k s g =
        let s1 = tick (tick (begin w g.wf (tick s))) in
        let wf = begun (w.time (suc s.calls)) g.wf in
        let old = subst (λ k. find (has_id k) s.db.workflows ≡ some g.wf) (sym g.same) g.found in
        let a =
          affects-if (is_pending g.wf.status) (has_id g.wf.id) _ s.db.workflows
            (has_id-set_workflow g.wf.id _ _)
          ∙ affects_of_find (has_id g.wf.id) s.db.workflows g.wf old in
        let (done, ws, ss, ds) = finish-healthy w e h wf succeeded no_text s1 a in
        let ended =
          find_back g.wf.id _ _ _ _ (is_pending g.wf.status) s.db.workflows g.wf
            (finish w e wf succeeded no_text s1).1.db.workflows old ws in
        rw
          (claim_phase-none w e h id g.wf s g.found g.live
            (count_where-zero (is_open id) (λ st. st.sequence) s.db.steps g.remaining))
          (
            done,
            status_back id g.wf.id _ _ _ (finish w e wf succeeded no_text s1).1.db.workflows g.same
                ended,
            ss,
            ds,
            finish-aside w e h wf succeeded no_text s1 a,
          )

    deliver-ok :
        (s : Platform X)
        → s.dispatches ≡ id ∷ []
        → (execute_next w e id (record s { dispatches = [] })).0 ≡ ok tt
        → deliver w e s.dispatches s ≡ (execute_next w e id (record s { dispatches = [] })).1
    unfolding deliver
    deliver-ok s q done =
        rw q (settled-ok id (execute_next w e id (record s { dispatches = [] })) done)

    -- Every call goes through. The topic holds one message, for a run that is not over, of a type
    -- whose definition is `def`; no two stored steps have one identifier; every step of the run is
    -- PENDING or SUCCEEDED, and the PENDING ones are one in each of the `n` places from the place `k`
    -- to the end of the definition. The step in each place succeeds on the run's cluster from whatever `Holds` says
    -- of its place and leads to what `Holds` says of the next, the tables and the topic of the engine
    -- aside, which it leaves alone; and `Holds k` is the case. Then `n + 1` messages later the run is
    -- SUCCEEDED with all of its steps SUCCEEDED, the topic is empty, and what `Holds` says of the end
    -- is the case.
    pub consume-completes :
        ((k : ℕ) (d : StepDefinition X)
          → get_elem? def.steps k ≡ some d
          → Succeeds Holds cluster k d)
        → (k n : ℕ) (s : Platform X) → s.dispatches ≡ id ∷ []
        → Stage e def cluster id k n s
        → Holds k (aside s)
        → let s' = consume w e (suc n) s in IsCompleted id s' × Holds (length def.steps) (aside s')
    unfolding consume
    consume-completes all k zero s q g holds =
        let s1 = record s { dispatches = [] } in
        let (done, st, ss, ds, same) = conclude k s1 (Stage-move e def cluster id k 0 s [] g) in
        let all_of : k ≡ length def.steps = omega (arith, g.total) in
        subst (λ y. IsCompleted id y × Holds (length def.steps) (aside y))
          (sym (deliver-ok s q done))
          (
            (st, (λ y i o. all_settled e def cluster id k s g y (subst (In y) ss i) o), ds),
            subst (Holds (length def.steps)) (sym same)
                (subst (λ j. Holds j (aside s)) all_of holds),
          )
    consume-completes all k (suc n) s q g holds =
        let s1 = record s { dispatches = [] } in
        let (done, g', ds, still) =
          advance all k n s1 (Stage-move e def cluster id k (suc n) s [] g) holds in
        subst
          (λ y.
            IsCompleted id (consume w e (suc n) y)
            × Holds (length def.steps) (aside (consume w e (suc n) y)))
          (sym (deliver-ok s q done))
          (consume-completes all (suc k) n (execute_next w e id s1).1 ds g' still)
