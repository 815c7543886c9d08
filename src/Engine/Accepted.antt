-- ===== src/Engine/Accepted.antt =====
-- A request that `Enqueue` of internal/workflows/engine.go accepts, from the call to the end of its run.
use talos_app.Prelude.{
  ℕ, suc, ◌≡◌, refl, ap, ◌∙◌, String, true, false, Option, none, some, [], ◌∷◌, ◌++◌, ==_self,
  &&-split, arith, length, get_elem?, inl, inr, find,
}
use talos_app.Shared.{Uuid, JsonMap, touch, no_timestamps, is}
use talos_app.Exec.{ok, ◌>>=◌}
use talos_app.Domain.Workflow.{Workflow, Step, Kind, is_pending}
use talos_app.Platform.{Platform, World, IsHealthy, call}
use talos_app.Platform.Rows.Lookup.{In}
use talos_app.Platform.Rows.Keys.{IsUnique}
use talos_app.WorkflowRepo.{
  has_id, has_key, violates, get_by_idempotency_key, create, named, is_open, of_workflow,
}
use talos_app.Engine.{
  Engine, Definition, StepDefinition, lookup, new_run, is_terminal, dispatch, enqueue_run,
  enqueue_found, enqueue,
}
use talos_app.Engine.Consume.{consume}
use talos_app.Engine.Execute.Settle.{aside}
use talos_app.Engine.Stage.{Succeeds, Stage, open_at}
use talos_app.Engine.Progress.{IsCompleted, consume-completes}
use talos_app.Platform.Rows.Append.{find-append, find-none, IsUnique-++, count-++, In-++}
use talos_app.Engine.Inserted.{
  IsFresh, rows, calls_after, insert_steps-healthy, rows-In, rows-ahead, rows-count, rows-IsUnique,
  rows-unused,
}

module _ {X : Type 0} (w : World) (e : Engine X) (h : IsHealthy w) (kind : Kind) (key : String)
    (input : JsonMap) (cluster machine : Option Uuid) (by : Uuid) (def : Definition X)
    (s : Platform X) where
  abbrev pub run_id : Uuid
  run_id = w.fresh (suc s.calls)

  -- The run as it is stored, and the platform after the request.
  abbrev pub stored_run : Workflow
  stored_run = record (new_run run_id kind key input cluster machine by) {
    timestamps = touch (w.time (suc (suc s.calls))) no_timestamps;
  }

  abbrev first_step : ℕ
  first_step = suc (suc (suc (suc (suc s.calls))))

  abbrev pub accepted : Platform X
  accepted = record s {
    db = record s.db {
      workflows = s.db.workflows ++ stored_run ∷ [];
      steps = s.db.steps ++ rows w run_id first_step 0 def.steps;
    };
    dispatches = s.dispatches ++ run_id ∷ [];
    calls = suc (suc (calls_after w run_id first_step def.steps));
  }

  enqueue-healthy :
      (f : IsFresh w s)
      → find (has_key key) s.db.workflows ≡ none
      → lookup kind e.registry ≡ some def
      → violates stored_run s.db.workflows ≡ false
      → enqueue w e kind key input cluster machine by s ≡ (ok stored_run, accepted)
  unfolding enqueue enqueue_found enqueue_run get_by_idempotency_key create named new_run dispatch
      is call ◌>>=◌
  enqueue-healthy f n k v =
      rw
        (
          h s.calls,
          n,
          k,
          f.nonzero (suc s.calls),
          h (suc (suc (suc s.calls))),
          h (suc (suc (suc (suc s.calls)))),
          v,
        )
        (rw (insert_steps-healthy w run_id h 0 def.steps (record s { calls = first_step })) (
          rw
            (
              h (calls_after w run_id first_step def.steps),
              h (suc (calls_after w run_id first_step def.steps)),
            )
            refl))

  found_run : (f : IsFresh w s) → find (has_id run_id) accepted.db.workflows ≡ some stored_run
  unfolding new_run
  found_run f =
      find-append (has_id run_id) s.db.workflows stored_run
        (find-none (has_id run_id) s.db.workflows (f.unused_run (suc s.calls))) (==_self run_id)

  new_or_old :
      (st : Step)
      → In st accepted.db.steps
      → of_workflow run_id st ≡ true
      → IsFresh w s
      → In st (rows w run_id first_step 0 def.steps)
  new_or_old st i o f = elim (In-++ s.db.steps _ st i) [
    | inl j ↦ (let no = f.unowned (suc s.calls) st j in ground (arith, no))
    | inr j ↦ j
  ]

  owned :
      (st : Step)
      → is_open run_id st ≡ true
      → (of_workflow run_id st ≡ true) × (is_pending st.status ≡ true)
  owned st o = &&-split _ _ o

  pub accepted-Stage :
      (f : IsFresh w s)
      → lookup kind e.registry ≡ some def
      → IsUnique (λ st. st.id) s.db.steps
      → Stage e def cluster run_id 0 (length def.steps) accepted
  unfolding new_run is_terminal
  accepted-Stage f k u =
      let news = rows w run_id first_step 0 def.steps in
      record {
        wf = stored_run;
        same = refl;
        its = refl;
        found = found_run f;
        live = refl;
        kind = k;
        unique =
            IsUnique-++ (λ st. st.id) s.db.steps news u
              (rows-IsUnique w run_id f.distinct first_step 0 def.steps)
              (λ x i. rows-unused w run_id x.id (λ n. f.unused_step n x i) first_step 0 def.steps);
        in_range = λ st i o.
            (let (p, q) = owned st o in
              let (_, r) = rows-In w run_id first_step 0 def.steps st (new_or_old st i p f) in
              omega arith);
        settled = λ st i o.
            (let (p, _) = rows-In w run_id first_step 0 def.steps st (new_or_old st i o f) in
              rw p refl);
        total = omega arith;
        past = λ i l. absurd (omega (arith, l));
        ahead = λ i _ l.
            count-++ (open_at run_id i) s.db.steps news (λ x j. rw (f.unowned (suc s.calls) x j))
            ∙ rows-ahead w run_id first_step 0 i def.steps (omega arith) (omega (arith, l));
        remaining =
            count-++ (is_open run_id) s.db.steps news (λ x i. rw (f.unowned (suc s.calls) x i))
            ∙ rows-count w run_id first_step 0 def.steps;
      }

  -- Every call goes through; no UUID that is made is zero, is made twice, or is stored already as a run,
  -- as a step or as the run of a step; no two stored steps have one
  -- identifier; no other message waits; no run has the idempotency key or the identifier; the type has
  -- the definition `def`, whose step in each place succeeds on the cluster of the request from
  -- whatever `Holds` says of its place and leads to what `Holds` says of the next, the tables and the
  -- topic of the engine aside, which it leaves alone; and what `Holds` says of the first place is the
  -- case. Then the request answers with the stored run, and one message for each step and one more
  -- later that run is SUCCEEDED with all of its steps SUCCEEDED, no message is left, and what `Holds`
  -- says of the end is the case.
  pub request_completes :
      (Holds : ℕ → Platform X → Type 0)
      → IsFresh w s
      → IsUnique (λ st. st.id) s.db.steps
      → s.dispatches ≡ []
      → find (has_key key) s.db.workflows ≡ none
      → violates stored_run s.db.workflows ≡ false
      → lookup kind e.registry ≡ some def
      → ((k : ℕ) (d : StepDefinition X)
          → get_elem? def.steps k ≡ some d
          → Succeeds Holds cluster k d)
      → Holds 0 (aside s)
      → let r = enqueue w e kind key input cluster machine by s in
        let s' = consume w e (suc (length def.steps)) r.1 in
        (r.0 ≡ ok stored_run) × IsCompleted stored_run.id s' × Holds (length def.steps) (aside s')
  unfolding new_run
  request_completes Holds f u q n v k all holds =
      let (done, still) =
        consume-completes w e h def Holds cluster run_id all 0 (length def.steps) accepted
          (ap (λ l. l ++ run_id ∷ []) q) (accepted-Stage f k u) holds in
      rw (enqueue-healthy f n k v) (refl, done, still)
