-- ===== src/Engine/Frame.antt =====
-- What `Enqueue` of internal/workflows/engine.go leaves alone, whatever calls fail.
use talos_app.Prelude.{
  String, ◌≡◌, refl, Option, none, some, List, [], ◌∷◌, arith, Bool-cases, Option-cases, inl, inr,
  ◌==◌,
}
use talos_app.Shared.{Uuid, is, JsonMap, not_found}
use talos_app.Exec.{Result, ok, err, ◌>>=◌, ◌>>◌, wrapped, pure}
use talos_app.Exec.Frame.{
  IsFixed, IsFailsafe, IsFixed-IsFailsafe, still_IsFixed, then-IsFixed, then-IsFailsafe,
  attempt-IsFixed, wrapped-IsFixed, pure-IsFixed, raise-IsFixed,
}
use talos_app.Platform.Calls.{call-IsFixed, clock-IsFixed, new_id-IsFixed}
use talos_app.Domain.Workflow.{Workflow, Step, Kind}
use talos_app.Platform.{Platform, World, call, tick}
use talos_app.WorkflowRepo.{get_by_idempotency_key, create, insert_steps, named}
use talos_app.Engine.{Engine, Definition, enqueue, enqueue_run, enqueue_found, dispatch, lookup}

-- A part of the state that neither the count of the questions nor the tables of the runs show in.
module _ {X V : Type 0} (view : Platform X → V)
    (untimed : (s : Platform X) → view (tick s) ≡ view s)
    (unstored : (s : Platform X) (workflows : List Workflow) (steps : List Step)
      → view (record s { db = record s.db { workflows = workflows; steps = steps } }) ≡ view s)
    (w : World) (e : Engine X) where
  read_IsFixed : {A : Type 0} (f : Platform X → Result A) → IsFixed view (call w (λ s. (f s, s)))
  read_IsFixed f = call-IsFixed view untimed w _ (still_IsFixed view _ (λ s. refl))

  named-IsFixed : (id : Uuid) → IsFixed view (named {X = X} w id)
  unfolding named
  named-IsFixed id = record {
    fixed = λ s. elim (Bool-cases (id == 0)) [ inl b ↦ rw b (untimed s) | inr b ↦ rw b ];
  }

  insert_steps-IsFixed : (id : Uuid) (steps : List Step) → IsFixed view (insert_steps w id steps)
  unfolding insert_steps
  insert_steps-IsFixed id [] = pure-IsFixed view []
  insert_steps-IsFixed id (st ∷ rest) = then-IsFixed view _ _ (clock-IsFixed view untimed w) (λ now.
      then-IsFixed view _ _ (named-IsFixed st.id) (λ i.
        then-IsFixed view _ _ (wrapped-IsFixed view _ _ (read_IsFixed _)) (λ _.
          then-IsFixed view _ _ (insert_steps-IsFixed id rest) (λ rows. pure-IsFixed view _))))

  create-IsFixed : (wf : Workflow) (steps : List Step) → IsFixed view (create w wf steps)
  unfolding create
  create-IsFixed wf steps = then-IsFixed view _ _ (clock-IsFixed view untimed w) (λ now.
      then-IsFixed view _ _ (named-IsFixed wf.id) (λ i.
        then-IsFixed view _ _ (wrapped-IsFixed view _ _ (read_IsFixed _)) (λ _.
          then-IsFixed view _ _ (wrapped-IsFixed view _ _ (read_IsFixed _)) (λ _.
            then-IsFixed view _ _ (insert_steps-IsFixed _ steps)
              (λ rows. call-IsFixed view untimed w _ (record { fixed = λ s. unstored s _ _ }))))))

  publish-IsFailsafe :
      (l : String) (wf : Workflow) → IsFailsafe view (wrapped l (dispatch w e wf.id) >> pure wf)
  unfolding dispatch call ◌>>=◌
  publish-IsFailsafe l wf = record {
    undone = λ s x q. elim (Option-cases (w.fault s.calls)) [
      | inl n ↦ (let c : ok wf ≡ err x = rw n at q in ground (arith, c))
      | inr (message, n) ↦ rw n (untimed s)
    ];
  }

  module _ (kind : Kind) (key : String) (input : JsonMap) (cluster machine : Option Uuid)
      (by : Uuid) where
    enqueue_run-IsFailsafe :
        (def : Option (Definition X))
        → IsFailsafe view (enqueue_run w e def kind key input cluster machine by)
    unfolding enqueue_run
    enqueue_run-IsFailsafe none = IsFixed-IsFailsafe view _ (raise-IsFixed view _)
    enqueue_run-IsFailsafe (some def) =
        then-IsFailsafe view _ _ (new_id-IsFixed view untimed w) (λ id.
          then-IsFailsafe view _ _ (wrapped-IsFixed view _ _ (create-IsFixed _ _))
            (λ made. publish-IsFailsafe _ made))

    enqueue_found-IsFailsafe :
        (r : Result Workflow)
        → IsFailsafe view (enqueue_found w e r kind key input cluster machine by)
    unfolding enqueue_found
    enqueue_found-IsFailsafe (ok wf) = IsFixed-IsFailsafe view _ (pure-IsFixed view wf)
    enqueue_found-IsFailsafe (err x) = elim (Bool-cases (is x not_found)) [
      | inl b ↦ rw b (enqueue_run-IsFailsafe (lookup kind e.registry))
      | inr b ↦ rw b (IsFixed-IsFailsafe view _ (raise-IsFixed view _))
    ]

    -- A request that fails leaves the view as it was.
    pub enqueue-IsFailsafe : IsFailsafe view (enqueue w e kind key input cluster machine by)
    unfolding enqueue get_by_idempotency_key
    enqueue-IsFailsafe =
        then-IsFailsafe view _ _ (attempt-IsFixed view _ (read_IsFixed _)) enqueue_found-IsFailsafe

    -- Where sending a message does not show in the view either, no request moves it.
    module _ (unsent : (id : Uuid) → IsFixed view (dispatch w e id)) where
      enqueue_run-IsFixed :
          (def : Option (Definition X))
          → IsFixed view (enqueue_run w e def kind key input cluster machine by)
      unfolding enqueue_run
      enqueue_run-IsFixed none = raise-IsFixed view _
      enqueue_run-IsFixed (some def) = then-IsFixed view _ _ (new_id-IsFixed view untimed w) (λ id.
          then-IsFixed view _ _ (wrapped-IsFixed view _ _ (create-IsFixed _ _)) (λ made.
            then-IsFixed view _ _ (wrapped-IsFixed view _ _ (unsent _))
              (λ _. pure-IsFixed view made)))

      enqueue_found-IsFixed :
          (r : Result Workflow)
          → IsFixed view (enqueue_found w e r kind key input cluster machine by)
      unfolding enqueue_found
      enqueue_found-IsFixed (ok wf) = pure-IsFixed view wf
      enqueue_found-IsFixed (err x) = elim (Bool-cases (is x not_found)) [
        | inl b ↦ rw b (enqueue_run-IsFixed (lookup kind e.registry))
        | inr b ↦ rw b (raise-IsFixed view _)
      ]

      pub enqueue-IsFixed : IsFixed view (enqueue w e kind key input cluster machine by)
      unfolding enqueue get_by_idempotency_key
      enqueue-IsFixed =
          then-IsFixed view _ _ (attempt-IsFixed view _ (read_IsFixed _)) enqueue_found-IsFixed
