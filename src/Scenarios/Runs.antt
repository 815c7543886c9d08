-- ===== src/Scenarios/Runs.antt =====
-- Runs of the workflow engine.
use talos_app.Prelude.{
  ◌==◌, if◌then◌else◌, false, ◌≡◌, refl, none, some, List, [], ◌∷◌, find, inl, inr,
}
use talos_app.Shared.{is, wrap, driver, touch}
use talos_app.Exec.{ok, err, ◌>>=◌}
use talos_app.Domain.Workflow.{Workflow, Step, Status, Kind, pending, running}
use talos_app.Platform.{Platform, World, call}
use talos_app.Platform.Rows.{update_rows, affects, first_where}
use talos_app.WorkflowRepo.Claims.{claims_differ}
use talos_app.WorkflowRepo.{
  claim_next_step, claimed, set_claim, get_by_idempotency_key, create, named, insert_steps, has_key,
  next_pending,
}
use talos_app.Engine.{
  lookup, enqueue, enqueue_found, enqueue_run, dispatch, planned, new_run, resume,
}
use talos_app.Engine.Outcome.{status_of}
use talos_app.Engine.Consume.{consume}
use talos_app.Engine.Endings.{Drained, IsOver, consume-over, resume-branches}
use talos_app.Engine.Requests.{enqueue-strands}
use talos_app.Scenarios.{
  healthy, publish_fails, healthy-IsHealthy, engine, a_run, a_step, platform_of, nothing_stored,
}

-- A run of two steps that has not begun.
abbrev two_steps : List Step
two_steps = a_step 1 0 pending ∷ a_step 2 1 pending ∷ []

abbrev waiting : Platform (Unit {0})
waiting = platform_of (a_run Kind.cluster_provision pending) two_steps

-- A run whose only step waits for an approval.
abbrev at_gate : Platform (Unit {0})
at_gate = platform_of (a_run Kind.cluster_upgrade running) (a_step 1 0 pending ∷ [])

-- A run whose first step another worker is still running.
abbrev in_flight : Platform (Unit {0})
in_flight = platform_of (a_run Kind.cluster_upgrade running) (a_step 1 0 running ∷ [])

-- A run that is over, with a step that never ran, and two messages for it; the database does not
-- answer the first.
abbrev over : Platform (Unit {0})
over =
    record (platform_of (a_run Kind.cluster_upgrade Status.needs_attention)
      (a_step 1 0 pending ∷ [])) { dispatches = 7 ∷ 7 ∷ [] }

abbrev stumbles : World
stumbles = record healthy { fault = λ n. if n == 0 then some "timeout" else none }

is_over : IsOver 7 over.db
is_over = (
  a_run Kind.cluster_upgrade Status.needs_attention,
  unfold find in refl,
  inr (inr (inr (inl refl))),
)

consume-over_example : Drained 2 over (consume stumbles engine 2 over)
consume-over_example = consume-over stumbles engine 2 over (is_over, (is_over, tt))

abbrev paused : Platform (Unit {0})
paused = platform_of (a_run Kind.cluster_upgrade Status.awaiting_approval) (a_step 1 0 pending ∷ [])

resume-branches_example :
    let r = resume healthy engine 7 paused in
    (r.0 ≡ ok tt)
    × (status_of 7 r.1 ≡ some running)
    × (r.1.db.steps ≡ a_step 1 0 pending ∷ [])
    × (r.1.dispatches ≡ 7 ∷ 7 ∷ [])
resume-branches_example =
    resume-branches healthy engine 7 (a_run Kind.cluster_upgrade Status.awaiting_approval) paused
      healthy-IsHealthy (unfold find in refl)

-- The broker fails when the run has just been stored; the request is made again.
abbrev stored : Workflow
stored = record (new_run 101 Kind.cluster_upgrade "key" [] (some 5) none 1) {
  timestamps = record { created_at = 2; updated_at = 2 };
}

first_request_fails :
    let r =
      enqueue publish_fails engine Kind.cluster_upgrade "key" [] (some 5) none 1 nothing_stored in
    (r.0 ≡ err (wrap "dispatching workflow" (driver "broker unreachable")))
    × (find (has_key "key") r.1.db.workflows ≡ some stored)
unfolding enqueue enqueue_found enqueue_run get_by_idempotency_key create named insert_steps
    dispatch lookup planned new_run call find affects is touch ◌>>=◌
first_request_fails = (refl, refl)

enqueue-strands_example :
    let failed =
      enqueue publish_fails engine Kind.cluster_upgrade "key" [] (some 5) none 1 nothing_stored in
    let again = enqueue healthy engine Kind.cluster_upgrade "key" [] (some 5) none 1 failed.1 in
    (again.0 ≡ ok stored) × (again.1.dispatches ≡ [])
enqueue-strands_example =
    enqueue-strands publish_fails healthy engine Kind.cluster_upgrade "key" [] (some 5) none 1
      nothing_stored stored (wrap "dispatching workflow" (driver "broker unreachable"))
      healthy-IsHealthy first_request_fails.0 first_request_fails.1

first_claim : (claim_next_step healthy 7 waiting).0 ≡ ok (claimed 2 (a_step 1 0 pending))
unfolding claim_next_step next_pending first_where call ◌>>=◌
first_claim = refl

second_claim :
    (claim_next_step healthy 7 (claim_next_step healthy 7 waiting).1).0
    ≡ ok (claimed 7 (a_step 2 1 pending))
unfolding claim_next_step next_pending first_where update_rows set_claim call ◌>>=◌
second_claim = refl

claims_differ_example :
    ((claimed 7 (a_step 2 1 pending)).id == (claimed 2 (a_step 1 0 pending)).id) ≡ false
claims_differ_example =
    claims_differ healthy healthy 7 7 (claimed 2 (a_step 1 0 pending))
      (claimed 7 (a_step 2 1 pending)) waiting healthy-IsHealthy healthy-IsHealthy first_claim
      second_claim
