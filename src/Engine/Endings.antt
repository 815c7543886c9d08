-- ===== src/Engine/Endings.antt =====
-- Messages of internal/workflows/engine.go that find nothing to run: the run is over, or it has no
-- PENDING step; and `Resume`, which sends a message again.
use talos_app.Prelude.{
  ℕ, zero, suc, ◌+◌, ◌≤◌, List, drop, ap, arith, ◌≡◌, refl, sym, subst, ◌∙◌, true, some, ◌++◌, [],
  ◌∷◌, find, Option-cases, inl, inr, ==_iff, Bool-cases, if◌then◌else◌,
}
use mathlib.Core.List.{append-nil}
use talos_app.Shared.{Uuid, sentinel, invalid_input, wrap}
use talos_app.Exec.{◌>>=◌, Result, ok, err}
use talos_app.Domain.Workflow.{Workflow, Status, succeeded, running, is_awaiting}
use talos_app.Platform.{Platform, Db, World, IsHealthy, call, tick}
use talos_app.Platform.Rows.{affects}
use talos_app.Platform.Rows.Lookup.{In, All, affects_of_find, find-satisfies, find-update_rows}
use talos_app.WorkflowRepo.{has_id, get, set_workflow}
use talos_app.WorkflowRepo.Healthy.{get-healthy, update-healthy}
use talos_app.Engine.{Engine, is_terminal, resume}
use talos_app.Engine.Execute.{claim_phase, run_phase, execute_next}
use talos_app.Engine.Execute.Settle.{record_event-frame, dispatch-healthy}
use talos_app.Engine.Consume.{deliver, consume, settled}
use talos_app.Engine.Outcome.{status_of}
use talos_app.Engine.Rows.{has_id-set_workflow, status_back}

-- The statuses of a run that is over.
abbrev pub final : List Status
final = succeeded ∷ Status.failed ∷ Status.cancelled ∷ Status.needs_attention ∷ []

abbrev pub IsOver : Uuid → Db → Type 0
IsOver id db = (wf : Workflow) × (find (has_id id) db.workflows ≡ some wf) × In wf.status final

-- The platform after `n` deliveries that find nothing to do.
pub record Drained {X : Type 0} (n : ℕ) (s s' : Platform X) : Type 0 where
  pub tables : s'.db ≡ s.db
  pub systems : s'.outside ≡ s.outside
  pub taken : (j : ℕ) × (j ≤ n) × (s'.dispatches ≡ drop j s.dispatches)

drop-none : {A : Type 0} (k : ℕ) → drop {A = A} k [] ≡ []
drop-none zero = refl
drop-none (suc k) = refl

drop-drop : {A : Type 0} (k j : ℕ) (xs : List A) → drop k (drop j xs) ≡ drop (k + j) xs
drop-drop k zero xs = let q : k ≡ k + 0 = omega arith in ap (λ i. drop i xs) q
drop-drop k (suc j) [] = drop-none k ∙ sym (drop-none (k + suc j))
drop-drop k (suc j) (x ∷ xs) =
    let q : suc (k + j) ≡ k + suc j = omega arith in drop-drop k j xs ∙ ap (λ i. drop i (x ∷ xs)) q

All-drop : {A : Type 0} (P : A → Type 0) (j : ℕ) (xs : List A) → All P xs → All P (drop j xs)
All-drop P zero xs a = a
All-drop P (suc j) [] a = a
All-drop P (suc j) (x ∷ xs) a = All-drop P j xs a.1

module _ {X : Type 0} (w : World) (e : Engine X) where
  execute_next-terminal :
      (id : Uuid) (wf : Workflow) (s : Platform X)
      → find (has_id id) s.db.workflows ≡ some wf
      → is_terminal wf.status ≡ true
      → (execute_next w e id s).1 ≡ tick s
  unfolding execute_next claim_phase run_phase get call ◌>>=◌
  execute_next-terminal id wf s found t = elim (Option-cases (w.fault s.calls)) [
    | inl n ↦ rw n (rw found (rw t))
    | inr (message, n) ↦ rw n
  ]

  final-terminal : (st : Status) → In st final → is_terminal st ≡ true
  unfolding is_terminal
  final-terminal st (inl q) = rw q refl
  final-terminal st (inr (inl q)) = rw q refl
  final-terminal st (inr (inr (inl q))) = rw q refl
  final-terminal st (inr (inr (inr (inl q)))) = rw q refl
  final-terminal st (inr (inr (inr (inr i)))) = elim i [ ]

  -- A message that a topic of such messages hands out: taken off where the handler returns, and put
  -- back where the database does not answer.
  deliver-over :
      (ids : List Uuid) (s : Platform X)
      → ids ≡ s.dispatches
      → All (λ id. IsOver id s.db) ids
      → Drained 1 s (deliver w e ids s)
  unfolding deliver
  deliver-over [] s q a = record { tables = refl; systems = refl; taken = (0, omega arith, refl) }
  deliver-over (id ∷ rest) s q ((wf, found, over), others) =
      let s1 = record s { dispatches = rest } in
      settled_over (execute_next w e id s1).0 (execute_next w e id s1).1
        (execute_next-terminal id wf s1 found (final-terminal wf.status over))
    where
      settled_over :
          {A : Type 0} (r : Result A) (y : Platform X)
          → y ≡ tick (record s { dispatches = rest })
          → Drained 1 s (settled id (r, y))
      settled_over (ok a) y k =
          rw k (record { tables = refl; systems = refl; taken = (1, omega arith, ap (drop 1) q) })
      settled_over (err x) y k =
          rw k (record { tables = refl; systems = refl; taken = (0, omega arith, q) })

  -- Every message on the topic is for a run that is stored as SUCCEEDED, FAILED, CANCELLED or
  -- NEEDS_ATTENTION. However many are delivered, and whichever calls of the database fail, no table
  -- is changed and no system outside; no message is sent: the topic has lost some of its messages
  -- from the head, one for a delivery at most.
  pub consume-over :
      (n : ℕ) (s : Platform X)
      → All (λ id. IsOver id s.db) s.dispatches
      → Drained n s (consume w e n s)
  unfolding consume
  consume-over zero s a = record { tables = refl; systems = refl; taken = (0, omega arith, refl) }
  consume-over (suc n) s a =
      let g = deliver-over s.dispatches s refl a in
      let s1 = deliver w e s.dispatches s in
      let (j, l, q) = g.taken in
      let left : All (λ id. IsOver id s1.db) s1.dispatches =
        subst (λ db. All (λ id. IsOver id db) s1.dispatches) (sym g.tables)
          (subst (All (λ id. IsOver id s.db)) (sym q)
            (All-drop (λ id. IsOver id s.db) j s.dispatches a)) in
      let rest = consume-over n s1 left in
      let (k, m, p) = rest.taken in
      record {
        tables = rest.tables ∙ g.tables;
        systems = rest.systems ∙ g.systems;
        taken = (k + j, omega arith, p ∙ ap (drop k) q ∙ drop-drop k j s.dispatches);
      }

  -- `Resume` of a run, where every call goes through: a run that awaits approval is RUNNING again and
  -- one message for it follows; any other is refused as invalid input, keeps its status, and no
  -- message follows. No step is touched.
  pub resume-branches :
      (id : Uuid) (wf : Workflow) (s : Platform X)
      → IsHealthy w
      → find (has_id id) s.db.workflows ≡ some wf
      → let r = resume w e id s in
        let waits = is_awaiting wf.status in
        (r.0 ≡ (
          if waits
          then ok tt
          else err (wrap "workflow %s is %s, not awaiting approval" (sentinel invalid_input))))
        × (status_of id r.1 ≡ some (if waits then running else wf.status))
        × (r.1.db.steps ≡ s.db.steps)
        × (r.1.dispatches ≡ s.dispatches ++ (if waits then id ∷ [] else []))
  unfolding resume ◌>>=◌
  resume-branches id wf s h found =
      let same = (==_iff wf.id id).0 (find-satisfies (has_id id) s.db.workflows wf found) in
      let a =
        subst (λ k. affects (has_id k) s.db.workflows ≡ true) (sym same)
          (affects_of_find (has_id id) s.db.workflows wf found) in
      let old = subst (λ k. find (has_id k) s.db.workflows ≡ some wf) (sym same) found in
      elim (Bool-cases (is_awaiting wf.status)) [
        | inl t ↦ rw (get-healthy w h id s) (
            rw found (
              rw t (
                rw (update-healthy w h (record wf { status = running }) (tick s) a) (
                  rw record_event-frame (
                    rw dispatch-healthy (
                      refl,
                      status_back id wf.id _ _ _ _ same (
                          find-update_rows (has_id wf.id)
                            (set_workflow (w.time (suc s.calls)) (record wf { status = running }))
                            s.db.workflows wf (has_id-set_workflow wf.id _ _) old),
                      refl,
                      refl,
                    ))))))
        | inr t ↦
            rw (get-healthy w h id s)
              (rw found (rw t (refl, rw found, refl, sym (append-nil s.dispatches))))
      ]
