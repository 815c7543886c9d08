-- ===== src/Engine/Inserted.antt =====
-- The rows that `Enqueue` of internal/workflows/engine.go stores for the steps of a new run, where
-- every call goes through and no UUID is made twice.
use talos_app.Prelude.{
  ℕ, suc, ◌+◌, ◌<◌, ◌≤◌, lt_or_ge, ◌≡◌, refl, ap, true, false, List, [], ◌∷◌, ◌==◌, arith, length,
  inl, inr, none, ==_self,
}
use talos_app.Shared.{Uuid, touch, no_timestamps, no_text}
use talos_app.Exec.{ok, ◌>>=◌}
use talos_app.Domain.Workflow.{Step, pending, is_pending}
use talos_app.Platform.{Platform, World, IsHealthy, call}
use talos_app.Platform.Rows.{affects}
use talos_app.Platform.Rows.Lookup.{In}
use talos_app.Platform.Rows.Keys.{count_where, IsUnique}
use talos_app.WorkflowRepo.{insert_steps, named, is_open, of_workflow}
use talos_app.Engine.{StepDefinition, planned}
use talos_app.Engine.Stage.{open_at}

-- `uuid.New` makes no UUID twice, nor the zero one, nor one that is stored.
pub record IsFresh {X : Type 0} (w : World) (s : Platform X) : Type 0 where
  pub nonzero : (n : ℕ) → (w.fresh n == 0) ≡ false
  pub distinct : (m n : ℕ) → m < n → (w.fresh n == w.fresh m) ≡ false
  pub unused_run : (n : ℕ) → affects (λ wf. wf.id == w.fresh n) s.db.workflows ≡ false
  pub unused_step : (n : ℕ) (st : Step) → In st s.db.steps → (w.fresh n == st.id) ≡ false
  pub unowned : (n : ℕ) (st : Step) → In st s.db.steps → of_workflow (w.fresh n) st ≡ false

module _ {X : Type 0} (w : World) (id : Uuid) where
  -- The row of one step, from the count of the questions and its place in the run.
  abbrev row : ℕ → ℕ → StepDefinition X → Step
  row c n d = record {
    id = w.fresh (suc c);
    workflow_id = id;
    sequence = n;
    name = d.name;
    status = pending;
    output = [];
    error = no_text;
    attempts = 0;
    started_at = none;
    finished_at = none;
    timestamps = touch (w.time c) no_timestamps;
  }

  pub rows : ℕ → ℕ → List (StepDefinition X) → List Step
  rows c n [] = []
  rows c n (d ∷ rest) = row c n d ∷ rows (suc (suc (suc c))) (n + 1) rest

  pub calls_after : ℕ → List (StepDefinition X) → ℕ
  calls_after c [] = c
  calls_after c (d ∷ rest) = calls_after (suc (suc (suc c))) rest

  pub insert_steps-healthy :
      (h : IsHealthy w) (n : ℕ) (defs : List (StepDefinition X)) (s : Platform X)
      → insert_steps w id (planned n defs) s
        ≡ (ok (rows s.calls n defs), record s { calls = calls_after s.calls defs })
  unfolding insert_steps named planned call rows calls_after ◌>>=◌
  insert_steps-healthy h n [] s = refl
  insert_steps-healthy h n (d ∷ rest) s =
      rw (h (suc (suc s.calls))) (
        rw (insert_steps-healthy h (n + 1) rest (record s { calls = suc (suc (suc s.calls)) }))
          refl)

  pub rows-In :
      (c n : ℕ) (defs : List (StepDefinition X)) (st : Step)
      → In st (rows c n defs)
      → (is_pending st.status ≡ true) × (st.sequence < n + length defs)
  unfolding rows
  rows-In c n [] st i = elim i [ ]
  rows-In c n (d ∷ rest) st (inl e) = (rw e, rw e (omega arith))
  rows-In c n (d ∷ rest) st (inr i) =
      let (p, q) = rows-In (suc (suc (suc c))) (n + 1) rest st i in (p, omega arith)

  pub rows-count :
      (c n : ℕ) (defs : List (StepDefinition X))
      → count_where (is_open id) (rows c n defs) ≡ length defs
  unfolding rows count_where
  rows-count c n [] = refl
  rows-count c n (d ∷ rest) = rw (==_self id) (ap suc (rows-count (suc (suc (suc c))) (n + 1) rest))

  rows-behind :
      (c n i : ℕ) (defs : List (StepDefinition X))
      → i < n
      → count_where (open_at id i) (rows c n defs) ≡ 0
  unfolding rows count_where
  rows-behind c n i [] h = refl
  rows-behind c n i (d ∷ rest) h =
      ground (arith, rows-behind (suc (suc (suc c))) (n + 1) i rest (omega arith))

  -- One PENDING step in each place.
  pub rows-ahead :
      (c n i : ℕ) (defs : List (StepDefinition X))
      → n ≤ i
      → i < n + length defs
      → count_where (open_at id i) (rows c n defs) ≡ 1
  unfolding rows count_where
  rows-ahead c n i [] h l = omega arith
  rows-ahead c n i (d ∷ rest) h l = elim (lt_or_ge n i) [
    | inl m ↦
        ground (arith, m, rows-ahead (suc (suc (suc c))) (n + 1) i rest (omega arith) (omega arith))
    | inr m ↦ ground (arith, m, h, rows-behind (suc (suc (suc c))) (n + 1) i rest (omega arith))
  ]

  rows-affects :
      ((i j : ℕ) → i < j → (w.fresh j == w.fresh i) ≡ false)
      → (k c n : ℕ) (defs : List (StepDefinition X)) → k < suc c
      → affects (λ y. y.id == w.fresh k) (rows c n defs) ≡ false
  unfolding rows affects
  rows-affects d k c n [] h = refl
  rows-affects d k c n (x ∷ rest) h =
      rw (d k (suc c) (omega arith))
        (rows-affects d k (suc (suc (suc c))) (n + 1) rest (omega arith))

  pub rows-IsUnique :
      ((i j : ℕ) → i < j → (w.fresh j == w.fresh i) ≡ false)
      → (c n : ℕ) (defs : List (StepDefinition X)) → IsUnique (λ st. st.id) (rows c n defs)
  unfolding rows
  rows-IsUnique d c n [] = tt
  rows-IsUnique d c n (x ∷ rest) = (
    rows-affects d (suc c) (suc (suc (suc c))) (n + 1) rest (omega arith),
    rows-IsUnique d (suc (suc (suc c))) (n + 1) rest,
  )

  pub rows-unused :
      (k : Uuid)
      → ((n : ℕ) → (w.fresh n == k) ≡ false)
      → (c n : ℕ) (defs : List (StepDefinition X))
      → affects (λ y. y.id == k) (rows c n defs) ≡ false
  unfolding rows affects
  rows-unused k d c n [] = refl
  rows-unused k d c n (x ∷ rest) = rw (d (suc c)) (rows-unused k d (suc (suc (suc c))) (n + 1) rest)
