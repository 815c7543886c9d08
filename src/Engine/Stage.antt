-- ===== src/Engine/Stage.antt =====
-- How far a run of internal/workflows/engine.go has come, read from the tables of runs and steps.
use talos_app.Prelude.{
  ℕ, suc, ◌<◌, ◌+◌, ◌≤◌, ◌==◌, ◌&&◌, &&-split, ==_iff, Bool-cases, ◌≡◌, refl, sym, ap, subst, ◌∙◌,
  Bool, true, false, Option, some, List, arith, find, length, inl, inr, if◌then◌else◌, ◌⊎◌, ◌||◌,
}
use talos_app.Shared.{Uuid, Time, JsonMap}
use talos_app.Exec.{ok}
use talos_app.Domain.Workflow.{Workflow, Step, succeeded, is_pending, is_succeeded}
use talos_app.Platform.{Platform}
use talos_app.Platform.Rows.{update_rows}
use talos_app.Platform.Rows.Lookup.{In, first_where-none, update_rows_twice}
use talos_app.Platform.Rows.Keys.{
  count_where, IsUnique, update_rows-IsUnique, update_rows-In, count_where-update, count_where-keep,
  count_where-zero,
}
use talos_app.WorkflowRepo.{
  has_id, step_has_id, set_workflow, set_step, set_claim, is_open, of_workflow,
}
use talos_app.Engine.{Engine, Definition, StepDefinition, is_terminal, lookup}
use talos_app.Engine.Execute.Settle.{aside}
use talos_app.Engine.Rows.{if-keeps, find_back}
use talos_app.Engine.Outcome.{LeavesRuns}

-- The PENDING step of a run in the place `i`.
abbrev pub open_at : Uuid → ℕ → Step → Bool
open_at id i st = is_open id st && (st.sequence == i)

module _ {X : Type 0} where
  -- The step `d` in the place `k`, for a run of the cluster `cluster`: wherever `Holds k` is the case
  -- it returns an output, and `Holds (suc k)` is the case then; it leaves the engine's tables alone.
  pub record Succeeds (Holds : ℕ → Platform X → Type 0) (cluster : Option Uuid) (k : ℕ)
      (d : StepDefinition X) : Type 0 where
    pub apart : LeavesRuns d.run
    pub succeeds :
        (wf : Workflow) (s : Platform X)
        → wf.cluster_id ≡ cluster
        → Holds k (aside s)
        → (o : JsonMap) × ((d.run wf s).0 ≡ ok o) × Holds (suc k) (aside (d.run wf s).1)

  -- The run `id` of the definition `def`, for the cluster `cluster`, has the first `k` steps behind it
  -- and `n` steps to go.
  pub record Stage (e : Engine X) (def : Definition X) (cluster : Option Uuid) (id : Uuid) (k n : ℕ)
      (s : Platform X) : Type 0 where
    pub wf : Workflow
    pub same : wf.id ≡ id
    pub its : wf.cluster_id ≡ cluster
    pub found : find (has_id id) s.db.workflows ≡ some wf
    pub live : is_terminal wf.status ≡ false
    pub kind : lookup wf.kind e.registry ≡ some def
    pub unique : IsUnique (λ st. st.id) s.db.steps
    pub in_range :
        (st : Step) → In st s.db.steps → is_open id st ≡ true → st.sequence < length def.steps
    pub settled :
        (st : Step)
        → In st s.db.steps
        → of_workflow id st ≡ true
        → (is_pending st.status || is_succeeded st.status) ≡ true
    pub total : k + n ≡ length def.steps
    pub past : (i : ℕ) → i < k → count_where (open_at id i) s.db.steps ≡ 0
    pub ahead : (i : ℕ) → k ≤ i → i < length def.steps → count_where (open_at id i) s.db.steps ≡ 1
    pub remaining : count_where (is_open id) s.db.steps ≡ n

module _ {X : Type 0} (e : Engine X) (def : Definition X) (cluster : Option Uuid) (id : Uuid) where
  -- The stage after the claim and the completion of the step `row`, from the two tables.
  pub restage :
      (k n : ℕ) (s s' : Platform X) (g : Stage e def cluster id k (suc n) s) (row done : Step)
      (wf0 wf1 : Workflow) (t t0 u v : Time) (b : Bool)
      → In row s.db.steps
      → is_open id row ≡ true
      → row.sequence ≡ k
      → done.status ≡ succeeded
      → is_terminal wf1.status ≡ false
      → s'.db.workflows
        ≡ update_rows (has_id g.wf.id) (set_workflow t wf1) (
            if b
            then update_rows (has_id g.wf.id) (set_workflow t0 wf0) s.db.workflows
            else s.db.workflows)
      → s'.db.steps
        ≡ update_rows
            (step_has_id row.id)
            (set_step u done)
            (update_rows (step_has_id row.id) (set_claim v row) s.db.steps)
      → Stage e def cluster id (suc k) n s'
  unfolding set_workflow set_step set_claim
  restage k n s s' g row done wf0 wf1 t t0 u v b i o at fin live ws ss = record {
    wf = row';
    same = if-keeps b (set_workflow t0 wf0) (λ y. y.id) g.wf refl ∙ g.same;
    its = if-keeps b (set_workflow t0 wf0) (λ y. y.cluster_id) g.wf refl ∙ g.its;
    found = subst (λ k. find (has_id k) s'.db.workflows ≡ some row') g.same found';
    live = live;
    kind =
        ap (λ k. lookup k e.registry) (if-keeps b (set_workflow t0 wf0) (λ y. y.kind) g.wf refl)
        ∙ g.kind;
    unique = rw tables (
        update_rows-IsUnique (λ st. st.id) (step_has_id row.id) change s.db.steps (λ y. refl)
          g.unique);
    in_range = λ st j q.
        rest st (update_rows-In (step_has_id row.id) change s.db.steps st (rw tables at j)) q;
    settled = λ st j q.
        clear st (update_rows-In (step_has_id row.id) change s.db.steps st (rw tables at j)) q;
    total = omega (arith, g.total);
    past = λ j q. rw tables (elim (Bool-cases (open_at id j row)) [
      | inl c ↦ omega (
        arith,
        one_less j c,
        g.ahead k (omega arith) (omega (arith, g.total)),
        ap (λ x. count_where (open_at id x) s.db.steps) (here j c),
      )
      | inr c ↦ as_many j c ∙ g.past j (earlier j c q)
    ]);
    ahead = λ j q l. rw tables (elim (Bool-cases (open_at id j row)) [
      | inl c ↦ absurd (omega (arith, here j c))
      | inr c ↦ as_many j c ∙ g.ahead j (omega arith) l
    ]);
    remaining = rw tables (
        omega (
          arith,
          count_where-update (λ st. st.id) (is_open id) change s.db.steps row closed g.unique i o,
          g.remaining,
        ));
  }
    where
      row' : Workflow
      row' = set_workflow t wf1 (if b then set_workflow t0 wf0 g.wf else g.wf)

      old : find (has_id g.wf.id) s.db.workflows ≡ some g.wf
      old = subst (λ k. find (has_id k) s.db.workflows ≡ some g.wf) (sym g.same) g.found

      found' : find (has_id g.wf.id) s'.db.workflows ≡ some row'
      found' = find_back g.wf.id t t0 wf1 wf0 b s.db.workflows g.wf s'.db.workflows old ws

      change : Step → Step
      change y = set_step u done (set_claim v row y)

      tables : s'.db.steps ≡ update_rows (step_has_id row.id) change s.db.steps
      tables =
          ss
          ∙ update_rows_twice (step_has_id row.id) (set_claim v row) (set_step u done) s.db.steps
              (λ y. refl)

      closed : (y : Step) → is_open id (change y) ≡ false
      closed y = ground (arith, fin)

      here : (j : ℕ) → open_at id j row ≡ true → j ≡ k
      here j c =
          sym ((==_iff row.sequence j).0 (&&-split (is_open id row) (row.sequence == j) c).1) ∙ at

      earlier : (j : ℕ) → open_at id j row ≡ false → j < suc k → j < k
      earlier j c q = ground (arith, o, at)

      one_less :
          (j : ℕ)
          → open_at id j row ≡ true
          → count_where (open_at id j) s.db.steps
            ≡ suc (count_where (open_at id j) (update_rows (step_has_id row.id) change s.db.steps))
      one_less j c =
          count_where-update (λ st. st.id) (open_at id j) change s.db.steps row (λ y. rw (closed y))
            g.unique i c

      as_many :
          (j : ℕ)
          → open_at id j row ≡ false
          → count_where (open_at id j) (update_rows (step_has_id row.id) change s.db.steps)
            ≡ count_where (open_at id j) s.db.steps
      as_many j c =
          count_where-keep (λ st. st.id) (open_at id j) change s.db.steps row (λ y. rw (closed y))
            g.unique i c

      rest :
          (st : Step)
          → In st s.db.steps ⊎ ((x : Step) × In x s.db.steps × (st ≡ change x))
          → is_open id st ≡ true
          → st.sequence < length def.steps
      rest st (inl j) q = g.in_range st j q
      rest st (inr (x, j, k)) q = ground (arith, closed x, ap (is_open id) k)

      clear :
          (st : Step)
          → In st s.db.steps ⊎ ((x : Step) × In x s.db.steps × (st ≡ change x))
          → of_workflow id st ≡ true
          → (is_pending st.status || is_succeeded st.status) ≡ true
      clear st (inl j) q = g.settled st j q
      clear st (inr (x, j, k)) q = rw (ap (λ y. y.status) k) (rw fin)

  pub Stage-move :
      (k n : ℕ) (s : Platform X) (ds : List Uuid)
      → Stage e def cluster id k n s
      → Stage e def cluster id k n (record s { dispatches = ds })
  Stage-move k n s ds g = record {
    wf = g.wf;
    same = g.same;
    its = g.its;
    found = g.found;
    live = g.live;
    kind = g.kind;
    unique = g.unique;
    in_range = g.in_range;
    settled = g.settled;
    total = g.total;
    past = g.past;
    ahead = g.ahead;
    remaining = g.remaining;
  }

  pub all_settled :
      (k : ℕ) (s : Platform X)
      → Stage e def cluster id k 0 s
      → (st : Step) → In st s.db.steps
      → of_workflow id st ≡ true
      → st.status ≡ succeeded
  all_settled k s g st i o = ground (
    arith,
    g.settled st i o,
    first_where-none (is_open id) (λ y. y.sequence) s.db.steps st
        (count_where-zero (is_open id) (λ y. y.sequence) s.db.steps g.remaining) i,
  )
