-- ===== src/Engine/Order.antt =====
-- Which step of a run `ClaimNextStep` of internal/persistence/postgres/workflow_repo.go takes.
use talos_app.Prelude.{
  ℕ, suc, ◌≤◌, ◌≡◌, true, Option, some, List, arith, inl, inr, ◌==◌, ==_self, ==_iff, &&-split,
  lt_or_ge, subst,
}
use talos_app.Shared.{Uuid}
use talos_app.Domain.Workflow.{Step}
use talos_app.Platform.{Platform}
use talos_app.Platform.Rows.Lookup.{In, first_where-In, first_where-le, first_where-none}
use talos_app.Platform.Rows.Keys.{count_where-zero, count_where-suc}
use talos_app.WorkflowRepo.{is_open, next_pending}
use talos_app.Engine.{Engine, Definition}
use talos_app.Engine.Stage.{Stage, open_at}

module _ {X : Type 0} (e : Engine X) (def : Definition X) (cluster : Option Uuid) (id : Uuid) where
  -- The next step is the one in the place `k`.
  pub next_in_place :
      (k n : ℕ) (s : Platform X) (row : Step)
      → Stage e def cluster id k (suc n) s
      → next_pending id s.db.steps ≡ some row
      → row.sequence ≡ k
  unfolding next_pending
  next_in_place k n s row g h = omega (arith, above, below)
    where
      rows : List Step
      rows = s.db.steps

      mine : In row rows × (is_open id row ≡ true)
      mine = first_where-In (is_open id) (λ st. st.sequence) rows row h

      above : k ≤ row.sequence
      above = elim (lt_or_ge row.sequence k) [
        | inl l ↦
            let no =
              first_where-none (open_at id row.sequence) (λ st. st.sequence) rows row
                (count_where-zero (open_at id row.sequence) (λ st. st.sequence) rows
                  (g.past row.sequence l))
                mine.0 in
            ground (arith, no, mine.1, ==_self row.sequence)
        | inr m ↦ m
      ]

      below : row.sequence ≤ k
      below =
          let (y, first) =
            count_where-suc (open_at id k) (λ st. st.sequence) rows 0
              (g.ahead k (omega arith) (omega (arith, g.total))) in
          let (i, o) = first_where-In (open_at id k) (λ st. st.sequence) rows y first in
          let (p, q) = &&-split (is_open id y) (y.sequence == k) o in
          subst (λ j. row.sequence ≤ j) ((==_iff y.sequence k).0 q)
            (first_where-le (is_open id) (λ st. st.sequence) rows row y h i p)
