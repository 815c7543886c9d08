-- ===== src/WorkflowRepo/Claims.antt =====
-- Two claims by `ClaimNextStep` of internal/infrastructure/postgres/workflow_repo.go, one after the
-- other, by the same worker or by two.
use talos_app.Prelude.{
  suc, ◌≡◌, sym, ap, ◌∙◌, true, false, some, List, [], ◌∷◌, ◌==◌, inl, inr, arith, Option-cases,
  Bool-cases,
}
use talos_app.Shared.{Uuid, Time, sentinel, not_found}
use talos_app.Exec.{ok, err}
use talos_app.Exec.Ensures.{ok-injective}
use talos_app.Domain.Workflow.{Step}
use talos_app.Platform.{Platform, World, IsHealthy}
use talos_app.Platform.Rows.{update_rows}
use talos_app.Platform.Rows.Lookup.{In, first_where-In}
use talos_app.WorkflowRepo.{step_has_id, claimed, set_claim, is_open, next_pending, claim_next_step}
use talos_app.WorkflowRepo.Healthy.{claim_next_step-none, claim_next_step-some}

-- A row that `next_pending` finds after the claim of `st` is another one.
next_pending-claimed :
    (id : Uuid) (now : Time) (st other : Step) (rows : List Step)
    → next_pending id (update_rows (step_has_id st.id) (set_claim now st) rows) ≡ some other
    → (other.id == st.id) ≡ false
unfolding next_pending set_claim update_rows
next_pending-claimed id now st other rows h =
    let (i, o) =
      first_where-In (is_open id) (λ y. y.sequence)
        (update_rows (step_has_id st.id) (set_claim now st) rows) other h in
    closed rows i o
  where
    closed :
        (ys : List Step)
        → In other (update_rows (step_has_id st.id) (set_claim now st) ys)
        → is_open id other ≡ true
        → (other.id == st.id) ≡ false
    closed [] i o = elim i [ ]
    closed (y ∷ ys) (inl e) o = elim (Bool-cases (step_has_id st.id y)) [
      | inl b ↦
          (let e' : other ≡ set_claim now st y = rw b at e in
            let c : is_open id (set_claim now st y) ≡ true = ap (is_open id) (sym e') ∙ o in
            ground (arith, c))
      | inr b ↦ (let e' : other ≡ y = rw b at e in ap (step_has_id st.id) e' ∙ b)
    ]
    closed (y ∷ ys) (inr i) o = closed ys i o

module _ {X : Type 0} where
  -- What an answered claim says of the tables before and after.
  claim-ok :
      (w : World) (h : IsHealthy w) (id : Uuid) (a : Step) (s : Platform X)
      → (claim_next_step w id s).0 ≡ ok a
      → (st : Step) × (next_pending id s.db.steps ≡ some st)
        × (a.id ≡ st.id)
        × ((claim_next_step w id s).1.db.steps
            ≡ update_rows
                (step_has_id st.id)
                (set_claim (w.time (suc (suc s.calls))) st)
                s.db.steps)
  unfolding claimed
  claim-ok w h id a s p = elim (Option-cases (next_pending id s.db.steps)) [
    | inl n ↦
        (let c : err (sentinel not_found) ≡ ok a = rw (claim_next_step-none w h id s n) at p in
          ground (arith, c))
    | inr (st, n) ↦
        let whole = claim_next_step-some w h id st s n in
        let same =
          ok-injective a (claimed (w.time (suc (suc s.calls))) st) (sym p ∙ ap (λ r. r.0) whole) in
        (st, n, ap (λ y. y.id) same, ap (λ r. r.1.db.steps) whole)
  ]

  -- Where every call goes through, a claim that follows another one, for the same run or for any other,
  -- by the same worker or by another, never answers with the same step.
  pub claims_differ :
      (w w' : World) (id id' : Uuid) (a b : Step) (s : Platform X)
      → IsHealthy w
      → IsHealthy w'
      → let first = claim_next_step w id s in
        first.0 ≡ ok a → (claim_next_step w' id' first.1).0 ≡ ok b → (b.id == a.id) ≡ false
  claims_differ w w' id id' a b s h h' p q =
      let s' = (claim_next_step w id s).1 in
      let (st, n, same, steps) = claim-ok w h id a s p in
      let (other, m, same', _) = claim-ok w' h' id' b s' q in
      let d =
        next_pending-claimed id' (w.time (suc (suc s.calls))) st other s.db.steps
          (ap (next_pending id') (sym steps) ∙ m) in
      rw (same', same) d
