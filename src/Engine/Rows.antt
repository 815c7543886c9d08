-- ===== src/Engine/Rows.antt =====
-- Rows of runs and steps of internal/workflows/engine.go after the updates of one message.
use talos_app.Prelude.{
  ℕ, zero, suc, ◌<◌, ◌≡◌, refl, subst, Bool, true, false, some, List, [], ◌∷◌, arith, find, length,
  get_elem?, if◌then◌else◌,
}
use mathlib.Core.Option
use talos_app.Shared.{Uuid, Time}
use talos_app.Domain.Workflow.{Workflow, Step}
use talos_app.Platform.Rows.{update_rows, affects}
use talos_app.Platform.Rows.Lookup.{affects-update_rows, find-update_rows}
use talos_app.WorkflowRepo.{has_id, step_has_id, set_workflow, set_claim}
use talos_app.Engine.{is_terminal}
use talos_app.Engine.Execute.Claim.{begun}

pub get_elem?-some {ℓ} :
    {A : Type ℓ} (xs : List A) (i : ℕ) → i < length xs → (x : A) × (get_elem? xs i ≡ some x)
get_elem?-some [] i h = elim h [ ]
get_elem?-some (x ∷ xs) zero h = (x, refl)
get_elem?-some (x ∷ xs) (suc i) h = get_elem?-some xs i (omega arith)

find-if :
    {A : Type 0} (b : Bool) (p : A → Bool) (f : A → A) (xs : List A) (x : A)
    → ((y : A) → p (f y) ≡ p y)
    → find p xs ≡ some x
    → find p (if b then update_rows p f xs else xs) ≡ some (if b then f x else x)
find-if true p f xs x h e = find-update_rows p f xs x h e
find-if false p f xs x h e = e

pub affects-if :
    {A : Type 0} (b : Bool) (p : A → Bool) (f : A → A) (xs : List A)
    → ((y : A) → p (f y) ≡ p y)
    → affects p (if b then update_rows p f xs else xs) ≡ affects p xs
affects-if true p f xs h = affects-update_rows p p f xs h
affects-if false p f xs h = refl

pub has_id-set_workflow :
    (k : Uuid) (t : Time) (wf row : Workflow) → has_id k (set_workflow t wf row) ≡ has_id k row
unfolding set_workflow
has_id-set_workflow k t wf row = refl

pub step_has_id-set_claim :
    (k : Uuid) (t : Time) (st row : Step) → step_has_id k (set_claim t st row) ≡ step_has_id k row
unfolding set_claim
step_has_id-set_claim k t st row = refl

-- The row of a run after an update, and maybe one before it.
pub find_back :
    (k : Uuid) (t t0 : Time) (wf1 wf0 : Workflow) (b : Bool) (rows : List Workflow) (wf : Workflow)
    (rows' : List Workflow)
    → find (has_id k) rows ≡ some wf
    → rows'
      ≡ update_rows
          (has_id k)
          (set_workflow t wf1)
          (if b then update_rows (has_id k) (set_workflow t0 wf0) rows else rows)
    → find (has_id k) rows' ≡ some (set_workflow t wf1 (if b then set_workflow t0 wf0 wf else wf))
find_back k t t0 wf1 wf0 b rows wf rows' f e = rw e (
    find-update_rows (has_id k) (set_workflow t wf1) _ _ (has_id-set_workflow k t wf1)
      (find-if b (has_id k) (set_workflow t0 wf0) rows wf (has_id-set_workflow k t0 wf0) f))

pub status_back :
    (id k : Uuid) (t : Time) (wf row : Workflow) (rows : List Workflow)
    → k ≡ id
    → find (has_id k) rows ≡ some (set_workflow t wf row)
    → Option.map (λ y. y.status) (find (has_id id) rows) ≡ some wf.status
unfolding set_workflow
status_back id k t wf row rows e f =
    subst (λ i. Option.map (λ y. y.status) (find (has_id i) rows) ≡ some wf.status) e (rw f)

pub if-keeps :
    {A B : Type 0} (b : Bool) (f : A → A) (k : A → B) (x : A)
    → k (f x) ≡ k x
    → k (if b then f x else x) ≡ k x
if-keeps true f k x h = h
if-keeps false f k x h = refl

pub live-begun :
    (t : Time) (wf : Workflow)
    → is_terminal wf.status ≡ false
    → is_terminal (begun t wf).status ≡ false
unfolding is_terminal
live-begun t wf h = ground arith
