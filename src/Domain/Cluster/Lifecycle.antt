-- ===== src/Domain/Cluster/Lifecycle.antt =====
-- What the transition table of internal/domain/cluster/cluster.go allows over a whole life.
use talos_app.Prelude.{
  ℕ, zero, suc, ◌≤◌, ◌≡◌, refl, sym, subst, true, List, [], ◌∷◌, arith, ◌⊎◌, inl, inr,
}
use talos_app.Domain.Cluster.{
  State, draft, planning, validating, provisioning, bootstrapping, installing, configuring, ready,
  degraded, upgrading, can_transition,
}

-- A list of states that `CanTransition` accepts one after the other, and where it ends.
pub data Walk : State → List State → State → Type 0 where
  stop : {s : State} → Walk s [] s
  move :
      {s t u : State} {rest : List State}
      → can_transition s t ≡ true
      → Walk t rest u
      → Walk s (t ∷ rest) u

-- One list is within another, in order.
pub data Within : List State → List State → Type 0 where
  done : {ys : List State} → Within [] ys
  skip : {xs ys : List State} {y : State} → Within xs ys → Within xs (y ∷ ys)
  here : {xs ys : List State} {x : State} → Within xs ys → Within (x ∷ xs) (x ∷ ys)

abbrev drop : ℕ → List State → List State
drop zero xs = xs
drop (suc n) [] = []
drop (suc n) (x ∷ xs) = drop n xs

-- The stages of the pipeline, in the order of the documentation.
abbrev pub pipeline : List State
pipeline =
    planning ∷ validating ∷ provisioning ∷ bootstrapping ∷ installing ∷ configuring ∷ ready ∷ []

-- How many stages of the pipeline a state has behind it.
abbrev rank : State → ℕ
rank planning = 1
rank validating = 2
rank provisioning = 3
rank bootstrapping = 4
rank installing = 5
rank configuring = 6
rank ready = 7
rank degraded = 6
rank upgrading = 6
rank _ = 0

abbrev stages_left : State → List State
stages_left s = drop (rank s) pipeline

self : (xs : List State) → Within xs xs
self [] = done
self (x ∷ xs) = here (self xs)

tail : {x : State} {xs ys : List State} → Within (x ∷ xs) ys → Within xs ys
tail (skip w) = skip (tail w)
tail (here w) = skip w

drop-Within : (n : ℕ) (xs : List State) {ys : List State} → Within xs ys → Within (drop n xs) ys
drop-Within zero xs w = w
drop-Within (suc n) [] w = w
drop-Within (suc n) (x ∷ xs) w = drop-Within n xs (tail w)

further :
    (m n : ℕ) (xs : List State) {ys : List State}
    → n ≤ m
    → Within (drop n xs) ys
    → Within (drop m xs) ys
further zero zero xs h w = w
further zero (suc n) xs h w = ground arith
further (suc m) zero xs h w = drop-Within (suc m) xs w
further (suc m) (suc n) [] h w = w
further (suc m) (suc n) (x ∷ xs) h w = further m n xs (omega arith) w

-- A transition is the next stage, or goes back.
next_or_back :
    (s t : State)
    → can_transition s t ≡ true
    → (stages_left s ≡ t ∷ stages_left t) ⊎ (rank t ≤ rank s)
unfolding can_transition
next_or_back s t h = ground arith

Walk-stages_left :
    {s t : State} {rest : List State} → Walk s rest t → t ≡ ready → Within (stages_left s) rest
Walk-stages_left {s} stop e = subst (λ k. Within (stages_left k) []) (sym e) done
Walk-stages_left {s} (move {t} {rest} h p) e = elim (next_or_back s t h) [
  | inl q ↦ subst (λ l. Within l (t ∷ rest)) (sym q) (here (Walk-stages_left p e))
  | inr q ↦ skip (further (rank s) (rank t) pipeline q (Walk-stages_left p e))
]

-- A cluster that started as DRAFT and is READY went through every stage of the pipeline, in order,
-- however often it failed and was planned again in between.
pub ready_needs_pipeline : (rest : List State) → Walk draft rest ready → Within pipeline rest
ready_needs_pipeline rest p = Walk-stages_left p refl
