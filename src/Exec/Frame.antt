-- ===== src/Exec/Frame.antt =====
-- The parts of the state that an action never moves, whether it returns or fails; and those that it
-- moves only where it returns.
use talos_app.Prelude.{◌≡◌, refl, ◌∙◌, Bool, true, false, if◌then◌else◌, String}
use talos_app.Shared.{Error}
use talos_app.Exec.{Exec, Result, ok, err, continue, ◌>>=◌, pure, raise, attempt, wrapped}

module _ {S V : Type 0} (view : S → V) where
  -- The view of the state is the same afterwards.
  pub record IsFixed {A : Type 0} (m : Exec S A) : Type 0 where
    pub fixed : (s : S) → view (m s).1 ≡ view s

  -- The same, where the action fails.
  pub record IsFailsafe {A : Type 0} (m : Exec S A) : Type 0 where
    pub undone : (s : S) (x : Error) → (m s).0 ≡ err x → view (m s).1 ≡ view s

  pub IsFixed-IsFailsafe : {A : Type 0} (m : Exec S A) → IsFixed m → IsFailsafe m
  IsFixed-IsFailsafe m k = record { undone = λ s x q. k.fixed s }

  -- An action that leaves the whole state alone.
  pub still_IsFixed : {A : Type 0} (m : Exec S A) → ((s : S) → (m s).1 ≡ s) → IsFixed m
  still_IsFixed m h = record { fixed = λ s. rw (h s) }

  IsFixed-continue :
      {A B : Type 0} (r : Result A) (k : A → Exec S B) (s : S)
      → ((a : A) → IsFixed (k a))
      → view (continue r k s).1 ≡ view s
  IsFixed-continue (ok a) k s h = (h a).fixed s
  IsFixed-continue (err x) k s h = refl

  IsFailsafe-continue :
      {A B : Type 0} (r : Result A) (k : A → Exec S B) (s : S) (x : Error)
      → ((a : A) → IsFailsafe (k a))
      → (continue r k s).0 ≡ err x
      → view (continue r k s).1 ≡ view s
  IsFailsafe-continue (ok a) k s x h q = (h a).undone s x q
  IsFailsafe-continue (err y) k s x h q = refl

  pub then-IsFixed :
      {A B : Type 0} (m : Exec S A) (k : A → Exec S B)
      → IsFixed m
      → ((a : A) → IsFixed (k a))
      → IsFixed (m >>= k)
  unfolding ◌>>=◌
  then-IsFixed m k hm hk = record {
    fixed = λ s. IsFixed-continue (m s).0 k (m s).1 hk ∙ hm.fixed s;
  }

  pub then-IsFailsafe :
      {A B : Type 0} (m : Exec S A) (k : A → Exec S B)
      → IsFixed m
      → ((a : A) → IsFailsafe (k a))
      → IsFailsafe (m >>= k)
  unfolding ◌>>=◌
  then-IsFailsafe m k hm hk = record {
    undone = λ s x q. IsFailsafe-continue (m s).0 k (m s).1 x hk q ∙ hm.fixed s;
  }

  pub attempt-IsFixed : {A : Type 0} (m : Exec S A) → IsFixed m → IsFixed (attempt m)
  unfolding ◌>>=◌
  attempt-IsFixed m h = record { fixed = h.fixed }

  pub wrapped-IsFixed : {A : Type 0} (l : String) (m : Exec S A) → IsFixed m → IsFixed (wrapped l m)
  unfolding ◌>>=◌
  wrapped-IsFixed l m h = record { fixed = h.fixed }

  pub pure-IsFixed : {A : Type 0} (a : A) → IsFixed (pure {S = S} a)
  unfolding ◌>>=◌
  pure-IsFixed a = still_IsFixed _ (λ s. refl)

  pub raise-IsFixed : {A : Type 0} (x : Error) → IsFixed (raise {S = S} {A = A} x)
  unfolding ◌>>=◌
  raise-IsFixed x = still_IsFixed _ (λ s. refl)

  pub if-IsFixed :
      {A : Type 0} (b : Bool) (m n : Exec S A)
      → IsFixed m
      → IsFixed n
      → IsFixed (if b then m else n)
  if-IsFixed true m n hm hn = hm
  if-IsFixed false m n hm hn = hn
