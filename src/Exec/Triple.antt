-- ===== src/Exec/Triple.antt =====
-- What an action leads to from a state with `P`: its result and state where it returns, and its state
-- where it fails.
use talos_app.Prelude.{sym, subst, String, Bool, true, false, if◌then◌else◌}
use talos_app.Shared.{Error}
use talos_app.Exec.{
  Exec, Result, ok, err, continue, ◌>>=◌, pure, raise, attempt, wrapped, wrap_result,
}
use talos_app.Exec.Frame.{IsFixed}

abbrev pub After : {S A : Type 0} → (A → S → Type 0) → (S → Type 0) → Result A → S → Type 0
After done failed (ok a) s = done a s
After done failed (err x) s = failed s

pub record Triple {S A : Type 0} (before : S → Type 0) (done : A → S → Type 0) (failed : S → Type 0)
    (m : Exec S A) : Type 0 where
  pub leads : (s : S) → before s → After done failed (m s).0 (m s).1

module _ {S : Type 0} (failed : S → Type 0) where
  Triple-continue :
      {A B : Type 0} {done : A → S → Type 0} {goal : B → S → Type 0} (r : Result A)
      (k : A → Exec S B) (s : S)
      → After done failed r s
      → ((a : A) → Triple (done a) goal failed (k a))
      → After goal failed (continue r k s).0 (continue r k s).1
  Triple-continue (ok a) k s h hk = (hk a).leads s h
  Triple-continue (err x) k s h hk = h

  wrapped_After :
      {A : Type 0} (done : A → S → Type 0) (l : String) (r : Result A) (s : S)
      → After done failed r s
      → After done failed (wrap_result l r) s
  wrapped_After done l (ok a) s h = h
  wrapped_After done l (err x) s h = h

module _ {S : Type 0} {before failed : S → Type 0} where
  pub then-Triple :
      {A B : Type 0} {done : A → S → Type 0} {goal : B → S → Type 0} (m : Exec S A)
      (k : A → Exec S B)
      → Triple before done failed m
      → ((a : A) → Triple (done a) goal failed (k a))
      → Triple before goal failed (m >>= k)
  unfolding ◌>>=◌
  then-Triple m k hm hk = record {
    leads = λ s h. Triple-continue failed (m s).0 k (m s).1 (hm.leads s h) hk;
  }

  pub wrapped-Triple :
      {A : Type 0} {done : A → S → Type 0} (l : String) (m : Exec S A)
      → Triple before done failed m
      → Triple before done failed (wrapped l m)
  unfolding ◌>>=◌
  wrapped-Triple {done} l m h = record {
    leads = λ s p. wrapped_After failed done l (m s).0 (m s).1 (h.leads s p);
  }

  pub pure-Triple :
      {A : Type 0} {done : A → S → Type 0} (a : A)
      → ((s : S) → before s → done a s)
      → Triple before done failed (pure a)
  unfolding ◌>>=◌
  pure-Triple a h = record { leads = h }

  pub raise-Triple :
      {A : Type 0} {done : A → S → Type 0} (x : Error)
      → ((s : S) → before s → failed s)
      → Triple before done failed (raise x)
  unfolding ◌>>=◌
  raise-Triple x h = record { leads = h }

  -- A fact that the state does not decide.
  pub given-Triple :
      {A P : Type 0} {done : A → S → Type 0} (m : Exec S A)
      → (P → Triple before done failed m)
      → Triple (λ s. P × before s) done failed m
  given-Triple m k = record { leads = λ s h. (k h.0).leads s h.1 }

  -- What holds after the action may be weakened.
  pub weaken-Triple :
      {A : Type 0} {done goal : A → S → Type 0} (m : Exec S A)
      → Triple before done failed m
      → ((a : A) (s : S) → done a s → goal a s)
      → Triple before goal failed m
  weaken-Triple {done} {goal} m k h = record { leads = λ s p. after (m s).0 (m s).1 (k.leads s p) }
    where
      after : (r : Result _) (s : S) → After done failed r s → After goal failed r s
      after (ok a) s p = h a s p
      after (err x) s p = p

  pub attempt-Triple :
      {A : Type 0} {done : A → S → Type 0} (m : Exec S A)
      → Triple before done failed m
      → Triple before (λ r s. After done failed r s) failed (attempt m)
  unfolding ◌>>=◌
  attempt-Triple m k = record { leads = k.leads }

  pub if-Triple :
      {A : Type 0} {done : A → S → Type 0} (b : Bool) (m n : Exec S A)
      → Triple before done failed m
      → Triple before done failed n
      → Triple before done failed (if b then m else n)
  if-Triple true m n hm hn = hm
  if-Triple false m n hm hn = hn

module _ {S : Type 0} where
  After-held :
      {A : Type 0} (held : S → Type 0) (r : Result A) (s : S) → held s → After (λ a. held) held r s
  After-held held (ok a) s h = h
  After-held held (err x) s h = h

  -- An action that never moves a part of the state keeps what only that part decides.
  pub fixed-Triple :
      {A V : Type 0} (view : S → V) (Held : V → Type 0) (m : Exec S A)
      → IsFixed view m
      → Triple (λ s. Held (view s)) (λ a s. Held (view s)) (λ s. Held (view s)) m
  fixed-Triple view Held m k = record {
    leads = λ s h. After-held (λ y. Held (view y)) (m s).0 (m s).1 (subst Held (sym (k.fixed s)) h);
  }
