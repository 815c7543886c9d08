-- ===== src/Exec/Ensures.antt =====
-- What holds of the result of an action that returns, by the shape of the action.
use talos_app.Prelude.{◌≡◌, refl, ◌⊎◌, inl, inr, String, arith, Bool, true, false, if◌then◌else◌}
use talos_app.Shared.{Error}
use talos_app.Exec.{Exec, Result, ok, err, continue, ◌>>=◌, pure, raise, wrapped, wrap_result}

-- From a state with `I`, where `m` returns a value it has `P`, and the state has `I` again.
pub record Ensures {S A : Type 0} (I : S → Type 0) (P : A → Type 0) (m : Exec S A) : Type 0 where
  pub at : (s : S) → I s → (a : A) → (m s).0 ≡ ok a → P a × I (m s).1

pub ok-injective : {A : Type 0} (a b : A) → ok a ≡ ok b → a ≡ b
ok-injective a b h = ground arith

pub Result-cases :
    {A : Type 0} (r : Result A) → ((a : A) × (r ≡ ok a)) ⊎ ((x : Error) × (r ≡ err x))
Result-cases (ok a) = inl (a, refl)
Result-cases (err x) = inr (x, refl)

module _ {S : Type 0} {I : S → Type 0} where
  pub Ensures-pure : {A : Type 0} {P : A → Type 0} (a : A) → P a → Ensures I P (pure a)
  unfolding ◌>>=◌
  Ensures-pure {P} a p = record { at = λ s i b h. (rw (← ok-injective a b h) p, i) }

  pub Ensures-raise : {A : Type 0} {P : A → Type 0} (e : Error) → Ensures I P (raise e)
  unfolding ◌>>=◌
  Ensures-raise e = record { at = λ s i a h. ground (arith, h) }

  Ensures-continue :
      {A B : Type 0} {P : A → Type 0} {Q : B → Type 0} (r : Result A) (f : A → Exec S B) (s : S)
      → ((a : A) → r ≡ ok a → P a × I s)
      → ((a : A) → P a → Ensures I Q (f a))
      → (b : B) → (continue r f s).0 ≡ ok b
      → Q b × I (continue r f s).1
  Ensures-continue (ok a) f s p k b h = let (pa, i) = p a refl in (k a pa).at s i b h
  Ensures-continue (err e) f s p k b h = ground (arith, h)

  pub Ensures-bind :
      {A B : Type 0} {P : A → Type 0} {Q : B → Type 0} (m : Exec S A) (f : A → Exec S B)
      → Ensures I P m
      → ((a : A) → P a → Ensures I Q (f a))
      → Ensures I Q (m >>= f)
  unfolding ◌>>=◌
  Ensures-bind m f km kf = record {
    at = λ s i b h. Ensures-continue (m s).0 f (m s).1 (km.at s i) kf b h;
  }

  pub Ensures-wrapped :
      {A : Type 0} {P : A → Type 0} (l : String) (m : Exec S A)
      → Ensures I P m
      → Ensures I P (wrapped l m)
  unfolding ◌>>=◌
  Ensures-wrapped l m k = record { at = λ s i a h. k.at s i a (unwrap l (m s).0 a h) }
    where
      unwrap : {A : Type 0} (l : String) (r : Result A) (a : A) → wrap_result l r ≡ ok a → r ≡ ok a
      unwrap l (ok b) a h = h
      unwrap l (err e) a h = ground (arith, h)

  pub Ensures-if :
      {A : Type 0} {P : A → Type 0} (b : Bool) (m n : Exec S A)
      → Ensures I P m
      → Ensures I P n
      → Ensures I P (if b then m else n)
  Ensures-if true m n km kn = km
  Ensures-if false m n km kn = kn
