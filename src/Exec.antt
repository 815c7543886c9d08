-- ===== src/Exec.antt =====
-- Go functions over a shared state that may return an error: the state comes back beside the error,
-- since what was written before an early return stays written.
pub mod Frame
pub mod Triple
pub mod Ensures
use talos_app.Prelude.{Bool, true, false, String}
use talos_app.Shared.{Error, wrap}

pub data Result (A : Type 0) : Type 0 where
  ok : A → Result A
  err : Error → Result A

abbrev pub Exec : Type 0 → Type 0 → Type 0
Exec S A = S → Result A × S

abbrev pub continue : {S A B : Type 0} → Result A → (A → Exec S B) → Exec S B
continue (ok a) f s = f a s
continue (err e) f s = (err e, s)

unfoldable pub pure : {S A : Type 0} → A → Exec S A
pure a s = (ok a, s)

unfoldable pub raise : {S A : Type 0} → Error → Exec S A
raise e s = (err e, s)

unfoldable pub gets : {S A : Type 0} → (S → A) → Exec S A
gets f s = (ok (f s), s)

unfoldable pub lift : {S A : Type 0} → Result A → Exec S A
lift r s = (r, s)

-- The error of a call as a value, for the code that inspects it.
unfoldable pub attempt : {S A : Type 0} → Exec S A → Exec S (Result A)
attempt m s = (ok (m s).0, (m s).1)

abbrev pub wrap_result : {A : Type 0} → String → Result A → Result A
wrap_result l (ok a) = ok a
wrap_result l (err e) = err (wrap l e)

-- `if err != nil { return fmt.Errorf("l: %w", err) }`
unfoldable pub wrapped : {S A : Type 0} → String → Exec S A → Exec S A
wrapped l m s = (wrap_result l (m s).0, (m s).1)

unfoldable pub when : {S : Type 0} → Bool → Exec S (Unit {0}) → Exec S (Unit {0})
when true m = m
when false m = pure tt

infixl 10 ◌>>=◌ ◌>>◌
-- Opening this opens the other actions too.
unfoldable pub ◌>>=◌ : {S A B : Type 0} → Exec S A → (A → Exec S B) → Exec S B
unfolding pure raise gets lift attempt wrapped when
◌>>=◌ m f s = continue (m s).0 f (m s).1

abbrev pub ◌>>◌ : {S A B : Type 0} → Exec S A → Exec S B → Exec S B
m >> k = m >>= λ _. k
