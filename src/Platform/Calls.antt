-- ===== src/Platform/Calls.antt =====
-- What a question to the environment moves: nothing but the count of the questions.
use talos_app.Prelude.{◌≡◌, ◌∙◌, Option-cases, inl, inr}
use talos_app.Exec.{Exec}
use talos_app.Exec.Frame.{IsFixed}
use talos_app.Platform.{Platform, World, call, clock, new_id, tick}

module _ {X V : Type 0} (view : Platform X → V)
    (untimed : (s : Platform X) → view (tick s) ≡ view s) where
  pub call-IsFixed :
      {A : Type 0} (w : World) (m : Exec (Platform X) A) → IsFixed view m → IsFixed view (call w m)
  unfolding call
  call-IsFixed w m k = record {
    fixed = λ s. elim (Option-cases (w.fault s.calls)) [
      | inl n ↦ rw n (k.fixed (tick s) ∙ untimed s)
      | inr (message, n) ↦ rw n (untimed s)
    ];
  }

  pub clock-IsFixed : (w : World) → IsFixed view (clock w)
  clock-IsFixed w = record { fixed = untimed }

  pub new_id-IsFixed : (w : World) → IsFixed view (new_id w)
  new_id-IsFixed w = record { fixed = untimed }
