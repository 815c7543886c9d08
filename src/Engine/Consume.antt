-- ===== src/Engine/Consume.antt =====
-- The consumer of the dispatch topic: `handleDispatch` of internal/workflows/engine.go under the
-- subscription of internal/infrastructure/rabbitmq/broker.go, which requeues a message whose handler
-- returns an error.
use talos_app.Prelude.{ℕ, zero, suc, List, [], ◌∷◌, ◌≡◌, refl, arith}
use talos_app.Shared.{Uuid}
use talos_app.Exec.{Result, ok, err}
use talos_app.Platform.{Platform, World}
use talos_app.Engine.{Engine}
use talos_app.Engine.Execute.{execute_next}

module _ {X : Type 0} where
  abbrev pub settled : {A : Type 0} → Uuid → Result A × Platform X → Platform X
  settled id (ok _, s) = s
  settled id (err _, s) = record s { dispatches = id ∷ s.dispatches }

  pub settled-ok :
      {A : Type 0} (id : Uuid) (r : Result A × Platform X) {a : A} → r.0 ≡ ok a → settled id r ≡ r.1
  settled-ok id (ok b, s) h = refl
  settled-ok id (err x, s) h = ground arith

module _ {X : Type 0} (w : World) (e : Engine X) where
  -- One message: acknowledged when the handler returns, put back at the head when it fails.
  unfoldable pub deliver : List Uuid → Platform X → Platform X
  deliver [] s = s
  deliver (id ∷ rest) s = settled id (execute_next w e id (record s { dispatches = rest }))

  -- The loop of the consumer over so many messages; it idles on an empty topic.
  unfoldable pub consume : ℕ → Platform X → Platform X
  consume zero s = s
  consume (suc n) s = consume n (deliver s.dispatches s)
