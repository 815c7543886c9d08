-- ===== src/InprocessBroker.antt =====
-- internal/infrastructure/inprocess/broker.go: the broker of a single process. A handler is any action
-- on a state; calling a nil handler panics, which ends the call with no result.
pub mod Delivery
use talos_app.Prelude.{
  ℕ, zero, suc, String, Bool, true, false, Option, none, some, List, [], ◌∷◌, ◌++◌, length, str_eq,
  if◌then◌else◌,
}
use talos_app.Shared.{Error}
use talos_app.Exec.{Exec, Result, ok, err}

-- How a call of `Publish` ends.
pub data Ending : Type 0 where
  returned : Ending
  failed : Error → Ending
  panicked : Ending

abbrev pub Handler : Type 0 → Type 0
Handler S = String → Exec S (Unit {0})

-- `handlers[topic]`: the subscriptions in their order, nil where one has ended.
abbrev pub Broker : Type 0 → Type 0
Broker S = List (String × List (Option (Handler S)))

module _ {S : Type 0} where
  unfoldable pub handlers_of : String → Broker S → List (Option (Handler S))
  handlers_of topic [] = []
  handlers_of topic ((t, hs) ∷ rest) =
      let others = handlers_of topic rest in if str_eq t topic then hs else others

  unfoldable pub set_handlers : String → List (Option (Handler S)) → Broker S → Broker S
  set_handlers topic hs [] = (topic, hs) ∷ []
  set_handlers topic hs ((t, old) ∷ rest) =
      let others = set_handlers topic hs rest in
      if str_eq t topic then (topic, hs) ∷ rest else (t, old) ∷ others

  -- The loop of `Publish` over its copy of the handlers.
  unfoldable pub deliver_all : String → List (Option (Handler S)) → S → Ending × S
  deliver_all payload [] s = (returned, s)
  deliver_all payload (none ∷ rest) s = (panicked, s)
  deliver_all payload (some h ∷ rest) s =
      let r = h payload s in
      elim r.0 [ ok _ ↦ deliver_all payload rest r.1 | err x ↦ (failed x, r.1) ]

  unfoldable pub publish : Broker S → String → String → S → Ending × S
  unfolding handlers_of deliver_all
  publish b topic payload s = deliver_all payload (handlers_of topic b) s

  -- `Subscribe`, with the index that its `unsubscribe` keeps.
  unfoldable pub subscribe : String → Handler S → Broker S → ℕ × Broker S
  unfolding handlers_of set_handlers
  subscribe topic h b =
      let hs = handlers_of topic b in (length hs, set_handlers topic (hs ++ some h ∷ []) b)

  -- `hs[idx] = nil` where `idx < len(hs)`
  unfoldable pub clear : ℕ → List (Option (Handler S)) → List (Option (Handler S))
  clear n [] = []
  clear zero (h ∷ hs) = none ∷ hs
  clear (suc n) (h ∷ hs) = h ∷ clear n hs

  unfoldable pub unsubscribe : String → ℕ → Broker S → Broker S
  unfolding handlers_of set_handlers clear
  unsubscribe topic n b = set_handlers topic (clear n (handlers_of topic b)) b
