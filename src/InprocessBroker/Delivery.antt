-- ===== src/InprocessBroker/Delivery.antt =====
-- What a message after an `unsubscribe` meets in internal/infrastructure/inprocess/broker.go.
use talos_app.Prelude.{
  ◌≡◌, refl, String, Bool-cases, inl, inr, none, some, Option, List, [], ◌∷◌, ◌++◌, length, str_eq,
  str_eq-refl,
}
use talos_app.Exec.{ok}
use talos_app.InprocessBroker.{
  Handler, Broker, handlers_of, set_handlers, deliver_all, publish, subscribe, clear, unsubscribe,
  panicked,
}

module _ {S : Type 0} where
  handlers_of-set_handlers :
      (topic : String) (hs : List (Option (Handler S))) (b : Broker S)
      → handlers_of topic (set_handlers topic hs b) ≡ hs
  unfolding handlers_of set_handlers
  handlers_of-set_handlers topic hs [] = rw (str_eq-refl topic) refl
  handlers_of-set_handlers topic hs ((t, old) ∷ rest) = elim (Bool-cases (str_eq t topic)) [
    | inl e ↦ rw (e, str_eq-refl topic) refl
    | inr e ↦ rw (e, e) (handlers_of-set_handlers topic hs rest)
  ]

  clear-last :
      (hs : List (Option (Handler S))) (h : Handler S)
      → clear (length hs) (hs ++ some h ∷ []) ≡ hs ++ none ∷ []
  unfolding clear
  clear-last [] h = refl
  clear-last (x ∷ hs) h = rw (clear-last hs h) refl

  -- All of the handlers return.
  abbrev pub AllReturn : String → List (Option (Handler S)) → Type 0
  AllReturn payload [] = Unit
  AllReturn payload (none ∷ hs) = ⊥
  AllReturn payload (some h ∷ hs) = ((s : S) → (h payload s).0 ≡ ok tt) × AllReturn payload hs

  deliver_all-cleared :
      (payload : String) (hs : List (Option (Handler S))) (s : S)
      → AllReturn payload hs
      → (deliver_all payload (hs ++ none ∷ []) s).0 ≡ panicked
  unfolding deliver_all
  deliver_all-cleared payload [] s a = refl
  deliver_all-cleared payload (none ∷ hs) s a = elim a [ ]
  deliver_all-cleared payload (some h ∷ hs) s a =
      rw (a.0 s) (deliver_all-cleared payload hs (h payload s).1 a.1)

  -- A handler subscribes to a topic whose other handlers all return, and unsubscribes: the next message
  -- on the topic panics, whatever the handler and the state.
  pub unsubscribe-panics :
      (b : Broker S) (topic payload : String) (h : Handler S) (s : S)
      → AllReturn payload (handlers_of topic b)
      → let (n, b') = subscribe topic h b in
        (publish (unsubscribe topic n b') topic payload s).0 ≡ panicked
  unfolding publish subscribe unsubscribe
  unsubscribe-panics b topic payload h s a =
      let hs = handlers_of topic b in
      let added = handlers_of-set_handlers topic (hs ++ some h ∷ []) b in
      rw (handlers_of-set_handlers topic _ _)
        (rw (added) (rw (clear-last hs h) (deliver_all-cleared payload hs s a)))
