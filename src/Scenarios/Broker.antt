-- ===== src/Scenarios/Broker.antt =====
-- Two subscriptions to one topic, of which one ends.
use talos_app.Prelude.{ℕ, ◌+◌, ◌≡◌, refl, some, [], ◌∷◌}
use talos_app.Exec.{ok}
use talos_app.InprocessBroker.{
  Handler, Broker, handlers_of, publish, subscribe, unsubscribe, panicked,
}
use talos_app.InprocessBroker.Delivery.{AllReturn, unsubscribe-panics}

-- A handler that counts its messages.
abbrev counting : Handler ℕ
counting payload n = (ok tt, n + 1)

abbrev one_subscriber : Broker ℕ
one_subscriber = ("workflow.dispatch", some counting ∷ []) ∷ []

others_return : AllReturn "message" (handlers_of "workflow.dispatch" one_subscriber)
unfolding handlers_of
others_return = ((λ s. refl), tt)

unsubscribe-panics_example :
    let (n, b) = subscribe "workflow.dispatch" counting one_subscriber in
    (publish (unsubscribe "workflow.dispatch" n b) "workflow.dispatch" "message" 0).0 ≡ panicked
unsubscribe-panics_example =
    unsubscribe-panics one_subscriber "workflow.dispatch" "message" counting 0 others_return
