-- ===== src/MachineService/Settles.antt =====
-- How an operation of internal/application/machineservice/service.go ends, where every call of the
-- database goes through.
use talos_app.Prelude.{
  some-injective, ◌≡◌, refl, sym, ap, ◌∙◌, Bool, true, false, Option, none, some, List, [], ◌∷◌,
  ◌++◌, ◌==◌, ==_self, find, String, suc, arith, Bool-cases, inl, inr, str_eq-refl,
}
use mathlib.Core.Option
use talos_app.Shared.{Uuid, is, touch, no_timestamps, Text}
use talos_app.Exec.{Exec, Result, ok, ◌>>=◌}
use talos_app.Domain.Machine.{Machine}
use talos_app.Domain.Operation.{Operation, Kind, Status}
use talos_app.Platform.{Platform, World, IsHealthy, call}
use talos_app.Platform.Rows.{update_rows, affects}
use talos_app.Platform.Rows.Append.{find-append, affects-append}
use talos_app.MachineRepo.{
  machine_has_id, op_has_id, op_has_key, op_clashes, set_operation, get_machine,
  get_operation_by_key, create_operation, update_operation,
}
use talos_app.MachineService.{
  Service, started, new_operation, end_status, end_text, failure, ended, begin_new, begin_found,
  begin_operation, finish_operation, run_begun, run_operation,
}

module _ {A : Type 0} where
  -- The row that `q` finds, where the update that `p` selects reaches it and keeps what `q` reads.
  find-update_hit :
      (p q : A → Bool) (f : A → A) (xs : List A) (x : A)
      → ((y : A) → q (f y) ≡ q y)
      → find q xs ≡ some x
      → p x ≡ true
      → find q (update_rows p f xs) ≡ some (f x)
  unfolding find update_rows
  find-update_hit p q f [] x k n h = ground arith
  find-update_hit p q f (y ∷ ys) x k n h = elim (Bool-cases (q y)) [
    | inl b ↦
        let e = some-injective y x (rw b at n) in
        let b' : q x ≡ true = ap q (sym e) ∙ b in rw (e, h) (rw (k x ∙ b'))
    | inr b ↦ elim (Bool-cases (p y)) [
      | inl c ↦ rw (c, k y ∙ b) (find-update_hit p q f ys x k (rw b at n) h)
      | inr c ↦ rw (c, b) (find-update_hit p q f ys x k (rw b at n) h)
    ]
  ]

-- The status and the result of the operation that is stored for a key.
abbrev pub ending_of : {X : Type 0} → String → Platform X → Option (Status × Text)
ending_of key s = Option.map (λ o. (o.status, o.result)) (find (op_has_key key) s.db.operations)

module _ {X : Type 0} (w : World) (svc : Service X) (h : IsHealthy w)
    (work : Machine → Exec (Platform X) (Unit {0})) (kind : Kind) (machine by : Uuid) (key : String)
    (m : Machine) (s : Platform X) where
  -- The operation as it is first stored, and the platform on which the work is done.
  abbrev pub recorded : Operation
  recorded =
      record (new_operation (w.fresh (suc (suc (suc s.calls)))) key kind m machine by
        (w.time (suc (suc s.calls)))) {
          timestamps = touch (w.time (suc (suc (suc (suc s.calls))))) no_timestamps;
        }

  abbrev pub at_work : Platform X
  at_work = record s {
    db = record s.db { operations = s.db.operations ++ recorded ∷ [] };
    calls = suc (suc (suc (suc (suc (suc s.calls)))));
  }

  begin-healthy :
      find (machine_has_id machine) s.db.machines ≡ some m
      → find (op_has_key key) s.db.operations ≡ none
      → (w.fresh (suc (suc (suc s.calls))) == 0) ≡ false
      → op_clashes recorded s.db.operations ≡ false
      → begin_operation w svc kind machine by key s ≡ (ok (started recorded m), at_work)
  unfolding begin_operation begin_found begin_new get_machine get_operation_by_key create_operation
      new_operation is call ◌>>=◌
  begin-healthy f n z c =
      let k = suc (suc (suc (suc (suc s.calls)))) in
      rw (h s.calls, n, h (suc s.calls), f, z, h k, c) refl

  finish-healthy :
      (t : Platform X) (r : Result (Unit {0}))
      → affects (op_has_id recorded.id) t.db.operations ≡ true
      → let o = record (ended (w.time t.calls) r recorded) {
        timestamps = touch (w.time (suc t.calls)) recorded.timestamps;
      } in
        finish_operation w svc recorded r t ≡ (
          ok (o, failure r),
          record t {
            db = record t.db {
              operations = update_rows (op_has_id recorded.id) (set_operation o) t.db.operations;
            };
            calls = suc (suc (suc t.calls));
          },
        )
  unfolding finish_operation update_operation ended call ◌>>=◌
  finish-healthy t r a = rw (h (suc (suc t.calls)), a) refl

  -- Every call of the database goes through; the machine exists; no operation has the idempotency key
  -- or the identifier that is made for the new one, which is not the zero one; and the work, begun
  -- where the operation is stored, leaves the table of operations alone. Then the work is done once;
  -- the operation that is stored is SUCCEEDED with the result "ok", or FAILED with the error's text, as
  -- the work returned; the answer carries the work's error; and every other table, the systems outside
  -- and the messages are as the work left them.
  pub run_operation-settles :
      find (machine_has_id machine) s.db.machines ≡ some m
      → find (op_has_key key) s.db.operations ≡ none
      → (w.fresh (suc (suc (suc s.calls))) == 0) ≡ false
      → op_clashes recorded s.db.operations ≡ false
      → (work m at_work).1.db.operations ≡ at_work.db.operations
      → let r = (work m at_work).0 in
        let t = (work m at_work).1 in
        let s' = (run_operation w svc work kind machine by key s).1 in
        (op : Operation) × ((run_operation w svc work kind machine by key s).0 ≡ ok (op, failure r))
        × (op.status ≡ end_status r)
        × (ending_of key s' ≡ some (end_status r, end_text r))
        × (s'.db ≡ record t.db { operations = s'.db.operations })
        × (s'.outside ≡ t.outside)
        × (s'.dispatches ≡ t.dispatches)
  unfolding run_operation run_begun set_operation ended new_operation ◌>>=◌
  run_operation-settles f n z c apart =
      let t = (work m at_work).1 in
      let r = (work m at_work).0 in
      let a =
        ap (affects (op_has_id recorded.id)) apart
        ∙ affects-append (op_has_id recorded.id) s.db.operations recorded (==_self recorded.id) in
      let o = record (ended (w.time t.calls) r recorded) {
        timestamps = touch (w.time (suc t.calls)) recorded.timestamps;
      } in
      let row =
        find-update_hit (op_has_id recorded.id) (op_has_key key) (set_operation o) t.db.operations
          recorded (λ y. refl)
          (ap (find (op_has_key key)) apart
            ∙ find-append (op_has_key key) s.db.operations recorded n (str_eq-refl key))
          (==_self recorded.id) in
      rw (begin-healthy f n z c) (
        rw (finish-healthy t r a)
          (o, refl, refl, ap (Option.map (λ y. (y.status, y.result))) row, refl, refl, refl))
