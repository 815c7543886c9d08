-- ===== src/MachineService/Repeats.antt =====
-- Repeated requests of internal/application/machineservice/service.go.
use talos_app.Prelude.{
  some-injective, ◌≡◌, refl, ap, false, none, some, ◌==◌, find, String, suc, arith, inl, inr,
  Option-cases,
}
use talos_app.Shared.{Uuid, Text}
use talos_app.Exec.{Exec, ok, ◌>>=◌}
use talos_app.Domain.Machine.{Machine}
use talos_app.Domain.Operation.{Operation, Kind, Status}
use talos_app.Platform.{Platform, World, IsHealthy, call, tick}
use talos_app.MachineRepo.{machine_has_id, op_has_key, op_clashes, get_operation_by_key}
use talos_app.MachineService.{
  Service, end_status, end_text, begin_found, begin_operation, run_begun, run_operation,
}
use talos_app.MachineService.Settles.{recorded, at_work, ending_of, run_operation-settles}

stored_row :
    {X : Type 0} (key : String) (s : Platform X) (e : Status × Text)
    → ending_of key s ≡ some e
    → (op : Operation) × (find (op_has_key key) s.db.operations ≡ some op)
      × ((op.status, op.result) ≡ e)
stored_row key s e q = elim (Option-cases (find (op_has_key key) s.db.operations)) [
  | inl n ↦ (let c : none ≡ some e = rw n at q in ground (arith, c))
  | inr (op, n) ↦ (op, n, some-injective _ e (rw n at q))
]

module _ {X : Type 0} (w : World) (svc : Service X) (h : IsHealthy w) where
  run_operation-repeated :
      (work : Machine → Exec (Platform X) (Unit {0})) (kind : Kind) (machine by : Uuid)
      (key : String) (s : Platform X) (op : Operation)
      → find (op_has_key key) s.db.operations ≡ some op
      → run_operation w svc work kind machine by key s ≡ (ok (op, none), tick s)
  unfolding run_operation run_begun begin_operation begin_found get_operation_by_key call ◌>>=◌
  run_operation-repeated work kind machine by key s op f = rw (h s.calls, f) refl

  -- Every call of the database goes through. A first request is made on a machine that exists, with an
  -- idempotency key and a new identifier (not the zero one) that no operation has, and with work that
  -- leaves the table of operations alone. Then a request with the same key, of whatever kind, machine,
  -- user and work, does no work and moves nothing, and answers with the operation as the first request
  -- ended it, SUCCEEDED or FAILED as its work returned, and without an error.
  pub work_done_once :
      (work work' : Machine → Exec (Platform X) (Unit {0})) (kind kind' : Kind)
      (machine machine' by by' : Uuid) (key : String) (m : Machine) (s : Platform X)
      → find (machine_has_id machine) s.db.machines ≡ some m
      → find (op_has_key key) s.db.operations ≡ none
      → (w.fresh (suc (suc (suc s.calls))) == 0) ≡ false
      → op_clashes (recorded w svc h work kind machine by key m s) s.db.operations ≡ false
      → let before = at_work w svc h work kind machine by key m s in
        (work m before).1.db.operations ≡ before.db.operations
        → let r = (work m before).0 in
          let s' = (run_operation w svc work kind machine by key s).1 in
          (op : Operation) × (run_operation w svc work' kind' machine' by' key s'
            ≡ (ok (op, none), tick s'))
          × (op.status ≡ end_status r)
          × (op.result ≡ end_text r)
  work_done_once work work' kind kind' machine machine' by by' key m s f n z c apart =
      let s' = (run_operation w svc work kind machine by key s).1 in
      let (o, done, st, ending, tables, out, ds) =
        run_operation-settles w svc h work kind machine by key m s f n z c apart in
      let (op, found, same) = stored_row key s' _ ending in
      (
        op,
        run_operation-repeated work' kind' machine' by' key s' op found,
        ap (λ p. p.0) same,
        ap (λ p. p.1) same,
      )
