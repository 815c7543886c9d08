-- ===== src/MachineService.antt =====
-- internal/application/machineservice/service.go and internal/application/inframanager/registry.go:
-- imperative operations on a machine, each recorded once for an idempotency key. The Talos client, the
-- infrastructure providers and the secret store are parameters.
pub mod Settles
pub mod Repeats
use talos_app.Prelude.{
  ℕ, String, Bool, true, false, not, ◌||◌, Option, none, some, str_eq, if◌then◌else◌,
}
use talos_app.Shared.{
  Uuid, Time, Error, wrap, sentinel, not_found, not_implemented, is, Text, lit, printed, no_text,
  no_timestamps,
}
use talos_app.Exec.{Exec, Result, ok, err, pure, raise, attempt, wrapped, ◌>>=◌, ◌>>◌}
use talos_app.Domain.Machine.{Machine, ProviderType, InfrastructureProvider}
use talos_app.Domain.Operation.{Operation, Kind, Status, running, succeeded, failed}
use talos_app.Platform.{Platform, World, clock, new_id}
use talos_app.ClusterRepo
use talos_app.MachineRepo.{
  get_machine, get_provider, get_operation_by_key, create_operation, update_operation,
}

-- `ports.InfrastructureProvider`, as far as the service calls it.
pub record Provider (X : Type 0) : Type 0 where
  pub power_on : String → Exec (Platform X) (Unit {0})
  pub power_off : String → Exec (Platform X) (Unit {0})
  pub reboot : String → Exec (Platform X) (Unit {0})

-- What the service is built with; `multi_cluster` is that neither the cluster repository nor the
-- secret store is nil.
pub record Service (X : Type 0) : Type 0 where
  pub talos_reboot : String → Exec (Platform X) (Unit {0})
  pub talos_shutdown : String → Exec (Platform X) (Unit {0})
  pub talos_upgrade : String → String → Exec (Platform X) (Unit {0})
  pub talos_credentials : String → String → Exec (Platform X) (Unit {0})
  pub secret : String → Exec (Platform X) String
  pub multi_cluster : Bool
  pub providers : ProviderType → Option (Provider X)

-- What `beginOperation` returns: the operation that is already recorded, or a new one.
pub data Begun : Type 0 where
  repeated : Operation → Begun
  started : Operation → Machine → Begun

-- The operation and the error of Go's pair of results.
abbrev pub Outcome : Type 0
Outcome = Operation × Option Error

unfoldable pub new_operation : Uuid → String → Kind → Machine → Uuid → Uuid → Time → Operation
new_operation id key kind m machine by now = record {
  id = id;
  idempotency_key = key;
  kind = kind;
  cluster_id = m.cluster_id;
  machine_id = some machine;
  requested_by = by;
  status = running;
  result = no_text;
  started_at = some now;
  finished_at = none;
  timestamps = no_timestamps;
}

abbrev pub end_status : Result (Unit {0}) → Status
end_status (ok _) = succeeded
end_status (err _) = failed

abbrev pub end_text : Result (Unit {0}) → Text
end_text (ok _) = lit "ok"
end_text (err x) = printed x

abbrev pub failure : Result (Unit {0}) → Option Error
failure (ok _) = none
failure (err x) = some (wrap "%s failed" x)

unfoldable pub ended : Time → Result (Unit {0}) → Operation → Operation
ended now r op = record op { finished_at = some now; status = end_status r; result = end_text r }

module _ {X : Type 0} (w : World) (svc : Service X) where
  -- `Registry.For`
  unfoldable pub provider_for : ProviderType → Exec (Platform X) (Provider X)
  provider_for t = elim (svc.providers t) [
    | none ↦ raise (
        wrap "%w: no infrastructure provider implementation registered for type %s"
          (sentinel not_implemented))
    | some p ↦ pure p
  ]

  -- `ensureTalosCredentials` for a machine of a cluster.
  abbrev cluster_credentials : Machine → Uuid → Exec (Platform X) (Unit {0})
  cluster_credentials m cluster = do
    c ← wrapped "resolving machine's cluster" (ClusterRepo.get w cluster)
    if str_eq c.talos_config_ref "" then pure tt else (do
      config ← wrapped "loading talosconfig for cluster %s" (svc.secret c.talos_config_ref)
      svc.talos_credentials m.management_ip config)

  abbrev credentials_of : Bool → Option Uuid → Machine → Exec (Platform X) (Unit {0})
  credentials_of false cluster m = pure tt
  credentials_of true none m = pure tt
  credentials_of true (some cluster) m = cluster_credentials m cluster

  unfoldable pub ensure_talos_credentials : Machine → Exec (Platform X) (Unit {0})
  ensure_talos_credentials m = credentials_of svc.multi_cluster m.cluster_id m

  unfoldable pub begin_new : Kind → Uuid → Uuid → String → Exec (Platform X) Begun
  begin_new kind machine by key = do
    m ← get_machine w machine
    now ← clock w
    id ← new_id w
    op ←
        wrapped "recording operation"
          (create_operation w (new_operation id key kind m machine by now))
    pure (started op m)

  unfoldable pub begin_found :
      Result Operation → Kind → Uuid → Uuid → String → Exec (Platform X) Begun
  unfolding begin_new
  begin_found (ok existing) kind machine by key = pure (repeated existing)
  begin_found (err x) kind machine by key =
      if is x not_found
      then begin_new kind machine by key
      else raise (wrap "checking idempotency key" x)

  unfoldable pub begin_operation : Kind → Uuid → Uuid → String → Exec (Platform X) Begun
  unfolding begin_found
  begin_operation kind machine by key = do
    found ← attempt (get_operation_by_key w key)
    begin_found found kind machine by key

  unfoldable pub finish_operation : Operation → Result (Unit {0}) → Exec (Platform X) Outcome
  unfolding ended
  finish_operation op r = do
    now ← clock w
    done ← wrapped "persisting operation result" (update_operation w (ended now r op))
    pure (done, failure r)

  -- The work of `runOperation` on a machine.
  unfoldable pub on_talos :
      (String → Exec (Platform X) (Unit {0})) → Machine → Exec (Platform X) (Unit {0})
  on_talos fn m = do ensure_talos_credentials m; fn m.management_ip

  -- The work of `runInfraOperation` on a machine.
  unfoldable pub on_provider :
      (Provider X → String → Exec (Platform X) (Unit {0})) → Machine → Exec (Platform X) (Unit {0})
  on_provider fn m = do
    row ← wrapped "resolving infrastructure provider record" (get_provider w m.provider_id)
    p ← provider_for row.type
    fn p m.provider_machine_id

  -- Both families of operations: a repeated request does no work, and what the work returns,
  -- its preparation included, is the result that is recorded.
  unfoldable pub run_begun :
      (Machine → Exec (Platform X) (Unit {0})) → Begun → Exec (Platform X) Outcome
  unfolding finish_operation
  run_begun work (repeated op) = pure (op, none)
  run_begun work (started op m) = do r ← attempt (work m); finish_operation op r

  unfoldable pub run_operation :
      (Machine → Exec (Platform X) (Unit {0}))
      → Kind
      → Uuid
      → Uuid
      → String
      → Exec (Platform X) Outcome
  unfolding run_begun begin_operation
  run_operation work kind machine by key = do
    begun ← begin_operation kind machine by key
    run_begun work begun

  unfoldable pub reboot : Uuid → Uuid → String → Exec (Platform X) Outcome
  reboot machine by key =
      run_operation (on_talos svc.talos_reboot) Kind.reboot_machine machine by key

  unfoldable pub shutdown : Uuid → Uuid → String → Exec (Platform X) Outcome
  shutdown machine by key =
      run_operation (on_talos svc.talos_shutdown) Kind.shutdown_machine machine by key

  unfoldable pub upgrade : Uuid → Uuid → String → String → Exec (Platform X) Outcome
  upgrade machine by key image =
      run_operation (on_talos (λ ip. svc.talos_upgrade ip image)) Kind.upgrade_talos machine by key

  unfoldable pub hard_power_on : Uuid → Uuid → String → Exec (Platform X) Outcome
  hard_power_on machine by key =
      run_operation (on_provider (λ p. p.power_on)) Kind.hard_power_on machine by key

  unfoldable pub hard_power_off : Uuid → Uuid → String → Exec (Platform X) Outcome
  hard_power_off machine by key =
      run_operation (on_provider (λ p. p.power_off)) Kind.hard_power_off machine by key

  unfoldable pub hard_power_cycle : Uuid → Uuid → String → Exec (Platform X) Outcome
  hard_power_cycle machine by key =
      run_operation (on_provider (λ p. p.reboot)) Kind.hard_power_cycle machine by key
