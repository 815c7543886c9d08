-- ===== src/Scenarios/Machines.antt =====
-- Operations on a machine.
use talos_app.Prelude.{◌≡◌, refl, some, none, [], ◌∷◌, false, find}
use talos_app.Shared.{driver, printed, no_timestamps, wrap}
use talos_app.Exec.{Exec, ok, err}
use talos_app.Domain.Machine.{Machine, worker, Phase}
use talos_app.Domain.Operation.{Operation, Kind, failed}
use talos_app.Platform.{Platform, empty_db, tick}
use talos_app.Platform.Rows.{affects}
use talos_app.MachineService.{Service, run_operation}
use talos_app.MachineService.Settles.{ending_of, run_operation-settles}
use talos_app.MachineService.Repeats.{work_done_once}
use talos_app.Scenarios.{healthy, healthy-IsHealthy}

abbrev service : Service (Unit {0})
service = record {
  talos_reboot = λ ip s. (ok tt, s);
  talos_shutdown = λ ip s. (ok tt, s);
  talos_upgrade = λ ip image s. (ok tt, s);
  talos_credentials = λ ip config s. (ok tt, s);
  secret = λ path s. (ok "", s);
  multi_cluster = false;
  providers = λ t. none;
}

-- Work that the machine refuses.
abbrev refused : Machine → Exec (Platform (Unit {0})) (Unit {0})
refused m s = (err (driver "connection refused"), s)

abbrev pub a_machine : Machine
a_machine = record {
  id = 9;
  cluster_id = some 5;
  site_id = 40;
  provider_id = 50;
  provider_machine_id = "vm-9";
  hostname = "worker-9";
  management_ip = "10.0.0.9";
  role = worker;
  phase = Phase.ready;
  talos_version = "v1.8.0";
  kubernetes_version = "v1.31.0";
  cpu = 4;
  memory_bytes = 8;
  bmc = none;
  labels = [];
  timestamps = no_timestamps;
}

abbrev with_machine : Platform (Unit {0})
with_machine = record {
  db = record empty_db { machines = a_machine ∷ [] };
  dispatches = [];
  outside = tt;
  calls = 0;
}

run_operation-settles_example :
    let s' = (run_operation healthy service refused Kind.reboot_machine 9 1 "key" with_machine).1 in
    (op : Operation) × ((run_operation healthy service refused Kind.reboot_machine 9 1 "key"
        with_machine).0
      ≡ ok (op, some (wrap "%s failed" (driver "connection refused"))))
    × (op.status ≡ failed)
    × (ending_of "key" s' ≡ some (failed, printed (driver "connection refused")))
    × (s'.db ≡ record (refused a_machine with_machine).1.db { operations = s'.db.operations })
    × (s'.outside ≡ tt)
    × (s'.dispatches ≡ [])
run_operation-settles_example =
    run_operation-settles healthy service healthy-IsHealthy refused Kind.reboot_machine 9 1 "key"
      a_machine with_machine (unfold find in refl) (unfold find in refl) refl
      (unfold affects in refl) refl

work_done_once_example :
    let s' = (run_operation healthy service refused Kind.reboot_machine 9 1 "key" with_machine).1 in
    (op : Operation) × (run_operation healthy service refused Kind.reboot_machine 9 1 "key" s'
      ≡ (ok (op, none), tick s'))
    × (op.status ≡ failed)
    × (op.result ≡ printed (driver "connection refused"))
work_done_once_example =
    work_done_once healthy service healthy-IsHealthy refused refused Kind.reboot_machine
      Kind.reboot_machine 9 9 1 1 "key" a_machine with_machine (unfold find in refl)
      (unfold find in refl) refl (unfold affects in refl) refl
