-- ===== src/Scenarios/Fleets.antt =====
-- The health check of a cluster with more machines than a page holds.
use talos_app.Prelude.{◌≡◌, refl, ℕ, zero, suc, List, some, [], ◌∷◌, String, str_eq}
use talos_app.Shared.{text}
use talos_app.Exec.{ok, err, ◌>>=◌}
use talos_app.Domain.Cluster.{ready}
use talos_app.Domain.Machine.{Machine}
use talos_app.MachineRepo.Machines.{satisfies, list_machines}
use talos_app.Platform.{Platform, call}
use talos_app.Platform.Rows.{newest_where}
use talos_app.Ports.{outside}
use talos_app.Provisioning.{Deps}
use talos_app.Provisioning.Health.{
  check_talos_health, talos_health, check_machines, register_credentials, talos_config,
}
use talos_app.Provisioning.Health.Overlooked.{check_talos_health-overlooks}
use talos_app.Scenarios.{healthy}
use talos_app.Scenarios.Clusters.{a_cluster}
use talos_app.Scenarios.Machines.{a_machine}
use talos_app.Scenarios.Provisions.{deps_in, configured}

-- A machine of the cluster 5, and as many as asked for that the client below finds healthy.
abbrev machine_at : String → ℕ → Machine
machine_at ip created = record a_machine {
  cluster_id = some 5;
  management_ip = ip;
  timestamps = record { created_at = created; updated_at = created };
}

abbrev fleet : ℕ → List Machine
fleet zero = []
fleet (suc n) = machine_at "10.0.0.1" 9 ∷ fleet n

abbrev unhealthy : Machine
unhealthy = machine_at "10.0.0.2" 3

-- Only the machines at one address are healthy.
abbrev watching : Deps (Unit {0})
watching = record (deps_in "open") {
  talos = some (record {
    get_health = λ ip x. (ok (str_eq ip "10.0.0.1"), x);
    ensure_credentials = λ ip config x. (ok tt, x);
  });
}

abbrev having : List Machine → Platform (Unit {0})
having ms = record (configured ready) { db = record (configured ready).db { machines = ms } }

-- The client reports the machine where it is among the first fifty.
unhealthy_is_reported :
    (check_talos_health healthy watching (a_cluster ready) (having (unhealthy ∷ fleet 49))).0
    ≡ err (text "machine %s (%s) reported unhealthy: %v")
unfolding check_talos_health talos_health check_machines register_credentials talos_config
    list_machines newest_where satisfies call outside ◌>>=◌
unhealthy_is_reported = refl

-- It is the fifty-first, or there is no such machine.
check_talos_health-overlooks_example :
    (check_talos_health healthy watching (a_cluster ready) (having (fleet 50))).0
    ≡ (check_talos_health healthy watching (a_cluster ready) (having (unhealthy ∷ fleet 50))).0
unfolding newest_where satisfies
check_talos_health-overlooks_example =
    check_talos_health-overlooks healthy watching (a_cluster ready) (having (unhealthy ∷ fleet 50))
      (fleet 50) refl
