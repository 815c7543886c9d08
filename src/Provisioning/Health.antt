-- ===== src/Provisioning/Health.antt =====
-- `checkTalosHealth` of internal/workflows/cluster_provision.go and `waitForClusterAPIReady` of
-- capi_change.go.
pub mod Overlooked
use talos_app.Prelude.{
  ℕ, String, Bool, true, false, Option, none, some, List, [], ◌∷◌, ◌&&◌, str_eq, length, not,
  if◌then◌else◌,
}
use talos_app.Shared.{text, default_page}
use talos_app.Exec.{Exec, Result, ok, err, pure, raise, wrapped, ◌>>=◌, ◌>>◌}
use talos_app.Domain.Cluster.{Cluster, is_cluster_api}
use talos_app.Domain.Machine.{Machine}
use talos_app.Platform.{Platform, World}
use talos_app.Ports.{TalosClient, Secrets, CapiResourceStatus, outside}
use talos_app.MachineRepo.Machines.{of_cluster, list_machines}
use talos_app.Provisioning.{Deps}

-- The loop of `waitForClusterAPIReady`.
unfoldable pub all_ready : List CapiResourceStatus → Result (Unit {0})
all_ready [] = ok tt
all_ready (s ∷ rest) =
    if s.ready then all_ready rest else err (text "CAPI resource %s/%s not ready (phase=%s)")

module _ {X : Type 0} where
  unfoldable pub register_credentials :
      TalosClient X → Option String → Machine → Exec (Platform X) (Unit {0})
  register_credentials talos none m = pure tt
  register_credentials talos (some config) m =
      wrapped "registering talos credentials for machine %s (%s)"
        (outside (talos.ensure_credentials m.management_ip config))

  -- The loop over the machines.
  unfoldable pub check_machines :
      TalosClient X → Option String → List Machine → Exec (Platform X) (Unit {0})
  unfolding register_credentials
  check_machines talos config [] = pure tt
  check_machines talos config (m ∷ rest) = do
    register_credentials talos config m
    healthy ←
        wrapped "checking Talos health for machine %s (%s)"
          (outside (talos.get_health m.management_ip))
    if healthy
        then check_machines talos config rest
        else raise (text "machine %s (%s) reported unhealthy: %v")

  -- The talosconfig of the cluster, where it has one and there is a secret store.
  unfoldable pub talos_config : Option (Secrets X) → Cluster → Exec (Platform X) (Option String)
  talos_config none c = pure none
  talos_config (some secrets) c = if str_eq c.talos_config_ref "" then pure none else (do
    config ←
        wrapped "loading talosconfig for cluster %s" (outside (secrets "talos" c.talos_config_ref))
    pure (some config))

module _ {X : Type 0} (w : World) (d : Deps X) where
  -- The check once the port is known.
  unfoldable pub talos_health : Option (TalosClient X) → Cluster → Exec (Platform X) ℕ
  talos_health none c = pure 0
  talos_health (some talos) c = do
    machines ←
        wrapped "listing machines for cluster %s" (list_machines w (of_cluster c.id) default_page)
    config ← talos_config d.secrets c
    check_machines talos config machines
    pure (length machines)

  -- It answers with the number of machines that it checked.
  unfoldable pub check_talos_health : Cluster → Exec (Platform X) ℕ
  unfolding talos_health
  check_talos_health c = if d.has_machines then talos_health d.talos c else pure 0

  unfoldable pub wait_for_cluster_api_ready : Cluster → Exec (Platform X) (Unit {0})
  wait_for_cluster_api_ready c =
      if is_cluster_api c.provider_mode
      then (do
        statuses ←
            wrapped "checking CAPI status"
              (outside (d.cluster_api.get_cluster_status "default" c.name))
        λ s. (all_ready statuses, s))
      else pure tt
