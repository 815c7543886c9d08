-- ===== src/Provisioning/Upgrade.antt =====
-- internal/workflows/cluster_upgrade.go: `NewClusterUpgradeDefinition`.
use talos_app.Prelude.{
  ℕ, ◌+◌, ◌-◌, ◌^◌, ◌%◌, ltb, ℤ, pos, negsuc, true, List, [], ◌∷◌, str_append, if◌then◌else◌,
}
use talos_app.Shared.{str, signed, flag, JsonMap}
use talos_app.Exec.{Exec, pure, wrapped, ◌>>=◌, ◌>>◌}
use talos_app.Domain.Cluster.{Cluster, WorkerPoolSpec, upgrading, ready, is_cluster_api}
use talos_app.Domain.Workflow.{Workflow, Kind}
use talos_app.Platform.{Platform, World}
use talos_app.Engine.{Definition}
use talos_app.Provisioning.{Deps, step, cluster_step_with_workflow, transition_and_save}
use talos_app.Provisioning.Steps.{skipped, wait_for_cluster_api}
use talos_app.Provisioning.Change.{commit_cluster_api_change, await_cluster_api_change_merge}

abbrev pub managed : JsonMap
managed = ("skipped", flag true) ∷ ("reason", str "CAPI-managed") ∷ []

-- The loop over the pools; the sum is an `int32`, kept as its residue.
unfoldable pub total_replicas : ℕ → List WorkerPoolSpec → ℕ
total_replicas n [] = n
total_replicas n (p ∷ rest) = total_replicas ((n + p.replicas) % 2 ^ 32) rest

-- The `int32` that has this residue.
unfoldable pub int32 : ℕ → ℤ
int32 n = if ltb n (2 ^ 31) then pos n else negsuc (2 ^ 32 - 1 - n)

module _ {X : Type 0} where
  unfoldable pub upgrade_control_plane : Cluster → Exec (Platform X) JsonMap
  unfolding int32
  upgrade_control_plane c =
      if is_cluster_api c.provider_mode
      then pure managed
      else pure (("controlPlaneUpgraded", signed (int32 c.spec.control_plane.replicas)) ∷ [])

  unfoldable pub upgrade_workers : Cluster → Exec (Platform X) JsonMap
  unfolding total_replicas int32
  upgrade_workers c =
      if is_cluster_api c.provider_mode
      then pure managed
      else pure (("workersUpgraded", signed (int32 (total_replicas 0 c.spec.workers))) ∷ [])

module _ {X : Type 0} (w : World) where
  unfoldable pub begin_upgrade : Cluster → Exec (Platform X) JsonMap
  begin_upgrade c = do
    moved ← transition_and_save w upgrading c
    pure (("from", str moved.spec.kubernetes_version) ∷ [])

  unfoldable pub verify_and_mark_ready : Cluster → Exec (Platform X) JsonMap
  verify_and_mark_ready c = do
    wrapped "marking cluster ready after upgrade" (transition_and_save w ready c)
    pure (("state", str "READY") ∷ [])

  module _ (d : Deps X) where
    unfoldable pub commit_capi_upgrade : Cluster → Workflow → Exec (Platform X) JsonMap
    commit_capi_upgrade c wf =
        if is_cluster_api c.provider_mode
        then (do
          commit_cluster_api_change w d c wf "upgrade" (
              str_append "Upgrade cluster " (
                str_append c.name (
                  str_append " to Kubernetes " (
                    str_append c.spec.kubernetes_version
                      (str_append " / Talos " c.spec.talos_version)))))
          pure (("committed", flag true) ∷ []))
        else pure skipped

    unfoldable pub await_capi_merge : Cluster → Exec (Platform X) JsonMap
    await_capi_merge c =
        if is_cluster_api c.provider_mode
        then (do await_cluster_api_change_merge w d c; pure (("merged", flag true) ∷ []))
        else pure skipped

    -- `NewClusterUpgradeDefinition`
    unfoldable pub upgrade_definition : Definition X
    upgrade_definition = record {
      kind = Kind.cluster_upgrade;
      steps =
          step w "begin-upgrade" begin_upgrade
          ∷ step w "upgrade-control-plane" upgrade_control_plane
          ∷ step w "upgrade-workers" upgrade_workers
          ∷ record {
            name = "commit-capi-upgrade";
            run = cluster_step_with_workflow w commit_capi_upgrade;
          }
          ∷ step w "await-capi-upgrade-merge" await_capi_merge
          ∷ step w "wait-for-cluster-api" (wait_for_cluster_api w d)
          ∷ step w "verify-and-mark-ready" verify_and_mark_ready
          ∷ [];
    }
