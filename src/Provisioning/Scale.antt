-- ===== src/Provisioning/Scale.antt =====
-- internal/workflows/worker_scale.go: `NewWorkerScaleDefinition`.
use talos_app.Prelude.{true, [], ◌∷◌, ◌||◌, length, str_append, if◌then◌else◌}
use talos_app.Shared.{text, str, int, flag, JsonMap}
use talos_app.Exec.{Exec, pure, raise, ◌>>◌}
use talos_app.Domain.Cluster.{Cluster, ready, degraded, state_eq, state_name, is_cluster_api}
use talos_app.Domain.Workflow.{Workflow, Kind}
use talos_app.Platform.{Platform, World}
use talos_app.Engine.{Definition}
use talos_app.Provisioning.{Deps, step, cluster_step_with_workflow}
use talos_app.Provisioning.Steps.{skipped, wait_for_cluster_api}
use talos_app.Provisioning.Change.{commit_cluster_api_change}
use talos_app.Provisioning.Upgrade.{managed, await_capi_merge}

module _ {X : Type 0} where
  unfoldable pub validate_scale_request : Cluster → Exec (Platform X) JsonMap
  validate_scale_request c =
      if state_eq c.state ready || state_eq c.state degraded
      then pure (("currentState", str (state_name c.state)) ∷ [])
      else raise (text "cluster must be READY or DEGRADED to scale, was %s")

  unfoldable pub apply_scale : Cluster → Exec (Platform X) JsonMap
  apply_scale c =
      if is_cluster_api c.provider_mode
      then pure managed
      else pure (("pools", int (length c.spec.workers)) ∷ [])

module _ {X : Type 0} (w : World) (d : Deps X) where
  unfoldable pub commit_capi_scale : Cluster → Workflow → Exec (Platform X) JsonMap
  commit_capi_scale c wf =
      if is_cluster_api c.provider_mode
      then (do
        commit_cluster_api_change w d c wf "scale"
            (str_append "Scale cluster " (str_append c.name " worker pools"))
        pure (("committed", flag true) ∷ []))
      else pure skipped

  -- `NewWorkerScaleDefinition`
  unfoldable pub scale_definition : Definition X
  scale_definition = record {
    kind = Kind.worker_scale;
    steps =
        step w "validate-scale-request" validate_scale_request
        ∷ step w "apply-scale" apply_scale
        ∷ record {
          name = "commit-capi-scale";
          run = cluster_step_with_workflow w commit_capi_scale;
        }
        ∷ step w "await-capi-scale-merge" (await_capi_merge w d)
        ∷ step w "wait-for-cluster-api" (wait_for_cluster_api w d)
        ∷ [];
  }
