-- ===== src/Provisioning/Steps.antt =====
-- `NewClusterProvisionDefinition` of internal/workflows/cluster_provision.go: its fourteen steps.
pub mod Gate
pub mod Ready
use talos_app.Prelude.{
  ℕ, String, Bool, true, false, Option, none, some, List, [], ◌∷◌, ◌||◌, ◌==◌, length, str_eq,
  str_append, if◌then◌else◌,
}
use talos_app.Shared.{Error, text, str, int, signed, flag, ref, JsonMap, zero_id}
use talos_app.Exec.{Exec, Result, ok, err, pure, raise, lift, attempt, wrapped, ◌>>=◌, ◌>>◌}
use talos_app.Domain.Cluster.{
  Cluster, State, bootstrapping, installing, configuring, ready, transition, is_cluster_api,
}
use talos_app.Domain.GitOps.{ChangeSet, ChangeSetStatus}
use talos_app.Domain.Workflow.{Workflow, Kind}
use talos_app.Platform.{Platform, World, clock}
use talos_app.Ports.{outside}
use talos_app.ClusterRepo
use talos_app.GitOpsRepo.{update_change_set}
use talos_app.Engine.{Definition}
use talos_app.Provisioning.{
  Deps, provision_branch, step, cluster_step_with_workflow, transition_and_save, git_ops_repo,
  latest_change_set, capi_manifests,
}
use talos_app.Provisioning.Health.{check_talos_health, wait_for_cluster_api_ready}
use talos_app.Provisioning.Change.{
  commit_manifests, open_pull_request, record_pull_request, merged_pull_request, record_merge,
}

abbrev pub is_empty : String → Bool
is_empty t = str_eq t ""

abbrev pub skipped : JsonMap
skipped = ("skipped", flag true) ∷ []

module _ {X : Type 0} where
  unfoldable pub validate_request : Cluster → Exec (Platform X) JsonMap
  validate_request c =
      if is_empty c.spec.kubernetes_version || is_empty c.spec.talos_version
      then raise (text "cluster spec missing required versions")
      else pure (("validated", flag true) ∷ [])

  unfoldable pub validate_infrastructure : Cluster → Exec (Platform X) JsonMap
  validate_infrastructure c =
      if c.site_id == zero_id
      then raise (text "cluster has no site assigned")
      else pure (("site", ref c.site_id) ∷ [])

  unfoldable pub validate_ip_allocation : Cluster → Exec (Platform X) JsonMap
  validate_ip_allocation c =
      if is_empty c.spec.network.pod_cidr || is_empty c.spec.network.service_cidr
      then raise (text "cluster network CIDRs are not set")
      else pure (
          ("podCIDR", str c.spec.network.pod_cidr)
          ∷ ("serviceCIDR", str c.spec.network.service_cidr)
          ∷ [])

  unfoldable pub generate_argocd_configuration : Cluster → Exec (Platform X) JsonMap
  generate_argocd_configuration c =
      if c.spec.argocd.enabled
      then pure (("project", str c.spec.argocd.project) ∷ [])
      else pure skipped

  unfoldable pub check_kubernetes_health : Cluster → Exec (Platform X) JsonMap
  check_kubernetes_health c = pure (("kubernetesHealthy", flag true) ∷ [])

  unfoldable pub check_cluster_operators : Cluster → Exec (Platform X) JsonMap
  check_cluster_operators c = pure (("operatorsHealthy", flag true) ∷ [])

module _ {X : Type 0} (w : World) where
  unfoldable pub generate_talos_configuration : Cluster → Exec (Platform X) JsonMap
  generate_talos_configuration c = do
    moved ← transition_and_save w bootstrapping c
    pure (("talosVersion", str moved.spec.talos_version) ∷ [])

  unfoldable pub mark_ready : Cluster → Exec (Platform X) JsonMap
  mark_ready c = do
    now ← clock w
    moved ← wrapped "transitioning cluster to READY" (lift (transition now ready c))
    wrapped "persisting cluster state" (ClusterRepo.update w moved)
    pure (("state", str "READY") ∷ [])

  -- The status SYNCED of the latest change set; its errors are dropped.
  unfoldable pub mark_synced : Result ChangeSet → Exec (Platform X) (Unit {0})
  mark_synced (ok cs) = do
    attempt (update_change_set w (record cs { status = ChangeSetStatus.synced }))
    pure tt
  mark_synced (err x) = pure tt

  module _ (d : Deps X) where
    unfoldable pub generate_capi_manifests : Cluster → Exec (Platform X) JsonMap
    generate_capi_manifests c =
        if is_cluster_api c.provider_mode
        then (do files ← capi_manifests w d c; pure (("files", int (length files)) ∷ []))
        else pure skipped

    unfoldable pub commit_to_git : Cluster → Workflow → Exec (Platform X) JsonMap
    commit_to_git c wf = do
      repo ← git_ops_repo w c.id
      let branch = provision_branch c
      cs ← commit_manifests w d c wf repo branch (str_append "Provision cluster " c.name)
      pure (
          ("branch", str branch)
          ∷ ("sha", str cs.commit_sha)
          ∷ ("filesCommitted", int (length cs.generated_files))
          ∷ [])

    unfoldable pub create_pull_request : Cluster → Exec (Platform X) JsonMap
    create_pull_request c = do
      repo ← git_ops_repo w c.id
      pr ←
          open_pull_request w d repo (str_append "Provision cluster " c.name)
            "Generated by the Talos Platform cluster provisioning workflow." (provision_branch c)
      cs ← latest_change_set w c.id
      record_pull_request w d pr cs
      pure (("pullRequestURL", str pr.url) ∷ ("pullRequestNumber", signed pr.number) ∷ [])

    unfoldable pub await_pull_request_merge : Cluster → Exec (Platform X) JsonMap
    await_pull_request_merge c = do
      repo ← git_ops_repo w c.id
      cs ← latest_change_set w c.id
      number ← merged_pull_request w d repo cs
      record_merge w d cs
      transition_and_save w installing c
      pure (("merged", flag true) ∷ ("pullRequestNumber", signed number) ∷ [])

    unfoldable pub wait_for_argocd_sync : Cluster → Exec (Platform X) JsonMap
    unfolding mark_synced
    wait_for_argocd_sync c =
        if c.spec.argocd.enabled
        then (do
          wrapped "syncing argocd application" (outside (d.argocd.sync c.name))
          found ← attempt (latest_change_set w c.id)
          mark_synced found
          pure (("synced", flag true) ∷ []))
        else pure skipped

    unfoldable pub wait_for_cluster_api : Cluster → Exec (Platform X) JsonMap
    wait_for_cluster_api c = do
      wait_for_cluster_api_ready w d c
      pure (("capiReady", flag (is_cluster_api c.provider_mode)) ∷ [])

    unfoldable pub check_talos : Cluster → Exec (Platform X) JsonMap
    check_talos c = do
      moved ← transition_and_save w configuring c
      checked ← check_talos_health w d moved
      pure (("talosHealthy", flag true) ∷ ("machinesChecked", int checked) ∷ [])

    -- `NewClusterProvisionDefinition`
    unfoldable pub provision_definition : Definition X
    provision_definition = record {
      kind = Kind.cluster_provision;
      steps =
          step w "validate-request" validate_request
          ∷ step w "validate-infrastructure" validate_infrastructure
          ∷ step w "validate-ip-allocation" validate_ip_allocation
          ∷ step w "generate-talos-configuration" generate_talos_configuration
          ∷ step w "generate-capi-manifests" generate_capi_manifests
          ∷ step w "generate-argocd-configuration" generate_argocd_configuration
          ∷ record { name = "commit-to-git"; run = cluster_step_with_workflow w commit_to_git }
          ∷ step w "create-pull-request" create_pull_request
          ∷ step w "await-pull-request-merge" await_pull_request_merge
          ∷ step w "wait-for-argocd-sync" wait_for_argocd_sync
          ∷ step w "wait-for-cluster-api" wait_for_cluster_api
          ∷ step w "check-talos-health" check_talos
          ∷ step w "check-kubernetes-health" check_kubernetes_health
          ∷ step w "check-cluster-operators" check_cluster_operators
          ∷ step w "mark-ready" mark_ready
          ∷ [];
    }
