-- ===== src/Provisioning/Untouched.antt =====
-- What the steps of internal/workflows/cluster_provision.go, cluster_upgrade.go and worker_scale.go leave
-- alone, that write no cluster.
use talos_app.Prelude.{◌≡◌, List}
use talos_app.Exec.{Result, ok, err}
use talos_app.Exec.Frame.{
  IsFixed, then-IsFixed, wrapped-IsFixed, pure-IsFixed, raise-IsFixed, if-IsFixed, attempt-IsFixed,
}
use talos_app.Domain.Cluster.{Cluster, is_cluster_api}
use talos_app.Domain.GitOps.{ChangeSet}
use talos_app.Domain.Workflow.{Workflow}
use talos_app.Platform.{Platform, World, tick}
use talos_app.Provisioning.Frame.{
  outside-IsFixed, git_ops_repo-IsFixed, latest_change_set-IsFixed, update_change_set-IsFixed,
  capi_manifests-IsFixed, commit_manifests-IsFixed, open_pull_request-IsFixed,
  record_pull_request-IsFixed, commit_cluster_api_change-IsFixed,
  await_cluster_api_change_merge-IsFixed, wait_for_cluster_api_ready-IsFixed,
}
use talos_app.Provisioning.Scale.{validate_scale_request, apply_scale, commit_capi_scale}
use talos_app.Provisioning.Steps.{
  validate_request, validate_infrastructure, validate_ip_allocation, generate_argocd_configuration,
  check_kubernetes_health, check_cluster_operators, mark_synced, generate_capi_manifests,
  commit_to_git, create_pull_request, wait_for_argocd_sync, wait_for_cluster_api,
}
use talos_app.Provisioning.Upgrade.{
  upgrade_control_plane, upgrade_workers, commit_capi_upgrade, await_capi_merge,
}
use talos_app.Provisioning.{Deps}

module _ {X V : Type 0} (view : Platform X → V)
    (untimed : (s : Platform X) → view (tick s) ≡ view s)
    (unmoved : (s : Platform X) (x : X) → view (record s { outside = x }) ≡ view s)
    (unlisted : (s : Platform X) (cs : List ChangeSet)
      → view (record s { db = record s.db { change_sets = cs } }) ≡ view s)
    (w : World) where
  pub validate_request-IsFixed : (c : Cluster) → IsFixed view (validate_request c)
  unfolding validate_request
  validate_request-IsFixed c = if-IsFixed view _ _ _ (raise-IsFixed view _) (pure-IsFixed view _)

  pub validate_infrastructure-IsFixed : (c : Cluster) → IsFixed view (validate_infrastructure c)
  unfolding validate_infrastructure
  validate_infrastructure-IsFixed c =
      if-IsFixed view _ _ _ (raise-IsFixed view _) (pure-IsFixed view _)

  pub validate_ip_allocation-IsFixed : (c : Cluster) → IsFixed view (validate_ip_allocation c)
  unfolding validate_ip_allocation
  validate_ip_allocation-IsFixed c =
      if-IsFixed view _ _ _ (raise-IsFixed view _) (pure-IsFixed view _)

  pub generate_argocd_configuration-IsFixed :
      (c : Cluster) → IsFixed view (generate_argocd_configuration c)
  unfolding generate_argocd_configuration
  generate_argocd_configuration-IsFixed c =
      if-IsFixed view _ _ _ (pure-IsFixed view _) (pure-IsFixed view _)

  pub check_kubernetes_health-IsFixed : (c : Cluster) → IsFixed view (check_kubernetes_health c)
  unfolding check_kubernetes_health
  check_kubernetes_health-IsFixed c = pure-IsFixed view _

  pub check_cluster_operators-IsFixed : (c : Cluster) → IsFixed view (check_cluster_operators c)
  unfolding check_cluster_operators
  check_cluster_operators-IsFixed c = pure-IsFixed view _

  pub upgrade_control_plane-IsFixed : (c : Cluster) → IsFixed view (upgrade_control_plane c)
  unfolding upgrade_control_plane
  upgrade_control_plane-IsFixed c =
      if-IsFixed view _ _ _ (pure-IsFixed view _) (pure-IsFixed view _)

  pub upgrade_workers-IsFixed : (c : Cluster) → IsFixed view (upgrade_workers c)
  unfolding upgrade_workers
  upgrade_workers-IsFixed c = if-IsFixed view _ _ _ (pure-IsFixed view _) (pure-IsFixed view _)

  pub validate_scale_request-IsFixed : (c : Cluster) → IsFixed view (validate_scale_request c)
  unfolding validate_scale_request
  validate_scale_request-IsFixed c =
      if-IsFixed view _ _ _ (pure-IsFixed view _) (raise-IsFixed view _)

  pub apply_scale-IsFixed : (c : Cluster) → IsFixed view (apply_scale c)
  unfolding apply_scale
  apply_scale-IsFixed c = if-IsFixed view _ _ _ (pure-IsFixed view _) (pure-IsFixed view _)

  mark_synced-IsFixed : (found : Result ChangeSet) → IsFixed view (mark_synced w found)
  unfolding mark_synced
  mark_synced-IsFixed (ok cs) =
      then-IsFixed view _ _
        (attempt-IsFixed view _ (update_change_set-IsFixed view untimed unmoved w unlisted _))
        (λ _. pure-IsFixed view _)
  mark_synced-IsFixed (err x) = pure-IsFixed view _

  module _ (d : Deps X) where
    pub generate_capi_manifests-IsFixed :
        (c : Cluster) → IsFixed view (generate_capi_manifests w d c)
    unfolding generate_capi_manifests
    generate_capi_manifests-IsFixed c =
        if-IsFixed view (is_cluster_api c.provider_mode) _ _
          (then-IsFixed view _ _ (capi_manifests-IsFixed view untimed unmoved w d c)
            (λ files. pure-IsFixed view _))
          (pure-IsFixed view _)

    pub commit_to_git-IsFixed :
        (c : Cluster) (wf : Workflow) → IsFixed view (commit_to_git w d c wf)
    unfolding commit_to_git
    commit_to_git-IsFixed c wf =
        then-IsFixed view _ _ (git_ops_repo-IsFixed view untimed unmoved w c.id) (λ repo.
          then-IsFixed view _ _
            (commit_manifests-IsFixed view untimed unmoved w unlisted d c wf repo _ _)
            (λ cs. pure-IsFixed view _))

    pub create_pull_request-IsFixed : (c : Cluster) → IsFixed view (create_pull_request w d c)
    unfolding create_pull_request
    create_pull_request-IsFixed c =
        then-IsFixed view _ _ (git_ops_repo-IsFixed view untimed unmoved w c.id) (λ repo.
          then-IsFixed view _ _ (open_pull_request-IsFixed view untimed unmoved w d repo _ _ _)
            (λ pr.
              then-IsFixed view _ _ (latest_change_set-IsFixed view untimed unmoved w c.id) (λ cs.
                then-IsFixed view _ _
                  (record_pull_request-IsFixed view untimed unmoved w unlisted d pr cs)
                  (λ _. pure-IsFixed view _))))

    pub wait_for_argocd_sync-IsFixed : (c : Cluster) → IsFixed view (wait_for_argocd_sync w d c)
    unfolding wait_for_argocd_sync
    wait_for_argocd_sync-IsFixed c =
        if-IsFixed view c.spec.argocd.enabled _ _
          (then-IsFixed view _ _
            (wrapped-IsFixed view _ _ (outside-IsFixed view untimed unmoved w _))
            (λ _.
              then-IsFixed view _ _
                (attempt-IsFixed view _ (latest_change_set-IsFixed view untimed unmoved w c.id))
                (λ found.
                  then-IsFixed view _ _ (mark_synced-IsFixed found) (λ _. pure-IsFixed view _))))
          (pure-IsFixed view _)

    pub wait_for_cluster_api-IsFixed : (c : Cluster) → IsFixed view (wait_for_cluster_api w d c)
    unfolding wait_for_cluster_api
    wait_for_cluster_api-IsFixed c =
        then-IsFixed view _ _ (wait_for_cluster_api_ready-IsFixed view untimed unmoved w d c)
          (λ _. pure-IsFixed view _)

    pub commit_capi_upgrade-IsFixed :
        (c : Cluster) (wf : Workflow) → IsFixed view (commit_capi_upgrade w d c wf)
    unfolding commit_capi_upgrade
    commit_capi_upgrade-IsFixed c wf =
        if-IsFixed view (is_cluster_api c.provider_mode) _ _
          (then-IsFixed view _ _
            (commit_cluster_api_change-IsFixed view untimed unmoved w unlisted d c wf _ _)
            (λ _. pure-IsFixed view _))
          (pure-IsFixed view _)

    pub commit_capi_scale-IsFixed :
        (c : Cluster) (wf : Workflow) → IsFixed view (commit_capi_scale w d c wf)
    unfolding commit_capi_scale
    commit_capi_scale-IsFixed c wf =
        if-IsFixed view (is_cluster_api c.provider_mode) _ _
          (then-IsFixed view _ _
            (commit_cluster_api_change-IsFixed view untimed unmoved w unlisted d c wf _ _)
            (λ _. pure-IsFixed view _))
          (pure-IsFixed view _)

    pub await_capi_merge-IsFixed : (c : Cluster) → IsFixed view (await_capi_merge w d c)
    unfolding await_capi_merge
    await_capi_merge-IsFixed c =
        if-IsFixed view (is_cluster_api c.provider_mode) _ _
          (then-IsFixed view _ _
            (await_cluster_api_change_merge-IsFixed view untimed unmoved w unlisted d c)
            (λ _. pure-IsFixed view _))
          (pure-IsFixed view _)
