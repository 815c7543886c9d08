-- ===== src/Provisioning/Frame.antt =====
-- What the actions of internal/workflows/cluster_provision.go and capi_change.go leave alone: each part
-- of the platform but the change sets, the outside and the count of the questions.
use talos_app.Prelude.{
  ◌≡◌, refl, String, Option, none, some, List, [], ◌∷◌, Bool-cases, inl, inr, ◌==◌,
}
use talos_app.Shared.{Uuid}
use talos_app.Exec.{Exec, Result, ◌>>=◌, lift}
use talos_app.Exec.Frame.{
  IsFixed, still_IsFixed, then-IsFixed, wrapped-IsFixed, pure-IsFixed, raise-IsFixed, if-IsFixed,
}
use talos_app.Domain.Cluster.{Cluster, is_cluster_api}
use talos_app.Domain.GitOps.{ChangeSet}
use talos_app.Domain.Machine.{Machine}
use talos_app.Domain.Workflow.{Workflow}
use talos_app.Platform.{Platform, World, call, tick}
use talos_app.Platform.Rows.{affects}
use talos_app.Platform.Calls.{call-IsFixed, clock-IsFixed}
use talos_app.Ports.{outside, TalosClient, Secrets, PullRequest}
use talos_app.GitOpsRepo.{
  fill_id, change_has_id, get_configuration, get_repository, create_change_set, update_change_set,
  list_change_sets,
}
use talos_app.MachineRepo.Machines.{list_machines}
use talos_app.Provisioning.{
  Deps, RepoInfo, git_ops_repo, latest_change_set, capi_manifests, render_manifest_set,
}
use talos_app.Provisioning.Health.{
  talos_health, register_credentials, check_machines, talos_config, check_talos_health,
  wait_for_cluster_api_ready,
}
use talos_app.Provisioning.Change.{
  commit_manifests, open_pull_request, record_pull_request, commit_cluster_api_change,
  merged_pull_request, record_merge, sync_merged, await_cluster_api_change_merge,
}

module _ {X V : Type 0} (view : Platform X → V)
    (untimed : (s : Platform X) → view (tick s) ≡ view s)
    (unmoved : (s : Platform X) (x : X) → view (record s { outside = x }) ≡ view s)
    (w : World) where
  pub outside-IsFixed : {A : Type 0} (m : Exec X A) → IsFixed view (outside m)
  unfolding outside
  outside-IsFixed m = record { fixed = λ s. unmoved s (m s.outside).1 }

  pub lift-IsFixed : {A : Type 0} (r : Result A) → IsFixed view (lift r)
  unfolding ◌>>=◌
  lift-IsFixed r = still_IsFixed view _ (λ s. refl)

  pub read-IsFixed :
      {A : Type 0} (f : Platform X → Result A) → IsFixed view (call w (λ s. (f s, s)))
  read-IsFixed f = call-IsFixed view untimed w _ (still_IsFixed view _ (λ s. refl))

  pub git_ops_repo-IsFixed : (id : Uuid) → IsFixed view (git_ops_repo w id)
  unfolding git_ops_repo get_configuration get_repository
  git_ops_repo-IsFixed id =
      then-IsFixed view _ _ (wrapped-IsFixed view _ _ (read-IsFixed _)) (λ cfg.
        then-IsFixed view _ _ (wrapped-IsFixed view _ _ (read-IsFixed _))
          (λ repo. pure-IsFixed view _))

  pub latest_change_set-IsFixed : (id : Uuid) → IsFixed view (latest_change_set w id)
  unfolding latest_change_set list_change_sets
  latest_change_set-IsFixed id =
      then-IsFixed view _ _ (wrapped-IsFixed view _ _ (read-IsFixed _)) (λ sets. lift-IsFixed _)

  module _ (d : Deps X) where
    pub capi_manifests-IsFixed : (c : Cluster) → IsFixed view (capi_manifests w d c)
    unfolding capi_manifests
    capi_manifests-IsFixed c = wrapped-IsFixed view _ _ (outside-IsFixed _)

    render_manifest_set-IsFixed :
        (c : Cluster) (repo : RepoInfo) → IsFixed view (render_manifest_set w d c repo)
    unfolding render_manifest_set get_configuration
    render_manifest_set-IsFixed c repo =
        then-IsFixed view _ _ (wrapped-IsFixed view _ _ (read-IsFixed _)) (λ cfg.
          then-IsFixed view _ _ (lift-IsFixed _) (λ files.
            if-IsFixed view (is_cluster_api c.provider_mode) _ _
              (then-IsFixed view _ _ (capi_manifests-IsFixed c) (λ capi. pure-IsFixed view _))
              (pure-IsFixed view _)))

    pub open_pull_request-IsFixed :
        (repo : RepoInfo) (title body head : String)
        → IsFixed view (open_pull_request w d repo title body head)
    unfolding open_pull_request
    open_pull_request-IsFixed repo title body head = wrapped-IsFixed view _ _ (outside-IsFixed _)

    pub merged_pull_request-IsFixed :
        (repo : RepoInfo) (cs : ChangeSet) → IsFixed view (merged_pull_request w d repo cs)
    unfolding merged_pull_request
    merged_pull_request-IsFixed repo cs = then-IsFixed view _ _ (lift-IsFixed _) (λ number.
        then-IsFixed view _ _ (wrapped-IsFixed view _ _ (outside-IsFixed _))
          (λ pr. if-IsFixed view _ _ _ (pure-IsFixed view _) (raise-IsFixed view _)))

    register_credentials-IsFixed :
        (talos : TalosClient X) (config : Option String) (m : Machine)
        → IsFixed view (register_credentials talos config m)
    unfolding register_credentials
    register_credentials-IsFixed talos none m = pure-IsFixed view _
    register_credentials-IsFixed talos (some config) m =
        wrapped-IsFixed view _ _ (outside-IsFixed _)

    check_machines-IsFixed :
        (talos : TalosClient X) (config : Option String) (ms : List Machine)
        → IsFixed view (check_machines talos config ms)
    unfolding check_machines
    check_machines-IsFixed talos config [] = pure-IsFixed view _
    check_machines-IsFixed talos config (m ∷ rest) =
        then-IsFixed view _ _ (register_credentials-IsFixed talos config m) (λ _.
          then-IsFixed view _ _ (wrapped-IsFixed view _ _ (outside-IsFixed _)) (λ healthy.
            if-IsFixed view healthy _ _ (check_machines-IsFixed talos config rest)
              (raise-IsFixed view _)))

    talos_config-IsFixed :
        (secrets : Option (Secrets X)) (c : Cluster) → IsFixed view (talos_config secrets c)
    unfolding talos_config
    talos_config-IsFixed none c = pure-IsFixed view _
    talos_config-IsFixed (some secrets) c = if-IsFixed view _ _ _ (pure-IsFixed view _) (
        then-IsFixed view _ _ (wrapped-IsFixed view _ _ (outside-IsFixed _))
          (λ config. pure-IsFixed view _))

    talos_health-IsFixed :
        (talos : Option (TalosClient X)) (c : Cluster) → IsFixed view (talos_health w d talos c)
    unfolding talos_health list_machines
    talos_health-IsFixed none c = pure-IsFixed view _
    talos_health-IsFixed (some talos) c =
        then-IsFixed view _ _ (wrapped-IsFixed view _ _ (wrapped-IsFixed view _ _ (read-IsFixed _)))
          (λ machines. then-IsFixed view _ _ (talos_config-IsFixed d.secrets c) (λ config.
            then-IsFixed view _ _ (check_machines-IsFixed talos config machines)
              (λ _. pure-IsFixed view _)))

    pub check_talos_health-IsFixed : (c : Cluster) → IsFixed view (check_talos_health w d c)
    unfolding check_talos_health
    check_talos_health-IsFixed c =
        if-IsFixed view d.has_machines _ _ (talos_health-IsFixed d.talos c) (pure-IsFixed view _)

    pub wait_for_cluster_api_ready-IsFixed :
        (c : Cluster) → IsFixed view (wait_for_cluster_api_ready w d c)
    unfolding wait_for_cluster_api_ready
    wait_for_cluster_api_ready-IsFixed c =
        if-IsFixed view (is_cluster_api c.provider_mode) _ _
          (then-IsFixed view _ _ (wrapped-IsFixed view _ _ (outside-IsFixed _))
            (λ statuses. still_IsFixed view _ (λ s. refl)))
          (pure-IsFixed view _)

  module _
      (unlisted : (s : Platform X) (cs : List ChangeSet)
        → view (record s { db = record s.db { change_sets = cs } }) ≡ view s) where
    pub update_change_set-IsFixed : (cs : ChangeSet) → IsFixed view (update_change_set w cs)
    unfolding update_change_set
    update_change_set-IsFixed cs = then-IsFixed view _ _ (clock-IsFixed view untimed w) (λ now.
        call-IsFixed view untimed w _ (record {
          fixed = λ s. elim (Bool-cases (affects (change_has_id cs.id) s.db.change_sets)) [
            | inl b ↦ rw b (unlisted s _)
            | inr b ↦ rw b refl
          ];
        }))

    pub create_change_set-IsFixed : (cs : ChangeSet) → IsFixed view (create_change_set w cs)
    unfolding create_change_set
    create_change_set-IsFixed cs = then-IsFixed view _ _ (clock-IsFixed view untimed w) (λ now.
        then-IsFixed view _ _ filled (λ id. call-IsFixed view untimed w _ (record {
          fixed = λ s. elim (Bool-cases (affects (change_has_id id) s.db.change_sets)) [
            | inl b ↦ rw b refl
            | inr b ↦ rw b (unlisted s _)
          ];
        })))
      where
        filled : IsFixed view (fill_id w cs.id)
        filled = record {
          fixed =
              λ s. elim (Bool-cases (cs.id == 0)) [ inl b ↦ rw b (untimed s) | inr b ↦ rw b refl ];
        }

    module _ (d : Deps X) where
      pub commit_manifests-IsFixed :
          (c : Cluster) (wf : Workflow) (repo : RepoInfo) (branch description : String)
          → IsFixed view (commit_manifests w d c wf repo branch description)
      unfolding commit_manifests
      commit_manifests-IsFixed c wf repo branch description =
          then-IsFixed view _ _ (wrapped-IsFixed view _ _ (render_manifest_set-IsFixed d c repo))
            (λ files. then-IsFixed view _ _ (wrapped-IsFixed view _ _ (outside-IsFixed _)) (λ _.
              then-IsFixed view _ _ (wrapped-IsFixed view _ _ (outside-IsFixed _))
                (λ sha. wrapped-IsFixed view _ _ (create_change_set-IsFixed _))))

      pub record_pull_request-IsFixed :
          (pr : PullRequest) (cs : ChangeSet) → IsFixed view (record_pull_request w d pr cs)
      unfolding record_pull_request
      record_pull_request-IsFixed pr cs = wrapped-IsFixed view _ _ (update_change_set-IsFixed _)

      pub commit_cluster_api_change-IsFixed :
          (c : Cluster) (wf : Workflow) (operation description : String)
          → IsFixed view (commit_cluster_api_change w d c wf operation description)
      unfolding commit_cluster_api_change
      commit_cluster_api_change-IsFixed c wf operation description =
          if-IsFixed view (is_cluster_api c.provider_mode) _ _
            (then-IsFixed view _ _ (git_ops_repo-IsFixed c.id) (λ repo.
              then-IsFixed view _ _ (commit_manifests-IsFixed c wf repo _ description) (λ cs.
                then-IsFixed view _ _ (open_pull_request-IsFixed d repo _ _ _) (λ pr.
                  then-IsFixed view _ _ (record_pull_request-IsFixed pr cs)
                    (λ _. pure-IsFixed view _)))))
            (pure-IsFixed view _)

      pub record_merge-IsFixed : (cs : ChangeSet) → IsFixed view (record_merge w d cs)
      unfolding record_merge
      record_merge-IsFixed cs = wrapped-IsFixed view _ _ (update_change_set-IsFixed _)

      sync_merged-IsFixed : (c : Cluster) (cs : ChangeSet) → IsFixed view (sync_merged w d c cs)
      unfolding sync_merged
      sync_merged-IsFixed c cs =
          if-IsFixed view c.spec.argocd.enabled _ _
            (then-IsFixed view _ _ (wrapped-IsFixed view _ _ (outside-IsFixed _)) (λ _.
              then-IsFixed view _ _ (wrapped-IsFixed view _ _ (update_change_set-IsFixed _))
                (λ _. pure-IsFixed view _)))
            (pure-IsFixed view _)

      pub await_cluster_api_change_merge-IsFixed :
          (c : Cluster) → IsFixed view (await_cluster_api_change_merge w d c)
      unfolding await_cluster_api_change_merge
      await_cluster_api_change_merge-IsFixed c =
          if-IsFixed view (is_cluster_api c.provider_mode) _ _
            (then-IsFixed view _ _ (latest_change_set-IsFixed c.id) (λ cs.
              then-IsFixed view _ _ (git_ops_repo-IsFixed c.id) (λ repo.
                then-IsFixed view _ _ (merged_pull_request-IsFixed d repo cs) (λ _.
                  then-IsFixed view _ _ (record_merge-IsFixed cs)
                    (λ done. sync_merged-IsFixed c done)))))
            (pure-IsFixed view _)
