-- ===== src/Provisioning/Apart.antt =====
-- What no step of internal/workflows/cluster_provision.go, cluster_upgrade.go and worker_scale.go moves:
-- the tables of the engine and its topic.
use talos_app.Prelude.{◌≡◌, refl, List, ◌++◌}
use talos_app.Exec.Frame.{IsFixed}
use talos_app.Domain.Cluster.{Cluster}
use talos_app.Domain.GitOps.{ChangeSet}
use talos_app.Domain.Workflow.{Workflow}
use talos_app.Platform.{Platform, World, tick}
use talos_app.Platform.Rows.Lookup.{In, All, All-In, All-++, All-three}
use talos_app.Engine.{StepDefinition}
use talos_app.Engine.Outcome.{LeavesRuns}
use talos_app.Provisioning.Scale.{scale_definition}
use talos_app.Provisioning.Steps.{provision_definition}
use talos_app.Provisioning.Upgrade.{upgrade_definition}
use talos_app.Provisioning.Untouched.{
  validate_request-IsFixed, validate_infrastructure-IsFixed, validate_ip_allocation-IsFixed,
  generate_argocd_configuration-IsFixed, check_kubernetes_health-IsFixed,
  check_cluster_operators-IsFixed, upgrade_control_plane-IsFixed, upgrade_workers-IsFixed,
  validate_scale_request-IsFixed, apply_scale-IsFixed, generate_capi_manifests-IsFixed,
  commit_to_git-IsFixed, create_pull_request-IsFixed, wait_for_argocd_sync-IsFixed,
  wait_for_cluster_api-IsFixed, commit_capi_upgrade-IsFixed, commit_capi_scale-IsFixed,
  await_capi_merge-IsFixed,
}
use talos_app.Provisioning.{Deps}
use talos_app.Provisioning.Written.{
  cluster_step-IsFixed, with_workflow-IsFixed, generate_talos_configuration-IsFixed,
  begin_upgrade-IsFixed, verify_and_mark_ready-IsFixed, mark_ready-IsFixed, check_talos-IsFixed,
  await_pull_request_merge-IsFixed,
}

-- A part of the state in which neither the count of the questions shows, nor the systems outside, nor
-- the tables of change sets and of clusters.
module _ {X V : Type 0} (view : Platform X → V)
    (untimed : (s : Platform X) → view (tick s) ≡ view s)
    (unmoved : (s : Platform X) (x : X) → view (record s { outside = x }) ≡ view s)
    (unlisted : (s : Platform X) (cs : List ChangeSet)
      → view (record s { db = record s.db { change_sets = cs } }) ≡ view s)
    (unkept : (s : Platform X) (cs : List Cluster)
      → view (record s { db = record s.db { clusters = cs } }) ≡ view s)
    (w : World) (d : Deps X) where
  abbrev Leaves : StepDefinition X → Type 0
  Leaves st = (wf : Workflow) → IsFixed view (st.run wf)

  pub provision-Leaves : All Leaves (provision_definition w d).steps
  unfolding provision_definition
  provision-Leaves = (
    cluster_step-IsFixed view untimed unmoved unlisted unkept w d _
        (validate_request-IsFixed view untimed unmoved unlisted w),
    (
      cluster_step-IsFixed view untimed unmoved unlisted unkept w d _
          (validate_infrastructure-IsFixed view untimed unmoved unlisted w),
      (
        cluster_step-IsFixed view untimed unmoved unlisted unkept w d _
            (validate_ip_allocation-IsFixed view untimed unmoved unlisted w),
        (
          cluster_step-IsFixed view untimed unmoved unlisted unkept w d _
              (generate_talos_configuration-IsFixed view untimed unmoved unlisted unkept w d),
          (
            cluster_step-IsFixed view untimed unmoved unlisted unkept w d _
                (generate_capi_manifests-IsFixed view untimed unmoved unlisted w d),
            (
              cluster_step-IsFixed view untimed unmoved unlisted unkept w d _
                  (generate_argocd_configuration-IsFixed view untimed unmoved unlisted w),
              (
                with_workflow-IsFixed view untimed unmoved unlisted unkept w d _
                    (λ c wf. commit_to_git-IsFixed view untimed unmoved unlisted w d c wf),
                (
                  cluster_step-IsFixed view untimed unmoved unlisted unkept w d _
                      (create_pull_request-IsFixed view untimed unmoved unlisted w d),
                  (
                    cluster_step-IsFixed view untimed unmoved unlisted unkept w d _
                        (await_pull_request_merge-IsFixed view untimed unmoved unlisted unkept w d),
                    (
                      cluster_step-IsFixed view untimed unmoved unlisted unkept w d _
                          (wait_for_argocd_sync-IsFixed view untimed unmoved unlisted w d),
                      (
                        cluster_step-IsFixed view untimed unmoved unlisted unkept w d _
                            (wait_for_cluster_api-IsFixed view untimed unmoved unlisted w d),
                        (
                          cluster_step-IsFixed view untimed unmoved unlisted unkept w d _
                              (check_talos-IsFixed view untimed unmoved unlisted unkept w d),
                          (
                            cluster_step-IsFixed view untimed unmoved unlisted unkept w d _
                                (check_kubernetes_health-IsFixed view untimed unmoved unlisted w),
                            (
                              cluster_step-IsFixed view untimed unmoved unlisted unkept w d _
                                  (check_cluster_operators-IsFixed view untimed unmoved unlisted w),
                              (
                                cluster_step-IsFixed view untimed unmoved unlisted unkept w d _
                                    (mark_ready-IsFixed view untimed unmoved unlisted unkept w d),
                                tt,
                              ),
                            ),
                          ),
                        ),
                      ),
                    ),
                  ),
                ),
              ),
            ),
          ),
        ),
      ),
    ),
  )

  pub upgrade-Leaves : All Leaves (upgrade_definition w d).steps
  unfolding upgrade_definition
  upgrade-Leaves = (
    cluster_step-IsFixed view untimed unmoved unlisted unkept w d _
        (begin_upgrade-IsFixed view untimed unmoved unlisted unkept w d),
    (
      cluster_step-IsFixed view untimed unmoved unlisted unkept w d _
          (upgrade_control_plane-IsFixed view untimed unmoved unlisted w),
      (
        cluster_step-IsFixed view untimed unmoved unlisted unkept w d _
            (upgrade_workers-IsFixed view untimed unmoved unlisted w),
        (
          with_workflow-IsFixed view untimed unmoved unlisted unkept w d _
              (λ c wf. commit_capi_upgrade-IsFixed view untimed unmoved unlisted w d c wf),
          (
            cluster_step-IsFixed view untimed unmoved unlisted unkept w d _
                (await_capi_merge-IsFixed view untimed unmoved unlisted w d),
            (
              cluster_step-IsFixed view untimed unmoved unlisted unkept w d _
                  (wait_for_cluster_api-IsFixed view untimed unmoved unlisted w d),
              (
                cluster_step-IsFixed view untimed unmoved unlisted unkept w d _
                    (verify_and_mark_ready-IsFixed view untimed unmoved unlisted unkept w d),
                tt,
              ),
            ),
          ),
        ),
      ),
    ),
  )

  pub scale-Leaves : All Leaves (scale_definition w d).steps
  unfolding scale_definition
  scale-Leaves = (
    cluster_step-IsFixed view untimed unmoved unlisted unkept w d _
        (validate_scale_request-IsFixed view untimed unmoved unlisted w),
    (
      cluster_step-IsFixed view untimed unmoved unlisted unkept w d _
          (apply_scale-IsFixed view untimed unmoved unlisted w),
      (
        with_workflow-IsFixed view untimed unmoved unlisted unkept w d _
            (λ c wf. commit_capi_scale-IsFixed view untimed unmoved unlisted w d c wf),
        (
          cluster_step-IsFixed view untimed unmoved unlisted unkept w d _
              (await_capi_merge-IsFixed view untimed unmoved unlisted w d),
          (
            cluster_step-IsFixed view untimed unmoved unlisted unkept w d _
                (wait_for_cluster_api-IsFixed view untimed unmoved unlisted w d),
            tt,
          ),
        ),
      ),
    ),
  )

module _ {X : Type 0} (w : World) (d : Deps X) where
  leaves :
      (st : StepDefinition X)
      → Leaves (λ y. y.db.workflows) (λ y. refl) (λ y x. refl) (λ y cs. refl) (λ y cs. refl) w d st
      → Leaves (λ y. y.db.steps) (λ y. refl) (λ y x. refl) (λ y cs. refl) (λ y cs. refl) w d st
      → Leaves (λ y. y.dispatches) (λ y. refl) (λ y x. refl) (λ y cs. refl) (λ y cs. refl) w d st
      → LeavesRuns st.run
  leaves st p q r = record {
    workflows = λ wf s. (p wf).fixed s;
    steps = λ wf s. (q wf).fixed s;
    dispatches = λ wf s. (r wf).fixed s;
  }

  pub provision-LeavesRuns : All (λ st. LeavesRuns st.run) (provision_definition w d).steps
  provision-LeavesRuns =
      All-three (provision_definition w d).steps leaves
        (provision-Leaves (λ y. y.db.workflows) (λ y. refl) (λ y x. refl) (λ y cs. refl)
          (λ y cs. refl) w d)
        (provision-Leaves (λ y. y.db.steps) (λ y. refl) (λ y x. refl) (λ y cs. refl) (λ y cs. refl)
          w d)
        (provision-Leaves (λ y. y.dispatches) (λ y. refl) (λ y x. refl) (λ y cs. refl)
          (λ y cs. refl) w d)

  pub upgrade-LeavesRuns : All (λ st. LeavesRuns st.run) (upgrade_definition w d).steps
  upgrade-LeavesRuns =
      All-three (upgrade_definition w d).steps leaves
        (upgrade-Leaves (λ y. y.db.workflows) (λ y. refl) (λ y x. refl) (λ y cs. refl)
          (λ y cs. refl) w d)
        (upgrade-Leaves (λ y. y.db.steps) (λ y. refl) (λ y x. refl) (λ y cs. refl) (λ y cs. refl) w
          d)
        (upgrade-Leaves (λ y. y.dispatches) (λ y. refl) (λ y x. refl) (λ y cs. refl) (λ y cs. refl)
          w d)

  pub scale-LeavesRuns : All (λ st. LeavesRuns st.run) (scale_definition w d).steps
  scale-LeavesRuns =
      All-three (scale_definition w d).steps leaves
        (scale-Leaves (λ y. y.db.workflows) (λ y. refl) (λ y x. refl) (λ y cs. refl) (λ y cs. refl)
          w d)
        (scale-Leaves (λ y. y.db.steps) (λ y. refl) (λ y x. refl) (λ y cs. refl) (λ y cs. refl) w d)
        (scale-Leaves (λ y. y.dispatches) (λ y. refl) (λ y x. refl) (λ y cs. refl) (λ y cs. refl) w
          d)

  -- The steps of the three definitions that cmd/platform-worker registers.
  abbrev pub program_steps : List (StepDefinition X)
  program_steps =
      (provision_definition w d).steps
      ++ ((upgrade_definition w d).steps ++ (scale_definition w d).steps)

  -- Whatever calls fail, whatever the systems outside answer, whichever run it is, and whether it
  -- returns an output or an error: a step of the provisioning, the upgrade or the scaling of a cluster
  -- leaves the tables of runs and of steps and the topic of the engine as they were.
  pub steps_leave_runs : (st : StepDefinition X) → In st program_steps → LeavesRuns st.run
  steps_leave_runs st i =
      All-In (λ y. LeavesRuns y.run) program_steps st
        (All-++ _ _ _ provision-LeavesRuns (All-++ _ _ _ upgrade-LeavesRuns scale-LeavesRuns)) i
