-- ===== src/Provisioning/Table.antt =====
-- What the steps of internal/workflows/cluster_provision.go, cluster_upgrade.go and worker_scale.go do to
-- the table of clusters.
use talos_app.Prelude.{◌≡◌, refl, Option, some, List, ◌++◌}
use talos_app.Shared.{Uuid}
use talos_app.Exec.{Result, ok, err}
use talos_app.Exec.Triple.{After}
use talos_app.Domain.Cluster.{
  Cluster, State, bootstrapping, installing, configuring, ready, upgrading,
}
use talos_app.Domain.Workflow.{Workflow}
use talos_app.Platform.{Platform, World}
use talos_app.Platform.Rows.Lookup.{In, All, All-In, All-++}
use talos_app.Engine.{StepDefinition}
use talos_app.Provisioning.Scale.{scale_definition}
use talos_app.Provisioning.Steps.{provision_definition}
use talos_app.Provisioning.Upgrade.{upgrade_definition}
use talos_app.Provisioning.Untouched.{
  validate_request-IsFixed, validate_infrastructure-IsFixed, validate_ip_allocation-IsFixed,
  generate_argocd_configuration-IsFixed, check_kubernetes_health-IsFixed,
  check_cluster_operators-IsFixed, upgrade_control_plane-IsFixed, upgrade_workers-IsFixed,
  validate_scale_request-IsFixed, apply_scale-IsFixed, generate_capi_manifests-IsFixed,
  commit_to_git-IsFixed, create_pull_request-IsFixed, wait_for_argocd_sync-IsFixed,
  wait_for_cluster_api-IsFixed, commit_capi_upgrade-IsFixed, commit_capi_scale-IsFixed,
  await_capi_merge-IsFixed,
}
use talos_app.Provisioning.{Deps}
use talos_app.Provisioning.Goals.{
  Follows, IsEffect, clusters_of, with_goals, provision_goals, upgrade_goals, scale_goals,
  look-Follows, looks_with-Follows, step-Follows, generate_talos_configuration-Goes,
  begin_upgrade-Goes, verify_and_mark_ready-Goes, mark_ready-Goes, check_talos-Goes,
  await_pull_request_merge-Goes,
}

module _ {X : Type 0} (w : World) (id : Uuid) (rows : List Cluster) (d : Deps X) where
  provision-Follows :
      All (Follows w id rows) (with_goals (provision_definition w d).steps provision_goals)
  unfolding provision_definition
  provision-Follows = (
    look-Follows w id rows _
        (validate_request-IsFixed clusters_of (λ s. refl) (λ s x. refl) (λ s cs. refl) w),
    (
      look-Follows w id rows _
          (validate_infrastructure-IsFixed clusters_of (λ s. refl) (λ s x. refl) (λ s cs. refl) w),
      (
        look-Follows w id rows _
            (validate_ip_allocation-IsFixed clusters_of (λ s. refl) (λ s x. refl) (λ s cs. refl) w),
        (
          step-Follows w id rows bootstrapping _ (generate_talos_configuration-Goes w id rows),
          (
            look-Follows w id rows _ (
                generate_capi_manifests-IsFixed clusters_of (λ s. refl) (λ s x. refl) (λ s cs. refl)
                  w d),
            (
              look-Follows w id rows _ (
                  generate_argocd_configuration-IsFixed clusters_of (λ s. refl) (λ s x. refl)
                    (λ s cs. refl) w),
              (
                looks_with-Follows w id rows _ (λ c wf.
                    (commit_to_git-IsFixed clusters_of (λ s. refl) (λ s x. refl) (λ s cs. refl) w d
                      c wf)),
                (
                  look-Follows w id rows _ (
                      create_pull_request-IsFixed clusters_of (λ s. refl) (λ s x. refl)
                        (λ s cs. refl) w d),
                  (
                    step-Follows w id rows installing _ (await_pull_request_merge-Goes w id rows d),
                    (
                      look-Follows w id rows _ (
                          wait_for_argocd_sync-IsFixed clusters_of (λ s. refl) (λ s x. refl)
                            (λ s cs. refl) w d),
                      (
                        look-Follows w id rows _ (
                            wait_for_cluster_api-IsFixed clusters_of (λ s. refl) (λ s x. refl)
                              (λ s cs. refl) w d),
                        (
                          step-Follows w id rows configuring _ (check_talos-Goes w id rows d),
                          (
                            look-Follows w id rows _ (
                                check_kubernetes_health-IsFixed clusters_of (λ s. refl)
                                  (λ s x. refl) (λ s cs. refl) w),
                            (
                              look-Follows w id rows _ (
                                  check_cluster_operators-IsFixed clusters_of (λ s. refl)
                                    (λ s x. refl) (λ s cs. refl) w),
                              (step-Follows w id rows ready _ (mark_ready-Goes w id rows), tt),
                            ),
                          ),
                        ),
                      ),
                    ),
                  ),
                ),
              ),
            ),
          ),
        ),
      ),
    ),
  )

  upgrade-Follows :
      All (Follows w id rows) (with_goals (upgrade_definition w d).steps upgrade_goals)
  unfolding upgrade_definition
  upgrade-Follows = (
    step-Follows w id rows upgrading _ (begin_upgrade-Goes w id rows),
    (
      look-Follows w id rows _
          (upgrade_control_plane-IsFixed clusters_of (λ s. refl) (λ s x. refl) (λ s cs. refl) w),
      (
        look-Follows w id rows _
            (upgrade_workers-IsFixed clusters_of (λ s. refl) (λ s x. refl) (λ s cs. refl) w),
        (
          looks_with-Follows w id rows _ (λ c wf.
              (commit_capi_upgrade-IsFixed clusters_of (λ s. refl) (λ s x. refl) (λ s cs. refl) w d
                c wf)),
          (
            look-Follows w id rows _
                (await_capi_merge-IsFixed clusters_of (λ s. refl) (λ s x. refl) (λ s cs. refl) w d),
            (
              look-Follows w id rows _ (
                  wait_for_cluster_api-IsFixed clusters_of (λ s. refl) (λ s x. refl) (λ s cs. refl)
                    w d),
              (step-Follows w id rows ready _ (verify_and_mark_ready-Goes w id rows), tt),
            ),
          ),
        ),
      ),
    ),
  )

  scale-Follows : All (Follows w id rows) (with_goals (scale_definition w d).steps scale_goals)
  unfolding scale_definition
  scale-Follows = (
    look-Follows w id rows _
        (validate_scale_request-IsFixed clusters_of (λ s. refl) (λ s x. refl) (λ s cs. refl) w),
    (
      look-Follows w id rows _
          (apply_scale-IsFixed clusters_of (λ s. refl) (λ s x. refl) (λ s cs. refl) w),
      (
        looks_with-Follows w id rows _ (λ c wf.
            (commit_capi_scale-IsFixed clusters_of (λ s. refl) (λ s x. refl) (λ s cs. refl) w d c
              wf)),
        (
          look-Follows w id rows _
              (await_capi_merge-IsFixed clusters_of (λ s. refl) (λ s x. refl) (λ s cs. refl) w d),
          (
            look-Follows w id rows _ (
                wait_for_cluster_api-IsFixed clusters_of (λ s. refl) (λ s x. refl) (λ s cs. refl) w
                  d),
            tt,
          ),
        ),
      ),
    ),
  )

module _ {X : Type 0} (w : World) (d : Deps X) where
  unsettle :
      {A : Type 0} (held : Platform X → Type 0) (r : Result A) (s : Platform X)
      → After (λ a. held) held r s
      → held s
  unsettle held (ok a) s h = h
  unsettle held (err x) s h = h

  -- The steps of the three definitions that cmd/platform-worker registers, each with the state of its
  -- stage.
  abbrev pub registered_steps : List (StepDefinition X × Option State)
  registered_steps =
      with_goals (provision_definition w d).steps provision_goals
      ++ (with_goals (upgrade_definition w d).steps upgrade_goals
          ++ with_goals (scale_definition w d).steps scale_goals)

  -- Whatever calls fail, whatever the systems outside answer, and whether it succeeds or not: a step of
  -- the provisioning, the upgrade or the scaling of a cluster that its stage gives no state leaves the
  -- table of clusters as it was; a step that its stage gives a state leaves the table as it was, or
  -- writes the row of that cluster once and no other, with that state, where the transition table has
  -- an edge to it from the state the row had.
  pub steps_follow_table :
      (id : Uuid) (wf : Workflow) (st : StepDefinition X) (goal : Option State) (s : Platform X)
      → wf.cluster_id ≡ some id
      → In (st, goal) registered_steps
      → IsEffect goal id s.db.clusters (st.run wf s).1.db.clusters
  steps_follow_table id wf st goal s h i =
      unsettle (λ y. IsEffect goal id s.db.clusters y.db.clusters) (st.run wf s).0 _
        ((All-In (Follows w id s.db.clusters) registered_steps (st, goal) all i wf h).leads s refl)
    where
      all : All (Follows w id s.db.clusters) registered_steps
      all =
          All-++ _ _ _ (provision-Follows w id s.db.clusters d) (
            All-++ _ _ _ (upgrade-Follows w id s.db.clusters d)
              (scale-Follows w id s.db.clusters d))
