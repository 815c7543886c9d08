-- ===== src/Provisioning/Written.antt =====
-- What a step of internal/workflows/cluster_provision.go, cluster_upgrade.go or worker_scale.go leaves
-- alone, that may write the cluster.
use talos_app.Prelude.{◌≡◌, refl, Option, none, some, List, Bool-cases, inl, inr}
use talos_app.Shared.{Uuid, JsonMap}
use talos_app.Exec.{Exec}
use talos_app.Exec.Frame.{
  IsFixed, then-IsFixed, wrapped-IsFixed, pure-IsFixed, raise-IsFixed, if-IsFixed,
}
use talos_app.Domain.Cluster.{Cluster, State, state_eq}
use talos_app.Domain.GitOps.{ChangeSet}
use talos_app.Domain.Workflow.{Workflow}
use talos_app.Platform.{Platform, World, tick}
use talos_app.Platform.Calls.{clock-IsFixed}
use talos_app.Platform.Rows.{affects}
use talos_app.ClusterRepo
use talos_app.ClusterRepo.{cluster_has_id}
use talos_app.Provisioning.Frame.{
  read-IsFixed, lift-IsFixed, git_ops_repo-IsFixed, latest_change_set-IsFixed,
  merged_pull_request-IsFixed, record_merge-IsFixed, check_talos_health-IsFixed,
}
use talos_app.Provisioning.Steps.{
  generate_talos_configuration, mark_ready, await_pull_request_merge, check_talos,
}
use talos_app.Provisioning.Upgrade.{begin_upgrade, verify_and_mark_ready}
use talos_app.Provisioning.{
  Deps, with_cluster, cluster_step, cluster_step_with_workflow, transition_and_save,
}

-- A part of the state in which neither the count of the questions shows, nor the systems outside, nor
-- the tables of change sets and of clusters.
module _ {X V : Type 0} (view : Platform X → V)
    (untimed : (s : Platform X) → view (tick s) ≡ view s)
    (unmoved : (s : Platform X) (x : X) → view (record s { outside = x }) ≡ view s)
    (unlisted : (s : Platform X) (cs : List ChangeSet)
      → view (record s { db = record s.db { change_sets = cs } }) ≡ view s)
    (unkept : (s : Platform X) (cs : List Cluster)
      → view (record s { db = record s.db { clusters = cs } }) ≡ view s)
    (w : World) (d : Deps X) where
  with_cluster-IsFixed :
      (o : Option Uuid) (fn : Cluster → Exec (Platform X) JsonMap)
      → ((c : Cluster) → IsFixed view (fn c))
      → IsFixed view (with_cluster w o fn)
  unfolding with_cluster ClusterRepo.get
  with_cluster-IsFixed none fn k = raise-IsFixed view _
  with_cluster-IsFixed (some id) fn k =
      then-IsFixed view _ _ (wrapped-IsFixed view _ _ (read-IsFixed view untimed unmoved w _)) k

  pub cluster_step-IsFixed :
      (fn : Cluster → Exec (Platform X) JsonMap)
      → ((c : Cluster) → IsFixed view (fn c))
      → (wf : Workflow) → IsFixed view (cluster_step w fn wf)
  unfolding cluster_step
  cluster_step-IsFixed fn k wf = with_cluster-IsFixed wf.cluster_id fn k

  pub with_workflow-IsFixed :
      (fn : Cluster → Workflow → Exec (Platform X) JsonMap)
      → ((c : Cluster) (wf : Workflow) → IsFixed view (fn c wf))
      → (wf : Workflow) → IsFixed view (cluster_step_with_workflow w fn wf)
  unfolding cluster_step_with_workflow
  with_workflow-IsFixed fn k wf = with_cluster-IsFixed wf.cluster_id _ (λ c. k c wf)

  update-IsFixed : (c : Cluster) → IsFixed view (ClusterRepo.update w c)
  unfolding ClusterRepo.update
  update-IsFixed c = then-IsFixed view _ _ (clock-IsFixed view untimed w) (λ now.
      then-IsFixed view _ _ (wrapped-IsFixed view _ _ (read-IsFixed view untimed unmoved w _)) (λ _.
        record {
          fixed = λ s. elim (Bool-cases (affects (cluster_has_id c.id) s.db.clusters)) [
            | inl b ↦ rw b (unkept s _)
            | inr b ↦ rw b refl
          ];
        }))

  transition_and_save-IsFixed :
      (next : State) (c : Cluster) → IsFixed view (transition_and_save w next c)
  unfolding transition_and_save
  transition_and_save-IsFixed next c =
      if-IsFixed view (state_eq c.state next) _ _ (pure-IsFixed view c) (
        then-IsFixed view _ _ (clock-IsFixed view untimed w) (λ now.
          then-IsFixed view _ _ (wrapped-IsFixed view _ _ (lift-IsFixed view untimed unmoved w _))
            (λ moved. then-IsFixed view _ _ (update-IsFixed moved) (λ _. pure-IsFixed view _))))

  pub generate_talos_configuration-IsFixed :
      (c : Cluster) → IsFixed view (generate_talos_configuration w c)
  unfolding generate_talos_configuration
  generate_talos_configuration-IsFixed c =
      then-IsFixed view _ _ (transition_and_save-IsFixed _ c) (λ moved. pure-IsFixed view _)

  pub begin_upgrade-IsFixed : (c : Cluster) → IsFixed view (begin_upgrade w c)
  unfolding begin_upgrade
  begin_upgrade-IsFixed c =
      then-IsFixed view _ _ (transition_and_save-IsFixed _ c) (λ moved. pure-IsFixed view _)

  pub verify_and_mark_ready-IsFixed : (c : Cluster) → IsFixed view (verify_and_mark_ready w c)
  unfolding verify_and_mark_ready
  verify_and_mark_ready-IsFixed c =
      then-IsFixed view _ _ (wrapped-IsFixed view _ _ (transition_and_save-IsFixed _ c))
        (λ moved. pure-IsFixed view _)

  pub mark_ready-IsFixed : (c : Cluster) → IsFixed view (mark_ready w c)
  unfolding mark_ready
  mark_ready-IsFixed c = then-IsFixed view _ _ (clock-IsFixed view untimed w) (λ now.
      then-IsFixed view _ _ (wrapped-IsFixed view _ _ (lift-IsFixed view untimed unmoved w _))
        (λ moved.
          then-IsFixed view _ _ (wrapped-IsFixed view _ _ (update-IsFixed moved))
            (λ _. pure-IsFixed view _)))

  pub check_talos-IsFixed : (c : Cluster) → IsFixed view (check_talos w d c)
  unfolding check_talos
  check_talos-IsFixed c = then-IsFixed view _ _ (transition_and_save-IsFixed _ c) (λ moved.
      then-IsFixed view _ _ (check_talos_health-IsFixed view untimed unmoved w d moved)
        (λ checked. pure-IsFixed view _))

  pub await_pull_request_merge-IsFixed :
      (c : Cluster) → IsFixed view (await_pull_request_merge w d c)
  unfolding await_pull_request_merge
  await_pull_request_merge-IsFixed c =
      then-IsFixed view _ _ (git_ops_repo-IsFixed view untimed unmoved w c.id) (λ repo.
        then-IsFixed view _ _ (latest_change_set-IsFixed view untimed unmoved w c.id) (λ cs.
          then-IsFixed view _ _ (merged_pull_request-IsFixed view untimed unmoved w d repo cs)
            (λ number.
              then-IsFixed view _ _ (record_merge-IsFixed view untimed unmoved w unlisted d cs)
                (λ _.
                  then-IsFixed view _ _ (transition_and_save-IsFixed _ c)
                    (λ moved. pure-IsFixed view _)))))
