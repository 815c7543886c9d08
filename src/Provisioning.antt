-- ===== src/Provisioning.antt =====
-- internal/workflows/cluster_provision.go: what the steps of the workflow definitions share.
pub mod PullRequest
pub mod Health
pub mod Change
pub mod Steps
pub mod Upgrade
pub mod Scale
pub mod Frame
pub mod Untouched
pub mod Written
pub mod Apart
pub mod Goals
pub mod Table
use talos_app.Prelude.{
  String, Bool, Option, none, some, List, [], ◌∷◌, ◌++◌, map, str_append, if◌then◌else◌,
}
use talos_app.Shared.{Uuid, wrap, text, JsonMap}
use talos_app.Exec.{Exec, Result, ok, err, pure, raise, lift, wrapped, ◌>>=◌, ◌>>◌}
use talos_app.Domain.Cluster.{Cluster, State, state_eq, transition, is_cluster_api}
use talos_app.Domain.GitOps.{ChangeSet}
use talos_app.Domain.Workflow.{Workflow}
use talos_app.Platform.{Platform, World, clock}
use talos_app.Ports.{
  FileChange, GitProvider, ArgoCdClient, ClusterApiProvider, TalosClient, Secrets, outside,
}
use talos_app.ClusterRepo
use talos_app.GitOpsRepo.{get_configuration, get_repository, list_change_sets}
use talos_app.Render.{Document, render_cluster_manifests}
use talos_app.Engine.{StepDefinition}

-- `ClusterProvisionDeps`; `talos` and `secrets` are absent where the field is nil, and `has_machines`
-- is that `Machines` is not.
pub record Deps (X : Type 0) : Type 0 where
  pub marshal : Document → Result String
  pub git : GitProvider X
  pub argocd : ArgoCdClient X
  pub cluster_api : ClusterApiProvider X
  pub talos : Option (TalosClient X)
  pub secrets : Option (Secrets X)
  pub has_machines : Bool

-- `gitRepoInfo`
pub record RepoInfo : Type 0 where
  pub owner : String
  pub name : String
  pub default_branch : String

unfoldable pub provision_branch : Cluster → String
provision_branch c = str_append "platform/cluster-" c.name

abbrev pub file_paths : List FileChange → List String
file_paths files = map (λ f. f.path) files

-- The head of a listing of one change set.
unfoldable pub newest : List ChangeSet → Result ChangeSet
newest [] = err (text "no change set found for cluster %s")
newest (c ∷ rest) = ok c

module _ {X : Type 0} (w : World) where
  with_cluster : Option Uuid → (Cluster → Exec (Platform X) JsonMap) → Exec (Platform X) JsonMap
  with_cluster none fn = raise (text "workflow has no associated cluster")
  with_cluster (some id) fn = do c ← wrapped "loading cluster %s" (ClusterRepo.get w id); fn c

  -- `clusterStepWithWorkflow`
  unfoldable pub cluster_step_with_workflow :
      (Cluster → Workflow → Exec (Platform X) JsonMap) → Workflow → Exec (Platform X) JsonMap
  unfolding with_cluster
  cluster_step_with_workflow fn wf = with_cluster wf.cluster_id (λ c. fn c wf)

  unfoldable pub cluster_step :
      (Cluster → Exec (Platform X) JsonMap) → Workflow → Exec (Platform X) JsonMap
  unfolding with_cluster
  cluster_step fn wf = with_cluster wf.cluster_id fn

  abbrev pub step : String → (Cluster → Exec (Platform X) JsonMap) → StepDefinition X
  step name fn = record { name = name; run = cluster_step fn }

  -- `transitionAndSave`; it answers with the cluster as the caller's pointer then shows it.
  unfoldable pub transition_and_save : State → Cluster → Exec (Platform X) Cluster
  transition_and_save next c = if state_eq c.state next then pure c else (do
    now ← clock w
    moved ← wrapped "transitioning cluster to %s" (lift (transition now next c))
    ClusterRepo.update w moved
    pure moved)

  unfoldable pub git_ops_repo : Uuid → Exec (Platform X) RepoInfo
  git_ops_repo cluster = do
    cfg ← wrapped "loading gitops configuration" (get_configuration w cluster)
    repo ← wrapped "loading git repository" (get_repository w cfg.repository_id)
    pure (record { owner = repo.owner; name = repo.name; default_branch = repo.default_branch })

  unfoldable pub latest_change_set : Uuid → Exec (Platform X) ChangeSet
  latest_change_set cluster = do
    sets ←
        wrapped "listing change sets"
          (list_change_sets w cluster (record { limit = 1; offset = 0 }))
    lift (newest sets)

  module _ (d : Deps X) where
    unfoldable pub capi_manifests : Cluster → Exec (Platform X) (List FileChange)
    capi_manifests c =
        wrapped "rendering CAPI manifests" (outside (d.cluster_api.render_manifests c))

    unfoldable pub render_manifest_set : Cluster → RepoInfo → Exec (Platform X) (List FileChange)
    render_manifest_set c repo = do
      cfg ← wrapped "loading gitops configuration" (get_configuration w c.id)
      files ← lift (
          render_cluster_manifests d.marshal (record {
            cluster = c;
            gitops_path = cfg.path;
            repo_url =
                str_append "https://github.com/"
                  (str_append repo.owner (str_append "/" (str_append repo.name ".git")));
            default_branch = repo.default_branch;
          }))
      if is_cluster_api c.provider_mode
          then (do capi ← capi_manifests c; pure (files ++ capi))
          else pure files
