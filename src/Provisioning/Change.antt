-- ===== src/Provisioning/Change.antt =====
-- internal/workflows/capi_change.go: a change of the desired state of a Cluster API cluster goes
-- through a commit, a pull request, and its merge.
use talos_app.Prelude.{String, some, List, str_append, str_eq, if◌then◌else◌, ℤ}
use talos_app.Shared.{sentinel, awaiting_approval, zero_id, no_timestamps}
use talos_app.Exec.{Exec, pure, raise, lift, wrapped, ◌>>=◌, ◌>>◌}
use talos_app.Domain.Cluster.{Cluster, is_cluster_api}
use talos_app.Domain.GitOps.{ChangeSet, ChangeSetStatus}
use talos_app.Domain.Workflow.{Workflow}
use talos_app.Platform.{Platform, World}
use talos_app.Ports.{FileChange, PullRequest, outside}
use talos_app.GitOpsRepo.{create_change_set, update_change_set}
use talos_app.Provisioning.PullRequest.{pr_number_from_url}
use talos_app.Provisioning.{
  Deps, RepoInfo, file_paths, git_ops_repo, latest_change_set, render_manifest_set,
}

unfoldable pub change_branch : Cluster → String → String
change_branch c operation =
    str_append "platform/cluster-" (str_append c.name (str_append "-" operation))

-- The change set of a commit, before it is stored.
unfoldable pub committed : Cluster → Workflow → String → List FileChange → String → ChangeSet
committed c wf description files sha = record {
  id = zero_id;
  cluster_id = c.id;
  workflow_id = some wf.id;
  description = description;
  generated_files = file_paths files;
  commit_sha = sha;
  pull_request_url = "";
  status = ChangeSetStatus.committed;
  result = "";
  timestamps = no_timestamps;
}

module _ {X : Type 0} (w : World) (d : Deps X) where
  -- A commit of the rendered manifests on a branch, and its change set.
  unfoldable pub commit_manifests :
      Cluster → Workflow → RepoInfo → String → String → Exec (Platform X) ChangeSet
  commit_manifests c wf repo branch description = do
    files ← wrapped "rendering manifests" (render_manifest_set w d c repo)
    wrapped "creating branch"
        (outside (d.git.create_branch repo.owner repo.name branch repo.default_branch))
    sha ← wrapped "committing manifests" (
        outside (
          d.git.commit (record {
            owner = repo.owner;
            repo = repo.name;
            branch = branch;
            message = description;
            files = files;
          })))
    wrapped "recording change set" (create_change_set w (committed c wf description files sha))

  unfoldable pub open_pull_request :
      RepoInfo → String → String → String → Exec (Platform X) PullRequest
  open_pull_request repo title body head = wrapped "creating pull request" (
      outside (
        d.git.create_pull_request (record {
          owner = repo.owner;
          repo = repo.name;
          title = title;
          body = body;
          head = head;
          base = repo.default_branch;
        })))

  -- The change set with the pull request that was opened for it.
  unfoldable pub record_pull_request : PullRequest → ChangeSet → Exec (Platform X) ChangeSet
  record_pull_request pr cs = wrapped "recording change set" (
      update_change_set w
        (record cs { pull_request_url = pr.url; status = ChangeSetStatus.pr_created }))

  unfoldable pub commit_cluster_api_change :
      Cluster → Workflow → String → String → Exec (Platform X) (Unit {0})
  commit_cluster_api_change c wf operation description =
      if is_cluster_api c.provider_mode
      then (do
        repo ← git_ops_repo w c.id
        let branch = change_branch c operation
        cs ← commit_manifests c wf repo branch description
        pr ←
            open_pull_request repo description
              (str_append "Generated by the Talos Platform " (str_append operation " workflow."))
              branch
        record_pull_request pr cs
        pure tt)
      else pure tt

  -- The number of the change set's pull request; one that is not merged is `ErrAwaitingApproval`.
  unfoldable pub merged_pull_request : RepoInfo → ChangeSet → Exec (Platform X) ℤ
  merged_pull_request repo cs = do
    number ← lift (pr_number_from_url cs.pull_request_url)
    pr ←
        wrapped "checking pull request #%d"
          (outside (d.git.get_pull_request repo.owner repo.name number))
    if str_eq pr.state "merged" then pure number else raise (sentinel awaiting_approval)

  unfoldable pub record_merge : ChangeSet → Exec (Platform X) ChangeSet
  record_merge cs =
      wrapped "recording merged change set"
        (update_change_set w (record cs { status = ChangeSetStatus.merged; result = "merged" }))

  -- The Argo CD sync after the merge.
  unfoldable pub sync_merged : Cluster → ChangeSet → Exec (Platform X) (Unit {0})
  sync_merged c cs =
      if c.spec.argocd.enabled
      then (do
        wrapped "syncing argocd application" (outside (d.argocd.sync c.name))
        wrapped "recording synced change set"
            (update_change_set w (record cs { status = ChangeSetStatus.synced }))
        pure tt)
      else pure tt

  unfoldable pub await_cluster_api_change_merge : Cluster → Exec (Platform X) (Unit {0})
  await_cluster_api_change_merge c =
      if is_cluster_api c.provider_mode
      then (do
        cs ← latest_change_set w c.id
        repo ← git_ops_repo w c.id
        merged_pull_request repo cs
        done ← record_merge cs
        sync_merged c done)
      else pure tt
