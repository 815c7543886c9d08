-- ===== src/Scenarios/Rollbacks.antt =====
-- A rollback of a change set of two files, one of which was new.
use talos_app.Prelude.{◌≡◌, refl, String, none, some, List, [], ◌∷◌, str_eq, if◌then◌else◌}
use talos_app.Shared.{sentinel, not_found, no_timestamps, is}
use talos_app.Exec.{ok, err}
use talos_app.Domain.Cluster.{ready}
use talos_app.Domain.GitOps.{ChangeSet, ChangeSetStatus, GitRepository}
use talos_app.Ports.{GitProvider, FileChange}
use talos_app.ClusterService.Rollback.{prior_files}
use talos_app.ClusterService.Rollback.Restores.{
  Tree, file_answer, changed_all, is_among, prior_files-restores,
}
use talos_app.Scenarios.Clusters.{holding}

abbrev before : Tree
before path = if str_eq path "a.yaml" then some "old" else none

abbrev git : GitProvider (Unit {0})
git = record {
  create_branch = λ owner repo branch from x. (ok tt, x);
  get_file = λ owner repo reference path x. (file_answer (sentinel not_found) (before path), x);
  commit = λ req x. (ok "sha", x);
  create_pull_request = λ req x. (err (sentinel not_found), x);
  get_pull_request = λ owner repo number x. (err (sentinel not_found), x);
  merge_pull_request = λ owner repo number x. (ok tt, x);
  get_commit_parent = λ owner repo sha x. (ok "parent", x);
}

abbrev a_repository : GitRepository
a_repository = record {
  id = 61;
  organization_id = 10;
  git_provider_id = 62;
  owner = "acme";
  name = "gitops";
  default_branch = "main";
  timestamps = no_timestamps;
}

abbrev a_change : ChangeSet
a_change = record {
  id = 70;
  cluster_id = 5;
  workflow_id = none;
  description = "";
  generated_files = "a.yaml" ∷ "b.yaml" ∷ [];
  commit_sha = "sha";
  pull_request_url = "";
  status = ChangeSetStatus.committed;
  result = "";
  timestamps = no_timestamps;
}

prior_files-restores_example :
    (files : List FileChange) × (prior_files git a_change a_repository (holding ready)
      ≡ (ok files, holding ready))
    × ((now : Tree) (path : String)
        → changed_all files now path
          ≡ (if is_among path ("a.yaml" ∷ "b.yaml" ∷ []) then before path else now path))
unfolding is
prior_files-restores_example =
    prior_files-restores git a_repository "parent" before
      (record { reads = λ path x. (sentinel not_found, refl, refl) }) a_change (holding ready) refl
