-- ===== src/Domain/GitOps.antt =====
-- internal/domain/gitops/gitops.go: repositories, change sets and the observed Argo CD applications.
use talos_app.Prelude.{String, Option, List}
use talos_app.Shared.{Uuid, Time, Timestamps}

pub record GitRepository : Type 0 where
  pub id : Uuid
  pub organization_id : Uuid
  pub git_provider_id : Uuid
  pub owner : String
  pub name : String
  pub default_branch : String
  pub timestamps : Timestamps

pub record GitOpsConfiguration : Type 0 where
  pub id : Uuid
  pub cluster_id : Uuid
  pub repository_id : Uuid
  pub path : String
  pub branch : String
  pub timestamps : Timestamps

pub data ChangeSetStatus : Type 0 where
  pending validated committed pr_created merged synced failed : ChangeSetStatus

pub record ChangeSet : Type 0 where
  pub id : Uuid
  pub cluster_id : Uuid
  pub workflow_id : Option Uuid
  pub description : String
  pub generated_files : List String
  pub commit_sha : String
  pub pull_request_url : String
  pub status : ChangeSetStatus
  pub result : String
  pub timestamps : Timestamps

pub data SyncStatus : Type 0 where
  sync_unknown in_sync out_of_sync : SyncStatus

pub data HealthStatus : Type 0 where
  health_unknown progressing healthy suspended degraded missing : HealthStatus

pub record ArgoApplication : Type 0 where
  pub id : Uuid
  pub cluster_id : Uuid
  pub name : String
  pub namespace : String
  pub project : String
  pub sync_status : SyncStatus
  pub health_status : HealthStatus
  pub revision : String
  pub last_synced_at : Option Time
  pub timestamps : Timestamps
