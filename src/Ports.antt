-- ===== src/Ports.antt =====
-- internal/application/ports: what the workflows ask of Git, Argo CD, Cluster API, Talos and the secret
-- store. The systems are parameters: an operation acts on their own state, and on no table.
use talos_app.Prelude.{String, Bool, List, ℤ}
use talos_app.Exec.{Exec}
use talos_app.Domain.Cluster.{Cluster}
use talos_app.Domain.GitOps.{SyncStatus, HealthStatus}
use talos_app.Platform.{Platform}

pub record FileChange : Type 0 where
  pub path : String
  pub content : String
  pub delete : Bool

pub record CommitRequest : Type 0 where
  pub owner : String
  pub repo : String
  pub branch : String
  pub message : String
  pub files : List FileChange

pub record PullRequestRequest : Type 0 where
  pub owner : String
  pub repo : String
  pub title : String
  pub body : String
  pub head : String
  pub base : String

pub record PullRequest : Type 0 where
  pub number : ℤ
  pub url : String
  pub state : String
  pub head : String
  pub base : String

-- `ports.GitProvider`; `commit` answers with the SHA.
pub record GitProvider (X : Type 0) : Type 0 where
  pub create_branch : String → String → String → String → Exec X (Unit {0})
  pub get_file : String → String → String → String → Exec X String
  pub commit : CommitRequest → Exec X String
  pub create_pull_request : PullRequestRequest → Exec X PullRequest
  pub get_pull_request : String → String → ℤ → Exec X PullRequest
  pub merge_pull_request : String → String → ℤ → Exec X (Unit {0})
  pub get_commit_parent : String → String → String → Exec X String

-- `ports.ApplicationStatus`, without its resource tree, which the callers never read.
pub record ApplicationStatus : Type 0 where
  pub name : String
  pub namespace : String
  pub project : String
  pub sync_status : SyncStatus
  pub health_status : HealthStatus
  pub revision : String

pub record ArgoCdClient (X : Type 0) : Type 0 where
  pub get_application : String → Exec X ApplicationStatus
  pub sync : String → Exec X (Unit {0})

pub record CapiResourceStatus : Type 0 where
  pub kind : String
  pub name : String
  pub namespace : String
  pub phase : String
  pub ready : Bool

pub record ClusterApiProvider (X : Type 0) : Type 0 where
  pub render_manifests : Cluster → Exec X (List FileChange)
  pub get_cluster_status : String → String → Exec X (List CapiResourceStatus)

-- `ports.TalosClient`, as far as the workflows call it; `get_health` answers with `Healthy`.
pub record TalosClient (X : Type 0) : Type 0 where
  pub get_health : String → Exec X Bool
  pub ensure_credentials : String → String → Exec X (Unit {0})

-- `ports.SecretStore.Get`, of the backend and the path.
abbrev pub Secrets : Type 0 → Type 0
Secrets X = String → String → Exec X String

-- An operation of a port, within a function of the platform.
unfoldable pub outside : {X A : Type 0} → Exec X A → Exec (Platform X) A
outside m s = ((m s.outside).0, record s { outside = (m s.outside).1 })
