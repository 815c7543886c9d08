-- ===== src/Platform.antt =====
-- What the services share: the rows of the Postgres tables, the dispatch topic of the broker, and
-- the environment that the program runs in (a connection may fail, the clock, fresh UUIDs).
pub mod Rows
pub mod Calls
use talos_app.Prelude.{
  ℕ, suc, String, ◌≡◌, Bool, true, false, Option, none, some, List, [], ◌∷◌, arith, ◌==◌,
}
use talos_app.Shared.{Uuid, Time, driver, wrap, sentinel, not_found}
use talos_app.Exec.{Exec, Result, ok, err}
use talos_app.Domain.Cluster.{Cluster}
use talos_app.Domain.Machine.{Machine, InfrastructureProvider}
use talos_app.Domain.Operation.{Operation}
use talos_app.Domain.Workflow.{Workflow, Step}
use talos_app.Domain.Tenancy.{Project, Environment}
use talos_app.Domain.User.{User, RoleBinding}
use talos_app.Domain.Audit.{Event, Alert}
use talos_app.Domain.GitOps.{GitRepository, GitOpsConfiguration, ChangeSet, ArgoApplication}

pub record Db : Type 0 where
  pub workflows : List Workflow
  pub steps : List Step
  pub clusters : List Cluster
  pub machines : List Machine
  pub operations : List Operation
  pub providers : List InfrastructureProvider
  pub repositories : List GitRepository
  pub configurations : List GitOpsConfiguration
  pub change_sets : List ChangeSet
  pub applications : List ArgoApplication
  pub events : List Event
  pub alerts : List Alert
  pub projects : List Project
  pub environments : List Environment
  pub role_bindings : List RoleBinding
  pub users : List User

abbrev pub empty_db : Db
empty_db = record {
  workflows = [];
  steps = [];
  clusters = [];
  machines = [];
  operations = [];
  providers = [];
  repositories = [];
  configurations = [];
  change_sets = [];
  applications = [];
  events = [];
  alerts = [];
  projects = [];
  environments = [];
  role_bindings = [];
  users = [];
}

-- `dispatches` is the topic `workflow.dispatch`, `outside` the state of the systems behind the
-- ports (Talos, Git, Argo CD, Cluster API, providers), and `calls` counts the questions to the
-- environment.
pub record Platform (X : Type 0) : Type 0 where
  pub db : Db
  pub dispatches : List Uuid
  pub outside : X
  pub calls : ℕ

-- The answers of the environment to the n-th question: whether a call of the database or the
-- broker fails, and with what message; the time; a new UUID.
pub record World : Type 0 where
  pub fault : ℕ → Option String
  pub time : ℕ → Time
  pub fresh : ℕ → Uuid

-- Every call goes through.
abbrev pub IsHealthy : World → Type 0
IsHealthy w = (n : ℕ) → w.fault n ≡ none

module _ {X : Type 0} where
  abbrev pub tick : Platform X → Platform X
  tick s = record s { calls = suc s.calls }

  abbrev answer : {A : Type 0} → Option String → Exec (Platform X) A → Exec (Platform X) A
  answer none m s = m (tick s)
  answer (some message) m s = (err (driver message), tick s)

  -- One round trip to the database or the broker: where it fails nothing is written.
  unfoldable pub call : {A : Type 0} → World → Exec (Platform X) A → Exec (Platform X) A
  call w m s = answer (w.fault s.calls) m s

  -- `time.Now().UTC()`
  abbrev pub clock : World → Exec (Platform X) Time
  clock w s = (ok (w.time s.calls), tick s)

  -- `uuid.New()`
  abbrev pub new_id : World → Exec (Platform X) Uuid
  new_id w s = (ok (w.fresh s.calls), tick s)

  pub call-healthy :
      {A : Type 0} (w : World) (m : Exec (Platform X) A) (s : Platform X)
      → IsHealthy w
      → call w m s ≡ m (tick s)
  unfolding call
  call-healthy w m s h = rw (h s.calls)
