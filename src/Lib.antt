-- ===== src/Lib.antt =====
-- A model of the Talos platform's control plane, and what holds of it.
--
-- The platform keeps the desired state of Kubernetes clusters in Postgres and changes the world by
-- durable workflow runs. A request stores a run with its steps and sends a message; a worker that
-- receives the message claims the next PENDING step, runs it, stores its result and sends the next
-- message, until no step is left. A step may ask to wait for an approval, after which a webhook
-- resumes the run. Role bindings on a tenancy of organizations, projects, environments and clusters
-- say who may ask.
--
-- Which file models which part:
--   Shared, Shared/Errors       internal/domain/shared: identifiers, timestamps, errors.Is and wrapping
--   Exec, Exec/*                Go functions that change a shared state and may return an error; what
--                               such a function keeps, or ensures where it returns
--   Domain/*                    internal/domain: the aggregates as records, their states as data types
--   Domain/Cluster/Lifecycle    paths through the transition table of internal/domain/cluster/cluster.go
--   Platform, Platform/*        the tables, the topic of the broker, the world; SQL over lists of rows
--   WorkflowRepo, */Healthy     internal/infrastructure/postgres/workflow_repo.go; two claims in */Claims
--   Engine, Engine/Execute      internal/workflows/engine.go: Enqueue, Resume, Get, executeNext
--   Engine/Execute/*, Outcome   one message of executeNext, by the result of the step's function
--   Engine/Consume              the delivery loop of internal/infrastructure/rabbitmq/broker.go
--   Engine/Rows, Stage, Order   how far a run has come, and which step is next
--   Engine/Progress             a whole run, message by message
--   Engine/Inserted, Accepted   a new run, from the request to its end
--   Engine/Frame                what a request to the engine leaves alone
--   Engine/Endings, Requests    messages that find nothing to run, Resume, repeated requests
--   ClusterRepo                 internal/infrastructure/postgres/cluster_repo.go
--   ClusterService, */Held      internal/application/clusterservice/service.go, and what a request holds
--   ClusterService/Moves        what the requests write
--   ClusterService/Answers      what they answer where every call goes through
--   ClusterService/Rollback/*   Rollback and ScaffoldRepository of it: its texts, the files of a rollback
--   MachineRepo                 internal/infrastructure/postgres/operation_repo.go, and reads of two more
--   MachineService              internal/application/machineservice/service.go, inframanager/registry.go
--   MachineService/*            how an operation ends, and repeated requests
--   Rbac, Rbac/*                internal/auth/rbac.go
--   Leader, Leader/*            internal/infrastructure/leaderelection/leaderelection.go and the lock of
--                               internal/infrastructure/redis/client.go; all runs of the replicas
--   InprocessBroker, */Delivery internal/infrastructure/inprocess/broker.go, and messages after unsubscribe
--   Http, Http/Numbers          internal/interfaces/http/respond.go: statuses, numbers of a query
--   Ports                       internal/application/ports: Git, Argo CD, Cluster API, Talos, secrets
--   GitOpsRepo                  internal/infrastructure/postgres/gitops_repo.go
--   MachineRepo/Machines        internal/infrastructure/postgres/machine_repo.go
--   ClusterRepo/Listing         the listing of internal/infrastructure/postgres/cluster_repo.go
--   Render, Render/*            internal/application/gitopsrender/render.go, its files and worker pools
--   Provisioning                internal/workflows/cluster_provision.go: what the steps share
--   Provisioning/PullRequest/*  prNumberFromURL of it, and decimal numbers
--   Provisioning/Health/*       the health checks of it and of capi_change.go
--   Provisioning/Change         internal/workflows/capi_change.go
--   Provisioning/Steps          the steps of internal/workflows/cluster_provision.go
--   Provisioning/Upgrade, Scale internal/workflows/cluster_upgrade.go, worker_scale.go
--   Provisioning/Frame, Untouched, Written, Apart   what a step leaves alone
--   Provisioning/Goals, Table   what a step writes to the table of clusters
--   Provisioning/Steps/Gate     a pull request that is not merged
--   Provisioning/Steps/Ready/*  a whole provisioning, step after step, and in */Request as a run of the
--                               engine
--   Mocks, Mocks/*              internal/integrations/github/mock.go
--   AuditRepo, */Firing         internal/infrastructure/postgres/audit_repo.go, and which alerts fire
--   Scheduler, Scheduler/*      cmd/platform-scheduler/main.go: what a pass writes and leaves alone
--   Config, Config/*            internal/infrastructure/config/config.go
--   UserRepo                    internal/infrastructure/postgres/user_repo.go
--   AuthService, */Logins       internal/application/authservice/service.go, Authenticate of
--                               internal/interfaces/http/middleware/auth.go
--   Http/Webhook, */Merge       internal/interfaces/http/webhook_handlers.go
--   Scenarios, Scenarios/*      concrete runs
--
-- How the state corresponds to the code. `Platform.db` holds one list of rows for each table, in no
-- particular order; `dispatches` is the queue `workflow.dispatch`; `outside` is the state of the
-- systems behind the ports, of any type; `calls` counts the questions that the code has put to its
-- environment. A `World` answers the n-th question: whether a call of the database or the broker fails,
-- what time it is, what the next UUID is. A theorem about any world covers every failure; `IsHealthy`
-- is the world without one. A transaction writes when it commits. In the engine the functions of the
-- steps are parameters, any action on the platform; Provisioning has those of the program. A port is a
-- record of actions on `outside`; `Cooperates` says what the theorem on a whole provisioning expects
-- of them.
--
-- A UUID and a time are natural numbers, with 0 for the zero value; counts in the specifications are
-- natural numbers where Go has int32, so a request with a negative count of replicas, which
-- cluster_handlers.go lets through, has no counterpart. Texts that are printed keep their format and
-- their parts. The consumer's loop runs for a number of messages that the theorem on it states. The order of
-- deliveries is that of one consumer; what a second worker has claimed shows as a RUNNING step.
--
-- Not modelled: tracing and metrics, JSON and YAML, the clients of Talos, Proxmox, Redfish, GitHub,
-- Argo CD and Cluster API, the HTTP handlers but the webhook, secrets, the web client.
mod Prelude
pub mod Shared
pub mod Exec
pub mod Domain
pub mod Platform
pub mod WorkflowRepo
pub mod Engine
pub mod ClusterRepo
pub mod Ports
pub mod Render
pub mod GitOpsRepo
pub mod Provisioning
pub mod Mocks
pub mod AuditRepo
pub mod Scheduler
pub mod UserRepo
pub mod Config
pub mod AuthService
pub mod ClusterService
pub mod MachineRepo
pub mod MachineService
pub mod Leader
pub mod Http
pub mod InprocessBroker
pub mod Rbac
mod Scenarios
