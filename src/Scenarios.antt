-- ===== src/Scenarios.antt =====
-- Concrete runs of the platform, on which the theorems are used.
pub mod Runs
pub mod Access
pub mod Clusters
pub mod Machines
pub mod Requests
pub mod Election
pub mod Queries
pub mod Broker
pub mod Provisions
pub mod Fleets
pub mod Manifests
pub mod Webhooks
pub mod Passes
pub mod Rollbacks
pub mod Logins
pub mod Settings
use talos_app.Prelude.{ℕ, String, ◌+◌, ◌==◌, if◌then◌else◌, none, some, List, [], ◌∷◌, true, refl}
use talos_app.Shared.{sentinel, awaiting_approval, text, no_text, no_timestamps, Error}
use talos_app.Exec.{ok, err}
use talos_app.Domain.Workflow.{Workflow, Step, Status, Kind, pending, running}
use talos_app.Platform.{Platform, Db, World, IsHealthy, empty_db}
use talos_app.Engine.{Engine, Definition, StepDefinition}

-- A world where every call goes through, and one where the broker fails once, when a run of one step is sent.
abbrev pub healthy : World
healthy = record { fault = λ n. none; time = λ n. n; fresh = λ n. 100 + n }

abbrev pub publish_fails : World
publish_fails = record {
  fault = λ n. if n == 9 then some "broker unreachable" else none;
  time = λ n. n;
  fresh = λ n. 100 + n;
}

pub healthy-IsHealthy : IsHealthy healthy
healthy-IsHealthy n = refl

abbrev pub quiet : String → StepDefinition (Unit {0})
quiet name = record { name = name; run = λ wf s. (ok [], s) }

abbrev pub gate : StepDefinition (Unit {0})
gate = record { name = "await-approval"; run = λ wf s. (err (sentinel awaiting_approval), s) }

abbrev pub provision_like : Definition (Unit {0})
provision_like = record {
  kind = Kind.cluster_provision;
  steps = quiet "begin" ∷ quiet "finish" ∷ [];
}

abbrev pub gated : Definition (Unit {0})
gated = record { kind = Kind.cluster_upgrade; steps = gate ∷ [] }

abbrev pub engine : Engine (Unit {0})
engine = record { registry = provision_like ∷ gated ∷ []; audited = true }

abbrev pub a_run : Kind → Status → Workflow
a_run kind status = record {
  id = 7;
  kind = kind;
  idempotency_key = "key";
  cluster_id = some 5;
  machine_id = none;
  requested_by = 1;
  input = [];
  status = status;
  current_step = 0;
  error = no_text;
  started_at = none;
  finished_at = none;
  timestamps = no_timestamps;
}

abbrev pub a_step : ℕ → ℕ → Status → Step
a_step id sequence status = record {
  id = id;
  workflow_id = 7;
  sequence = sequence;
  name = "step";
  status = status;
  output = [];
  error = no_text;
  attempts = 0;
  started_at = none;
  finished_at = none;
  timestamps = no_timestamps;
}

abbrev pub platform_of : Workflow → List Step → Platform (Unit {0})
platform_of wf steps = record {
  db = record empty_db { workflows = wf ∷ []; steps = steps };
  dispatches = 7 ∷ [];
  outside = tt;
  calls = 0;
}

abbrev pub nothing_stored : Platform (Unit {0})
nothing_stored = record { db = empty_db; dispatches = []; outside = tt; calls = 0 }
