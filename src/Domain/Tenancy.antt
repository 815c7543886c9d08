-- ===== src/Domain/Tenancy.antt =====
-- internal/domain/{project,environment}: the tenancy records between an organization and a cluster.
use talos_app.Prelude.{String}
use talos_app.Shared.{Uuid, Timestamps}

pub record Project : Type 0 where
  pub id : Uuid
  pub organization_id : Uuid
  pub name : String
  pub slug : String
  pub description : String
  pub timestamps : Timestamps

pub data EnvironmentKind : Type 0 where
  development staging production custom : EnvironmentKind

pub record Environment : Type 0 where
  pub id : Uuid
  pub project_id : Uuid
  pub name : String
  pub slug : String
  pub kind : EnvironmentKind
  pub timestamps : Timestamps
