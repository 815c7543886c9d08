-- ===== src/ClusterRepo.antt =====
-- internal/infrastructure/postgres/cluster_repo.go: the table of clusters.
pub mod Listing
use talos_app.Prelude.{
  String, Bool, Option, none, some, List, [], ◌∷◌, ◌++◌, ◌&&◌, ◌||◌, ◌==◌, map, str_eq,
  if◌then◌else◌, find,
}
use talos_app.Shared.{Uuid, Time, touch, driver, sentinel, not_found}
use talos_app.Exec.{Exec, ok, err, pure, wrapped, ◌>>=◌, ◌>>◌}
use talos_app.Domain.Cluster.{Cluster}
use talos_app.Domain.Machine.{Machine}
use talos_app.Domain.Operation.{Operation}
use talos_app.Domain.Workflow.{Workflow}
use talos_app.Platform.{Platform, World, call, clock, new_id}
use talos_app.Platform.Rows.{update_rows, affects, or_not_found, delete_rows}

-- `WHERE id = $1`
abbrev pub cluster_has_id : Uuid → Cluster → Bool
cluster_has_id id c = c.id == id

-- `WHERE organization_id = $1 AND name = $2`
abbrev pub has_name : Uuid → String → Cluster → Bool
has_name organization name c = c.organization_id == organization && str_eq c.name name

-- The columns that `Update` sets.
unfoldable pub set_cluster : Time → Cluster → Cluster → Cluster
set_cluster now c row = record row {
  name = c.name;
  endpoint = c.endpoint;
  provider_mode = c.provider_mode;
  state = c.state;
  spec = c.spec;
  git_commit_sha = c.git_commit_sha;
  template_id = c.template_id;
  talos_config_ref = c.talos_config_ref;
  timestamps = record { created_at = row.timestamps.created_at; updated_at = now };
}

-- What is already there: the primary key, or the name in the organization.
abbrev pub clashes : Cluster → List Cluster → Bool
clashes c rows =
    affects (λ row. cluster_has_id c.id row || has_name c.organization_id c.name row) rows

-- `ON DELETE SET NULL`, on a column that refers to the clusters.
unlinked : Uuid → Option Uuid → Option Uuid
unlinked id none = none
unlinked id (some k) = if k == id then none else some k

module _ {X : Type 0} (w : World) where
  unfoldable pub get : Uuid → Exec (Platform X) Cluster
  get id = call w (λ s. (or_not_found (find (cluster_has_id id) s.db.clusters), s))

  unfoldable pub get_by_name : Uuid → String → Exec (Platform X) Cluster
  get_by_name organization name =
      call w (λ s. (or_not_found (find (has_name organization name) s.db.clusters), s))

  -- It answers with the cluster as the caller's pointer then shows it.
  unfoldable pub create : Cluster → Exec (Platform X) Cluster
  create given = do
    now ← clock w
    id ← (λ s. if given.id == 0 then new_id w s else (ok given.id, s))
    let c = record given { id = id; timestamps = touch now given.timestamps }
    wrapped "inserting cluster" (
        call w (λ s.
          if clashes c s.db.clusters
          then (err (driver "duplicate key"), s)
          else (ok tt, record s { db = record s.db { clusters = s.db.clusters ++ c ∷ [] } })))
    pure c

  unfoldable pub update : Cluster → Exec (Platform X) (Unit {0})
  update c = do
    now ← clock w
    wrapped "updating cluster" (call w (λ s. (ok tt, s)))
    λ s.
        if affects (cluster_has_id c.id) s.db.clusters
        then (
          ok tt,
          record s {
            db = record s.db {
              clusters = update_rows (cluster_has_id c.id) (set_cluster now c) s.db.clusters;
            };
          },
        )
        else (err (sentinel not_found), s)

  -- The foreign keys of the migrations act with it: a machine, a run or an operation of the cluster
  -- loses its reference, and the configuration, the change sets and the applications go.
  unfoldable pub delete : Uuid → Exec (Platform X) (Unit {0})
  unfolding unlinked
  delete id = do
    wrapped "deleting cluster" (call w (λ s. (ok tt, s)))
    λ s.
        if affects (cluster_has_id id) s.db.clusters
        then (
          ok tt,
          record s {
            db = record s.db {
              clusters = delete_rows (cluster_has_id id) s.db.clusters;
              machines =
                  map {A = Machine} (λ m. record m { cluster_id = unlinked id m.cluster_id })
                    s.db.machines;
              workflows =
                  map {A = Workflow} (λ wf. record wf { cluster_id = unlinked id wf.cluster_id })
                    s.db.workflows;
              operations =
                  map {A = Operation} (λ op. record op { cluster_id = unlinked id op.cluster_id })
                    s.db.operations;
              configurations = delete_rows (λ cfg. cfg.cluster_id == id) s.db.configurations;
              change_sets = delete_rows (λ cs. cs.cluster_id == id) s.db.change_sets;
              applications = delete_rows (λ a. a.cluster_id == id) s.db.applications;
            };
          },
        )
        else (err (sentinel not_found), s)
