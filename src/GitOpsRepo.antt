-- ===== src/GitOpsRepo.antt =====
-- internal/infrastructure/postgres/gitops_repo.go: repositories, configurations, change sets and the
-- cached Argo CD applications. Foreign keys are left out.
use talos_app.Prelude.{
  String, Bool, List, [], ◌∷◌, ◌++◌, ◌||◌, ◌&&◌, ◌==◌, str_eq, if◌then◌else◌, find,
}
use talos_app.Shared.{Uuid, Time, Page, touch, driver, sentinel, not_found}
use talos_app.Exec.{Exec, ok, err, ◌>>=◌}
use talos_app.Domain.GitOps.{GitRepository, GitOpsConfiguration, ChangeSet, ArgoApplication}
use talos_app.Platform.{Platform, World, call, clock, new_id}
use talos_app.Platform.Rows.{update_rows, affects, or_not_found, newest_where, paged, first, select}

abbrev pub repository_has_id : Uuid → GitRepository → Bool
repository_has_id id r = r.id == id

abbrev pub configures : Uuid → GitOpsConfiguration → Bool
configures cluster c = c.cluster_id == cluster

abbrev pub change_has_id : Uuid → ChangeSet → Bool
change_has_id id c = c.id == id

abbrev pub changes_cluster : Uuid → ChangeSet → Bool
changes_cluster cluster c = c.cluster_id == cluster

abbrev pub has_url : String → ChangeSet → Bool
has_url url c = str_eq c.pull_request_url url

-- `ORDER BY created_at DESC`
abbrev pub change_age : ChangeSet → Time
change_age c = c.timestamps.created_at

-- The unique pair of a cached application.
abbrev pub same_application : ArgoApplication → ArgoApplication → Bool
same_application a row = row.cluster_id == a.cluster_id && str_eq row.name a.name

-- The columns that `UpdateChangeSet` sets.
unfoldable pub set_change_set : ChangeSet → ChangeSet → ChangeSet
set_change_set c row = record row {
  commit_sha = c.commit_sha;
  pull_request_url = c.pull_request_url;
  status = c.status;
  result = c.result;
  timestamps = record {
    created_at = row.timestamps.created_at;
    updated_at = c.timestamps.updated_at;
  };
}

-- `ON CONFLICT (cluster_id, name) DO UPDATE SET …`
unfoldable pub set_application : ArgoApplication → ArgoApplication → ArgoApplication
set_application a row = record row {
  namespace = a.namespace;
  project = a.project;
  sync_status = a.sync_status;
  health_status = a.health_status;
  revision = a.revision;
  last_synced_at = a.last_synced_at;
  timestamps = record {
    created_at = row.timestamps.created_at;
    updated_at = a.timestamps.updated_at;
  };
}

unfoldable pub put_application : ArgoApplication → List ArgoApplication → List ArgoApplication
put_application a rows =
    if affects (same_application a) rows
    then update_rows (same_application a) (set_application a) rows
    else rows ++ a ∷ []

abbrev repository_clashes : GitRepository → GitRepository → Bool
repository_clashes r row =
    row.id == r.id
    || row.git_provider_id == r.git_provider_id
      && str_eq row.owner r.owner
      && str_eq row.name r.name

module _ {X : Type 0} (w : World) where
  -- `if x.ID == (shared.ID{}) { x.ID = shared.NewID() }`
  unfoldable pub fill_id : Uuid → Exec (Platform X) Uuid
  fill_id given s = if given == 0 then new_id w s else (ok given, s)

  unfoldable pub create_repository : GitRepository → Exec (Platform X) GitRepository
  unfolding fill_id
  create_repository given = do
    now ← clock w
    id ← fill_id given.id
    let r = record given { id = id; timestamps = touch now given.timestamps }
    call w (λ s.
        if affects (repository_clashes r) s.db.repositories
        then (err (driver "duplicate key"), s)
        else (ok r, record s { db = record s.db { repositories = s.db.repositories ++ r ∷ [] } }))

  unfoldable pub get_repository : Uuid → Exec (Platform X) GitRepository
  get_repository id =
      call w (λ s. (or_not_found (find (repository_has_id id) s.db.repositories), s))

  unfoldable pub list_repositories : Uuid → Exec (Platform X) (List GitRepository)
  list_repositories org =
      call w (λ s. (ok (select (λ r. r.organization_id == org) s.db.repositories), s))

  unfoldable pub create_configuration : GitOpsConfiguration → Exec (Platform X) GitOpsConfiguration
  unfolding fill_id
  create_configuration given = do
    now ← clock w
    id ← fill_id given.id
    let c = record given { id = id; timestamps = touch now given.timestamps }
    call w (λ s.
        if affects (λ row. row.id == c.id || configures c.cluster_id row) s.db.configurations
        then (err (driver "duplicate key"), s)
        else (
          ok c,
          record s { db = record s.db { configurations = s.db.configurations ++ c ∷ [] } },
        ))

  -- `GetGitOpsConfigurationForCluster`
  unfoldable pub get_configuration : Uuid → Exec (Platform X) GitOpsConfiguration
  get_configuration cluster =
      call w (λ s. (or_not_found (find (configures cluster) s.db.configurations), s))

  -- The writes answer with the change set as the caller's pointer then shows it.
  unfoldable pub create_change_set : ChangeSet → Exec (Platform X) ChangeSet
  unfolding fill_id
  create_change_set given = do
    now ← clock w
    id ← fill_id given.id
    let c = record given { id = id; timestamps = touch now given.timestamps }
    call w (λ s.
        if affects (change_has_id c.id) s.db.change_sets
        then (err (driver "duplicate key"), s)
        else (ok c, record s { db = record s.db { change_sets = s.db.change_sets ++ c ∷ [] } }))

  unfoldable pub update_change_set : ChangeSet → Exec (Platform X) ChangeSet
  update_change_set given = do
    now ← clock w
    let c = record given { timestamps = touch now given.timestamps }
    call w (λ s.
        if affects (change_has_id c.id) s.db.change_sets
        then (
          ok c,
          record s {
            db = record s.db {
              change_sets = update_rows (change_has_id c.id) (set_change_set c) s.db.change_sets;
            };
          },
        )
        else (err (sentinel not_found), s))

  unfoldable pub get_change_set : Uuid → Exec (Platform X) ChangeSet
  get_change_set id = call w (λ s. (or_not_found (find (change_has_id id) s.db.change_sets), s))

  -- `GetChangeSetByPullRequestURL`
  unfoldable pub get_change_set_by_url : String → Exec (Platform X) ChangeSet
  get_change_set_by_url url =
      call w
        (λ s. (or_not_found (first (newest_where (has_url url) change_age s.db.change_sets)), s))

  -- `ListChangeSetsForCluster`
  unfoldable pub list_change_sets : Uuid → Page → Exec (Platform X) (List ChangeSet)
  list_change_sets cluster page = call w (λ s.
      (ok (paged page (newest_where (changes_cluster cluster) change_age s.db.change_sets)), s))

  unfoldable pub upsert_application : ArgoApplication → Exec (Platform X) (Unit {0})
  unfolding put_application fill_id
  upsert_application given = do
    now ← clock w
    id ← fill_id given.id
    let a = record given { id = id; timestamps = touch now given.timestamps }
    call w (λ s. (
      ok tt,
      record s { db = record s.db { applications = put_application a s.db.applications } },
    ))

  -- `ListArgoApplicationsForCluster`
  unfoldable pub list_applications : Uuid → Exec (Platform X) (List ArgoApplication)
  list_applications cluster =
      call w (λ s. (ok (select (λ a. a.cluster_id == cluster) s.db.applications), s))
