-- ===== src/Rbac.antt =====
-- internal/auth/rbac.go: a role binding grants its role on a resource and on what is below it; with
-- the reads of the repositories that `Authorizer` uses.
pub mod Above
pub mod Sound
pub mod Complete
use talos_app.Prelude.{
  Bool, true, false, not, Option, none, some, List, [], ◌∷◌, ◌&&◌, ◌||◌, ◌==◌, if◌then◌else◌, find,
}
use talos_app.Shared.{Uuid, zero_id, sentinel, forbidden}
use talos_app.Exec.{Exec, Result, ok, err, pure, raise, wrapped, ◌>>=◌}
use talos_app.Domain.User.{
  Role, satisfies, ResourceKind, platform, organization, project, environment, cluster, kind_eq,
  RoleBinding,
}
use talos_app.ClusterRepo
use talos_app.Domain.Tenancy.{Project, Environment}
use talos_app.Platform.{Platform, World, call}
use talos_app.Platform.Rows.{or_not_found, select}

-- One element of the chain.
pub record Scope : Type 0 where
  pub kind : ResourceKind
  pub id : Uuid

abbrev pub environment_has_id : Uuid → Environment → Bool
environment_has_id id e = e.id == id

abbrev pub project_has_id : Uuid → Project → Bool
project_has_id id p = p.id == id

abbrev pub is_of_user : Uuid → RoleBinding → Bool
is_of_user id b = b.user_id == id

abbrev is_platform : ResourceKind → Bool
is_platform k = kind_eq k platform

-- The body of the inner loop of `Authorize`: both `continue`s, and the test of the role.
unfoldable pub grants : Role → Scope → RoleBinding → Bool
grants required scope b =
    if not (kind_eq b.resource_kind scope.kind)
    then false
    else (if not (is_platform scope.kind) && not (b.resource_id == scope.id)
        then false
        else satisfies b.role required)

unfoldable pub any_binding : Role → Scope → List RoleBinding → Bool
any_binding required scope [] = false
any_binding required scope (b ∷ rest) =
    if grants required scope b then true else any_binding required scope rest

-- Both loops of `Authorize`.
unfoldable pub any_scope : Role → List RoleBinding → List Scope → Bool
any_scope required bindings [] = false
any_scope required bindings (scope ∷ rest) =
    if any_binding required scope bindings then true else any_scope required bindings rest

module _ {X : Type 0} (w : World) where
  unfoldable pub get_environment : Uuid → Exec (Platform X) Environment
  get_environment id =
      call w (λ s. (or_not_found (find (environment_has_id id) s.db.environments), s))

  unfoldable pub get_project : Uuid → Exec (Platform X) Project
  get_project id = call w (λ s. (or_not_found (find (project_has_id id) s.db.projects), s))

  unfoldable pub list_role_bindings_for_user : Uuid → Exec (Platform X) (List RoleBinding)
  list_role_bindings_for_user id =
      wrapped "listing role bindings"
        (call w (λ s. (ok (select (is_of_user id) s.db.role_bindings), s)))

  -- The scopes above a project, an environment and a cluster, which `scopeChain` writes out in each
  -- case; PLATFORM is checked last.
  abbrev above_project : Uuid → Exec (Platform X) (List Scope)
  above_project id = do
    p ← get_project id
    pure (
        record { kind = organization; id = p.organization_id }
        ∷ record { kind = platform; id = zero_id }
        ∷ [])

  abbrev above_environment : Uuid → Exec (Platform X) (List Scope)
  above_environment id = do
    env ← get_environment id
    rest ← above_project env.project_id
    pure (record { kind = project; id = env.project_id } ∷ rest)

  abbrev above_cluster : Uuid → Exec (Platform X) (List Scope)
  above_cluster id = do
    c ← ClusterRepo.get w id
    rest ← above_environment c.environment_id
    pure (record { kind = environment; id = c.environment_id } ∷ rest)

  unfoldable pub above : ResourceKind → Uuid → Exec (Platform X) (List Scope)
  above cluster id = above_cluster id
  above environment id = above_environment id
  above project id = above_project id
  above organization id = pure (record { kind = platform; id = zero_id } ∷ [])
  above platform id = pure (record { kind = platform; id = zero_id } ∷ [])

  unfoldable pub scope_chain : ResourceKind → Uuid → Exec (Platform X) (List Scope)
  unfolding above
  scope_chain kind id = do rest ← above kind id; pure (record { kind = kind; id = id } ∷ rest)

  -- `Authorize` once the bindings are read: no bindings, no access.
  unfoldable pub authorize_with :
      List RoleBinding → ResourceKind → Uuid → Role → Exec (Platform X) (Unit {0})
  authorize_with [] kind id required = raise (sentinel forbidden)
  authorize_with (b ∷ rest) kind id required = do
    chain ← scope_chain kind id
    if any_scope required (b ∷ rest) chain then pure tt else raise (sentinel forbidden)

  unfoldable pub authorize : Uuid → ResourceKind → Uuid → Role → Exec (Platform X) (Unit {0})
  unfolding authorize_with
  authorize user kind id required = do
    bindings ← wrapped "loading role bindings" (list_role_bindings_for_user user)
    authorize_with bindings kind id required
