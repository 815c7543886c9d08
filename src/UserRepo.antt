-- ===== src/UserRepo.antt =====
-- internal/infrastructure/postgres/user_repo.go: the users and their role bindings.
use talos_app.Prelude.{
  String, Bool, true, false, List, [], ◌∷◌, ◌++◌, ◌==◌, ◌||◌, ◌&&◌, str_eq, if◌then◌else◌, find,
}
use talos_app.Shared.{Uuid, Time, Page, touch, driver, sentinel, not_found}
use talos_app.Exec.{Exec, ok, err, wrapped, ◌>>=◌, ◌>>◌}
use talos_app.Domain.User.{User, RoleBinding, weight, kind_eq}
use talos_app.Platform.{Platform, World, call, clock, new_id}
use talos_app.Platform.Rows.{update_rows, delete_rows, affects, or_not_found, newest_where, paged}

abbrev pub user_has_id : Uuid → User → Bool
user_has_id id u = u.id == id

abbrev pub has_subject : String → User → Bool
has_subject subject u = str_eq u.subject subject

abbrev pub has_email : String → User → Bool
has_email email u = str_eq u.email email

-- The key, and the unique columns.
abbrev pub user_clashes : User → User → Bool
user_clashes u row = row.id == u.id || str_eq row.email u.email || str_eq row.subject u.subject

unfoldable pub set_user : User → User → User
set_user u row = record row {
  email = u.email;
  name = u.name;
  disabled = u.disabled;
  timestamps = record {
    created_at = row.timestamps.created_at;
    updated_at = u.timestamps.updated_at;
  };
}

abbrev pub user_age : User → Time
user_age u = u.timestamps.created_at

abbrev pub binding_has_id : Uuid → RoleBinding → Bool
binding_has_id id b = b.id == id

-- The key, and the unique columns; two roles with the same weight are the same.
abbrev pub binding_clashes : RoleBinding → RoleBinding → Bool
binding_clashes b row =
    row.id == b.id
    || row.user_id == b.user_id
      && weight row.role == weight b.role
      && kind_eq row.resource_kind b.resource_kind
      && row.resource_id == b.resource_id

module _ {X : Type 0} (w : World) where
  unfoldable pub insert_user : User → Exec (Platform X) User
  insert_user u = wrapped "inserting user" (
      call w (λ s.
        if affects (user_clashes u) s.db.users
        then (err (driver "duplicate key"), s)
        else (ok u, record s { db = record s.db { users = s.db.users ++ u ∷ [] } })))

  unfoldable pub create_user : User → Exec (Platform X) User
  create_user given = do
    now ← clock w
    id ← (λ s. if given.id == 0 then new_id w s else (ok given.id, s))
    insert_user (record given { id = id; timestamps = touch now given.timestamps })

  unfoldable pub get_user : Uuid → Exec (Platform X) User
  get_user id = call w (λ s. (or_not_found (find (user_has_id id) s.db.users), s))

  unfoldable pub get_by_subject : String → Exec (Platform X) User
  get_by_subject subject = call w (λ s. (or_not_found (find (has_subject subject) s.db.users), s))

  unfoldable pub get_by_email : String → Exec (Platform X) User
  get_by_email email = call w (λ s. (or_not_found (find (has_email email) s.db.users), s))

  unfoldable pub list_users : Page → Exec (Platform X) (List User)
  list_users page =
      wrapped "listing users"
        (call w (λ s. (ok (paged page (newest_where (λ u. true) user_age s.db.users)), s)))

  -- An email that another row has is refused.
  unfoldable pub update_user : User → Exec (Platform X) (Unit {0})
  update_user given = do
    now ← clock w
    let u = record given { timestamps = touch now given.timestamps }
    wrapped "updating user" (
        call w (λ s.
          if affects (user_has_id u.id) s.db.users
            && affects (λ row. has_email u.email row && (if row.id == u.id then false else true))
                s.db.users
          then (err (driver "duplicate key"), s)
          else (ok tt, s)))
    λ s.
        if affects (user_has_id u.id) s.db.users
        then (
          ok tt,
          record s {
            db = record s.db { users = update_rows (user_has_id u.id) (set_user u) s.db.users };
          },
        )
        else (err (sentinel not_found), s)

  -- `ON DELETE CASCADE`: the role bindings of the user go with it.
  unfoldable pub delete_user : Uuid → Exec (Platform X) (Unit {0})
  delete_user id = do
    wrapped "deleting user" (call w (λ s. (ok tt, s)))
    λ s.
        if affects (user_has_id id) s.db.users
        then (
          ok tt,
          record s {
            db = record s.db {
              users = delete_rows (user_has_id id) s.db.users;
              role_bindings = delete_rows (λ (b : RoleBinding). b.user_id == id) s.db.role_bindings;
            };
          },
        )
        else (err (sentinel not_found), s)

  -- The user must be there.
  unfoldable pub create_role_binding : RoleBinding → Exec (Platform X) RoleBinding
  unfolding weight
  create_role_binding given = do
    now ← clock w
    id ← (λ s. if given.id == 0 then new_id w s else (ok given.id, s))
    let b = record given { id = id; timestamps = touch now given.timestamps }
    wrapped "inserting role binding" (
        call w (λ s.
          if affects (user_has_id b.user_id) s.db.users
          then (if affects (binding_clashes b) s.db.role_bindings
              then (err (driver "duplicate key"), s)
              else (
                ok b,
                record s { db = record s.db { role_bindings = s.db.role_bindings ++ b ∷ [] } },
              ))
          else (err (driver "violates foreign key"), s)))

  unfoldable pub delete_role_binding : Uuid → Exec (Platform X) (Unit {0})
  delete_role_binding id = do
    wrapped "deleting role binding" (call w (λ s. (ok tt, s)))
    λ s.
        if affects (binding_has_id id) s.db.role_bindings
        then (
          ok tt,
          record s {
            db = record s.db { role_bindings = delete_rows (binding_has_id id) s.db.role_bindings };
          },
        )
        else (err (sentinel not_found), s)
