-- ===== src/Scenarios/Logins.antt =====
-- A first login and a second one, and a request of a disabled account.
use talos_app.Prelude.{◌≡◌, ℕ, refl, String, Bool, true, false, [], ◌∷◌, find}
use talos_app.Shared.{no_timestamps}
use talos_app.Exec.{ok}
use talos_app.Domain.User.{User}
use talos_app.Platform.{Platform, empty_db, tick}
use talos_app.AuthService.{Identity, denied, get_or_create_user, authenticate}
use talos_app.AuthService.Logins.{get_or_create_user-again, authenticate-disabled}
use talos_app.Scenarios.{healthy, healthy-IsHealthy, publish_fails}

abbrev ada : Identity
ada = record { subject = "dev|ada"; email = "ada@acme.org"; name = "Ada" }

abbrev ada_user : Bool → User
ada_user disabled = record {
  id = 101;
  email = "ada@acme.org";
  name = "Ada";
  subject = "dev|ada";
  disabled = disabled;
  timestamps = record { created_at = 2; updated_at = 2 };
}

abbrev no_users : Platform (Unit {0})
no_users = record { db = empty_db; dispatches = []; outside = tt; calls = 0 }

abbrev with_ada : Bool → Platform (Unit {0})
with_ada disabled = record no_users { db = record empty_db { users = ada_user disabled ∷ [] } }

get_or_create_user-again_example :
    get_or_create_user healthy ada (with_ada false) ≡ (ok (ada_user false), tick (with_ada false))
unfolding get_or_create_user talos_app.AuthService.resolved talos_app.AuthService.create_identity
    talos_app.UserRepo.get_by_subject talos_app.UserRepo.create_user talos_app.UserRepo.insert_user
    talos_app.Platform.Rows.affects talos_app.Platform.call talos_app.Shared.is find
    talos_app.Shared.touch talos_app.Exec.◌>>=◌
get_or_create_user-again_example =
    get_or_create_user-again healthy healthy-IsHealthy ada (ada_user false) no_users
      (with_ada false) refl refl

authenticate-disabled_example :
    let r =
      authenticate publish_fails
        (λ token s. (ok ada, s))
        (λ u s. (u.name, s))
        "Bearer abc"
        (with_ada true) in
    ((code : ℕ) × (message : String) × (r.0 ≡ denied code message)) × (r.1.db ≡ (with_ada true).db)
unfolding talos_app.AuthService.cut_prefix find
authenticate-disabled_example =
    authenticate-disabled publish_fails (λ token s. (ok ada, s)) (λ u s. (u.name, s)) "Bearer abc"
      "abc" ada (ada_user true) (with_ada true) refl refl refl refl
