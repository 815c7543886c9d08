-- ===== src/AuthService.antt =====
-- internal/application/authservice/service.go, and `Authenticate` of
-- internal/interfaces/http/middleware/auth.go. The identity provider and the issuer of tokens are
-- parameters.
pub mod Logins
use talos_app.Prelude.{
  ℕ, ◌==◌, String, Bool, true, false, Option, none, some, List, [], ◌∷◌, str_eq, str_append,
  if◌then◌else◌, codes,
}
use Prim.Native.Char.{code}
use talos_app.Shared.{wrap, sentinel, not_found, not_implemented, is, no_timestamps}
use talos_app.Exec.{Exec, Result, ok, err, pure, raise, attempt, wrapped, ◌>>=◌, ◌>>◌}
use talos_app.Domain.User.{User}
use talos_app.Platform.{Platform, World, new_id}
use talos_app.UserRepo.{get_by_subject, create_user}

-- `ports.Identity`
pub record Identity : Type 0 where
  pub subject : String
  pub email : String
  pub name : String

module _ {X : Type 0} (w : World) where
  unfoldable pub create_identity : Identity → Exec (Platform X) User
  create_identity identity = do
    id ← new_id w
    wrapped "creating user" (
        create_user w (record {
          id = id;
          email = identity.email;
          name = identity.name;
          subject = identity.subject;
          disabled = false;
          timestamps = no_timestamps;
        }))

  -- The rest of `GetOrCreateUser` from the answer to the lookup.
  unfoldable pub resolved : Identity → Result User → Exec (Platform X) User
  resolved identity (ok u) = pure u
  resolved identity (err x) =
      if is x not_found
      then create_identity identity
      else raise (wrap "looking up user by subject" x)

  unfoldable pub get_or_create_user : Identity → Exec (Platform X) User
  get_or_create_user identity = do
    found ← attempt (get_by_subject w identity.subject)
    resolved identity found

  -- `IssueToken` of a subject, an email and a name, or no issuer.
  unfoldable pub dev_login :
      Option (String → String → String → Exec (Platform X) String)
      → String
      → String
      → Exec (Platform X) (String × User)
  dev_login none email name =
      raise (wrap "%w: dev login is not available in this auth mode" (sentinel not_implemented))
  dev_login (some issue) email name = do
    let subject = str_append "dev|" email
    u ← get_or_create_user (record { subject = subject; email = email; name = name })
    token ← wrapped "issuing token" (issue subject email name)
    pure (token, u)

-- `strings.CutPrefix`
unfoldable pub cut_prefix : String → String → Option String
cut_prefix String.[] s = some s
cut_prefix (String.◌∷◌ c p) String.[] = none
cut_prefix (String.◌∷◌ c p) (String.◌∷◌ d s) =
    let rest = cut_prefix p s in if code c == code d then rest else none

-- A request is refused with a status and a message, or served by the next handler.
pub data Outcome (R : Type 0) : Type 0 where
  denied : ℕ → String → Outcome R
  served : R → Outcome R

module _ {X R : Type 0} (w : World) (verify : String → Exec (Platform X) Identity)
    (next : User → Platform X → R × Platform X) where
  abbrev serve : R × Platform X → Outcome R × Platform X
  serve (r, s) = (served r, s)

  -- `Authenticate` from the user on.
  unfoldable pub admit : Result User × Platform X → Outcome R × Platform X
  admit (err x, s) = (denied 500 "resolving user", s)
  admit (ok u, s) = if u.disabled then (denied 403 "account disabled", s) else serve (next u s)

  -- From the identity on.
  unfoldable pub identify : Result Identity × Platform X → Outcome R × Platform X
  unfolding admit
  identify (err x, s) = (denied 401 "invalid token", s)
  identify (ok identity, s) = admit (get_or_create_user w identity s)

  unfoldable pub with_token : Option String → Platform X → Outcome R × Platform X
  unfolding identify
  with_token none s = (denied 401 "missing bearer token", s)
  with_token (some token) s =
      if str_eq token "" then (denied 401 "missing bearer token", s) else identify (verify token s)

  -- `Authenticate`, of the header `Authorization`.
  unfoldable pub authenticate : String → Platform X → Outcome R × Platform X
  unfolding with_token
  authenticate header = with_token (cut_prefix "Bearer " header)
