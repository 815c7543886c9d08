-- ===== src/AuthService/Logins.antt =====
-- Logins that follow one another, and the accounts that are refused.
use talos_app.Prelude.{
  ℕ, ◌≡◌, refl, ap, ◌∙◌, String, Bool, true, none, some, List, [], ◌∷◌, ◌++◌, ◌==◌, arith, find,
  str_eq, str_eq-refl, Bool-cases, Option-cases, inl, inr,
}
use talos_app.Shared.{is}
use talos_app.Exec.{Exec, Result, ok, err, wrap_result, ◌>>=◌}
use talos_app.Exec.Ensures.{ok-injective}
use talos_app.Domain.User.{User}
use talos_app.Platform.{Platform, World, IsHealthy, call, tick}
use talos_app.Platform.Rows.{affects}
use talos_app.UserRepo.{has_subject, user_clashes, get_by_subject, insert_user, create_user}
use talos_app.AuthService.{
  Identity, denied, create_identity, resolved, get_or_create_user, admit, identify, with_token,
  authenticate, cut_prefix,
}

find-append :
    {A : Type 0} (p : A → Bool) (xs : List A) (a : A)
    → find p xs ≡ none
    → p a ≡ true
    → find p (xs ++ a ∷ []) ≡ some a
unfolding find
find-append p [] a h k = rw k refl
find-append p (x ∷ xs) a h k = ground (arith, h, find-append p xs a, k)

unwrapped : {A : Type 0} (l : String) (r : Result A) (a : A) → wrap_result l r ≡ ok a → r ≡ ok a
unwrapped l (ok b) a e = e
unwrapped l (err x) a e = ground (arith, e)

module _ {X : Type 0} (w : World) (h : IsHealthy w) where
  found_login :
      (identity : Identity) (u : User) (s : Platform X)
      → find (has_subject identity.subject) s.db.users ≡ some u
      → get_or_create_user w identity s ≡ (ok u, tick s)
  unfolding get_or_create_user resolved get_by_subject call ◌>>=◌
  found_login identity u s found = rw (h s.calls, found) refl

  inserted_found :
      (u v : User) (s : Platform X)
      → find (has_subject u.subject) s.db.users ≡ none
      → (insert_user w u s).0 ≡ ok v
      → find (has_subject u.subject) (insert_user w u s).1.db.users ≡ some v
  unfolding insert_user call ◌>>=◌
  inserted_found u v s missing made = elim (Bool-cases (affects (user_clashes u) s.db.users)) [
    | inl c ↦ ground (arith, rw (h s.calls, c) at made)
    | inr c ↦
        rw (h s.calls, c)
          (find-append (has_subject u.subject) s.db.users u missing (str_eq-refl u.subject)
            ∙ ap some (ok-injective u v (rw (h s.calls, c) at made)))
  ]

  -- A user who was created is the one that the lookup finds afterwards.
  created_found :
      (given u : User) (s : Platform X)
      → find (has_subject given.subject) s.db.users ≡ none
      → (create_user w given s).0 ≡ ok u
      → find (has_subject given.subject) (create_user w given s).1.db.users ≡ some u
  unfolding create_user ◌>>=◌
  created_found given u s missing made = elim (Bool-cases (given.id == 0)) [
    | inl z ↦ simp z (inserted_found _ u (tick (tick s)) missing (simp z at made))
    | inr z ↦ simp z (inserted_found _ u (tick s) missing (simp z at made))
  ]

  new_login :
      (identity : Identity) (u : User) (s : Platform X)
      → find (has_subject identity.subject) s.db.users ≡ none
      → (get_or_create_user w identity s).0 ≡ ok u
      → find (has_subject identity.subject) (get_or_create_user w identity s).1.db.users ≡ some u
  unfolding get_or_create_user resolved create_identity get_by_subject call is ◌>>=◌
  new_login identity u s n done =
      rw (h s.calls, n)
        (created_found _ u _ n (unwrapped "creating user" _ u (rw (h s.calls, n) at done)))

  -- Where every call goes through, an identity that logged in is the same user at any later login, with
  -- no table written, as long as the table of users is as the first login left it.
  pub get_or_create_user-again :
      (identity : Identity) (u : User) (s t : Platform X)
      → (get_or_create_user w identity s).0 ≡ ok u
      → t.db.users ≡ (get_or_create_user w identity s).1.db.users
      → get_or_create_user w identity t ≡ (ok u, tick t)
  get_or_create_user-again identity u s t done same =
      found_login identity u t (ap (find (has_subject identity.subject)) same ∙ kept)
    where
      kept :
          find (has_subject identity.subject) (get_or_create_user w identity s).1.db.users ≡ some u
      kept = elim (Option-cases (find (has_subject identity.subject) s.db.users)) [
        | inl n ↦ new_login identity u s n done
        | inr (v, e) ↦
            rw (found_login identity v s e)
              (e ∙ ap some (ok-injective v u (rw (found_login identity v s e) at done)))
      ]

module _ {X R : Type 0} (w : World) (verify : String → Exec (Platform X) Identity)
    (next : User → Platform X → R × Platform X) where
  -- Whatever calls fail, a request whose token the provider accepts for the identity of a disabled account
  -- is refused: the next handler is not asked, and no table is written.
  pub authenticate-disabled :
      (header token : String) (identity : Identity) (u : User) (s : Platform X)
      → cut_prefix "Bearer " header ≡ some token
      → verify token s ≡ (ok identity, s)
      → find (has_subject identity.subject) s.db.users ≡ some u
      → u.disabled ≡ true
      → let r = authenticate w verify next header s in
        ((code : ℕ) × (message : String) × (r.0 ≡ denied code message)) × (r.1.db ≡ s.db)
  unfolding authenticate with_token identify admit get_or_create_user resolved get_by_subject call
      is ◌>>=◌
  authenticate-disabled header token identity u s cut known found off =
      rw cut (elim (Bool-cases (str_eq token "")) [
        | inl e ↦ rw e ((401, "missing bearer token", refl), refl)
        | inr e ↦
            rw (e, known)
              (elim (Option-cases (w.fault s.calls)) [
                | inl n ↦ rw (n, found, off) ((403, "account disabled", refl), refl)
                | inr (message, n) ↦ rw n ((500, "resolving user", refl), refl)
              ])
      ])
