-- ===== src/Rbac/Complete.antt =====
-- When internal/auth/rbac.go has to allow a request.
use talos_app.Prelude.{
  ◌≡◌, sym, ap, ◌∙◌, Bool, true, List, [], ◌∷◌, arith, inl, inr, Bool-cases, ==_iff,
}
use talos_app.Shared.{Uuid}
use talos_app.Exec.{ok, ◌>>=◌}
use talos_app.Domain.User.{Role, ResourceKind, RoleBinding}
use talos_app.Platform.{Platform, World, IsHealthy, call, tick}
use talos_app.Platform.Rows.{select}
use talos_app.Platform.Rows.Lookup.{In}
use talos_app.Rbac.{
  Scope, is_of_user, grants, any_binding, any_scope, scope_chain, list_role_bindings_for_user,
  authorize_with, authorize,
}

In-select :
    {A : Type 0} (p : A → Bool) (xs : List A) (x : A) → In x xs → p x ≡ true → In x (select p xs)
unfolding select
In-select p [] x i h = i
In-select p (y ∷ ys) x (inl e) h = rw (ap p (sym e) ∙ h) (inl e)
In-select p (y ∷ ys) x (inr i) h = elim (Bool-cases (p y)) [
  | inl b ↦ rw b (inr (In-select p ys x i h))
  | inr b ↦ rw b (In-select p ys x i h)
]

In-any_binding :
    (required : Role) (scope : Scope) (bs : List RoleBinding) (b : RoleBinding)
    → In b bs
    → grants required scope b ≡ true
    → any_binding required scope bs ≡ true
unfolding any_binding
In-any_binding required scope [] b i h = elim i [ ]
In-any_binding required scope (c ∷ rest) b (inl e) h = rw (ap (grants required scope) (sym e) ∙ h)
In-any_binding required scope (c ∷ rest) b (inr i) h =
    ground (arith, In-any_binding required scope rest b i h)

In-any_scope :
    (required : Role) (bs : List RoleBinding) (chain : List Scope) (scope : Scope)
    → In scope chain
    → any_binding required scope bs ≡ true
    → any_scope required bs chain ≡ true
unfolding any_scope
In-any_scope required bs [] scope i h = elim i [ ]
In-any_scope required bs (c ∷ rest) scope (inl e) h =
    rw (ap (λ y. any_binding required y bs) (sym e) ∙ h)
In-any_scope required bs (c ∷ rest) scope (inr i) h =
    ground (arith, In-any_scope required bs rest scope i h)

module _ {X : Type 0} (w : World) where
  authorize_with-ok :
      (bs : List RoleBinding) (b : RoleBinding) (kind : ResourceKind) (id : Uuid) (required : Role)
      (chain : List Scope) (s : Platform X)
      → In b bs
      → (scope_chain w kind id s).0 ≡ ok chain
      → any_scope required bs chain ≡ true
      → (authorize_with w bs kind id required s).0 ≡ ok tt
  unfolding authorize_with ◌>>=◌
  authorize_with-ok [] b kind id required chain s i c a = elim i [ ]
  authorize_with-ok (d ∷ rest) b kind id required chain s i c a = rw c (rw a)

  -- Where every call goes through and the scopes of the resource can be read, a stored binding of the
  -- user that the inner test accepts at one of these scopes is enough, wherever it stands among the
  -- bindings of the user and whatever the others say.
  pub authorize_complete :
      (user : Uuid) (kind : ResourceKind) (id : Uuid) (required : Role) (s : Platform X)
      (chain : List Scope) (scope : Scope) (b : RoleBinding)
      → IsHealthy w
      → (scope_chain w kind id (tick s)).0 ≡ ok chain
      → In scope chain
      → In b s.db.role_bindings
      → b.user_id ≡ user
      → grants required scope b ≡ true
      → (authorize w user kind id required s).0 ≡ ok tt
  unfolding authorize list_role_bindings_for_user call ◌>>=◌
  authorize_complete user kind id required s chain scope b h c i j mine g =
      let bs = select (is_of_user user) s.db.role_bindings in
      let k = In-select (is_of_user user) s.db.role_bindings b j ((==_iff b.user_id user).1 mine) in
      rw (h s.calls) (
        authorize_with-ok bs b kind id required chain (tick s) k c
          (In-any_scope required bs chain scope i (In-any_binding required scope bs b k g)))
