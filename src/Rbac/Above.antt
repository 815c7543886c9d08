-- ===== src/Rbac/Above.antt =====
-- The tenancy above a resource, and the loops of internal/auth/rbac.go over bindings and scopes.
use talos_app.Prelude.{
  ◌≡◌, refl, ap, ◌∙◌, sym, Bool, true, none, some, List, [], ◌∷◌, ◌==◌, ◌||◌, ◌≤◌, arith, find, inl,
  inr, Bool-cases, Option, subst, ==_iff,
}
use talos_app.Shared.{Uuid, zero_id}
use talos_app.Exec.{ok}
use talos_app.Exec.Ensures.{ok-injective}
use talos_app.Domain.User.{
  Role, weight, satisfies, ResourceKind, platform, organization, project, environment, cluster,
  kind_eq, RoleBinding,
}
use talos_app.Domain.Cluster.{Cluster}
use talos_app.Domain.Tenancy.{Project, Environment}
use talos_app.Platform.{Db}
use talos_app.Platform.Rows.{or_not_found, select}
use talos_app.Platform.Rows.Lookup.{In}
use talos_app.ClusterRepo.{cluster_has_id}
use talos_app.Rbac.{
  Scope, environment_has_id, project_has_id, is_of_user, grants, any_binding, any_scope,
}

-- A resource and what is above it in the tenancy tables: itself, the environment of a cluster, the
-- project of an environment, the organization of a project, and the platform above all.
pub data Above (db : Db) : ResourceKind → Uuid → Scope → Type 0 where
  itself : (kind : ResourceKind) (id : Uuid) → Above db kind id (record { kind = kind; id = id })
  everywhere :
      (kind : ResourceKind) (id : Uuid)
      → Above db kind id (record { kind = platform; id = zero_id })
  of_cluster :
      (id : Uuid) (c : Cluster) (scope : Scope)
      → find (cluster_has_id id) db.clusters ≡ some c
      → Above db environment c.environment_id scope
      → Above db cluster id scope
  of_environment :
      (id : Uuid) (env : Environment) (scope : Scope)
      → find (environment_has_id id) db.environments ≡ some env
      → Above db project env.project_id scope
      → Above db environment id scope
  of_project :
      (id : Uuid) (p : Project) (scope : Scope)
      → find (project_has_id id) db.projects ≡ some p
      → Above db organization p.organization_id scope
      → Above db project id scope

-- A binding of the user, at the resource or above it, with a role of enough weight.
pub record Granted (db : Db) (user : Uuid) (kind : ResourceKind) (id : Uuid) (required : Role)
    : Type 0 where
  pub binding : RoleBinding
  pub scope : Scope
  pub stored : In binding db.role_bindings
  pub owner : binding.user_id ≡ user
  pub is_above : Above db kind id scope
  pub same_kind : kind_eq binding.resource_kind scope.kind ≡ true
  pub same_id : (kind_eq scope.kind platform || binding.resource_id == scope.id) ≡ true
  pub enough : weight required ≤ weight binding.role

pub row_of : {A : Type 0} (r : Option A) (a : A) → or_not_found r ≡ ok a → r ≡ some a
row_of none a h = ground arith
row_of (some b) a h = ap some (ok-injective b a h)

module _ (db : Db) where
  abbrev pub AllAbove : ResourceKind → Uuid → List Scope → Type 0
  AllAbove kind id chain = (scope : Scope) → In scope chain → Above db kind id scope

  pub add_scope :
      (kind : ResourceKind) (id : Uuid) (scope : Scope)
      → Above db kind id scope
      → (rest : List Scope) → AllAbove kind id rest
      → AllAbove kind id (scope ∷ rest)
  add_scope kind id scope a rest all s (inl e) = subst (Above db kind id) (sym e) a
  add_scope kind id scope a rest all s (inr i) = all s i

  pub top :
      (kind : ResourceKind) (id : Uuid)
      → AllAbove kind id (record { kind = platform; id = zero_id } ∷ [])
  top kind id s (inl e) = subst (Above db kind id) (sym e) (everywhere kind id)
  top kind id s (inr i) = elim i [ ]

select-In :
    {A : Type 0} (p : A → Bool) (xs : List A) (x : A) → In x (select p xs) → In x xs × (p x ≡ true)
unfolding select
select-In p [] x i = elim i [ ]
select-In p (y ∷ ys) x i = elim (Bool-cases (p y)) [
  | inl b ↦ elim (rw b at i) [
    | inl e ↦ (inl e, ap p e ∙ b)
    | inr j ↦ let (k, q) = select-In p ys x j in (inr k, q)
  ]
  | inr b ↦ let (k, q) = select-In p ys x (rw b at i) in (inr k, q)
]

any_binding-In :
    (required : Role) (scope : Scope) (bs : List RoleBinding)
    → any_binding required scope bs ≡ true
    → (b : RoleBinding) × In b bs × (grants required scope b ≡ true)
unfolding any_binding
any_binding-In required scope [] h = ground arith
any_binding-In required scope (b ∷ rest) h = elim (Bool-cases (grants required scope b)) [
  | inl g ↦ (b, inl refl, g)
  | inr g ↦ let (c, i, k) = any_binding-In required scope rest (rw g at h) in (c, inr i, k)
]

any_scope-In :
    (required : Role) (bs : List RoleBinding) (chain : List Scope)
    → any_scope required bs chain ≡ true
    → (scope : Scope) × In scope chain × (any_binding required scope bs ≡ true)
unfolding any_scope
any_scope-In required bs [] h = ground arith
any_scope-In required bs (scope ∷ rest) h = elim (Bool-cases (any_binding required scope bs)) [
  | inl g ↦ (scope, inl refl, g)
  | inr g ↦ let (c, i, k) = any_scope-In required bs rest (rw g at h) in (c, inr i, k)
]

grants-parts :
    (required : Role) (scope : Scope) (b : RoleBinding)
    → grants required scope b ≡ true
    → (kind_eq b.resource_kind scope.kind ≡ true)
      × ((kind_eq scope.kind platform || b.resource_id == scope.id) ≡ true)
      × (weight required ≤ weight b.role)
unfolding grants satisfies
grants-parts required scope b h = ground arith

pub granted :
    (db : Db) (user : Uuid) (kind : ResourceKind) (id : Uuid) (required : Role)
    (bs : List RoleBinding) (chain : List Scope)
    → bs ≡ select (is_of_user user) db.role_bindings
    → AllAbove db kind id chain
    → any_scope required bs chain ≡ true
    → Granted db user kind id required
granted db user kind id required bs chain q all h =
    let (scope, i, a) = any_scope-In required bs chain h in
    let (b, j, g) = any_binding-In required scope bs a in
    let (stored, mine) = select-In (is_of_user user) db.role_bindings b (subst (In b) q j) in
    let (k, r, e) = grants-parts required scope b g in
    record {
      binding = b;
      scope = scope;
      stored = stored;
      owner = (==_iff b.user_id user).0 mine;
      is_above = all scope i;
      same_kind = k;
      same_id = r;
      enough = e;
    }
