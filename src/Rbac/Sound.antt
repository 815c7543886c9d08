-- ===== src/Rbac/Sound.antt =====
-- What an authorization of internal/auth/rbac.go rests on, and what suffices for one.
use talos_app.Prelude.{
  ◌≡◌, refl, ap, ◌∙◌, sym, List, [], ◌∷◌, arith, find, inl, inr, Bool-cases, Option-cases,
}
use talos_app.Shared.{Uuid, zero_id}
use talos_app.Exec.{Result, ok, err}
use talos_app.Exec.Ensures.{
  ok-injective, Ensures, Ensures-pure, Ensures-raise, Ensures-bind, Ensures-wrapped,
}
use talos_app.Domain.User.{
  Role, ResourceKind, platform, organization, project, environment, cluster, RoleBinding,
}
use talos_app.Platform.{Platform, Db, World, call}
use talos_app.Platform.Rows.{or_not_found, select}
use talos_app.ClusterRepo
use talos_app.ClusterRepo.{cluster_has_id}
use talos_app.Rbac.{
  environment_has_id, project_has_id, is_of_user, any_scope, get_environment, get_project,
  list_role_bindings_for_user, above, scope_chain, authorize_with, authorize,
}
use talos_app.Rbac.Above.{
  itself, of_cluster, of_environment, of_project, Granted, AllAbove, row_of, add_scope, top,
  granted,
}

module _ {X : Type 0} (w : World) (db : Db) where
  abbrev Reads : Platform X → Type 0
  Reads s = s.db ≡ db

  -- One read of the tables.
  read-Ensures :
      {A : Type 0} (f : Db → Result A)
      → Ensures Reads (λ a. f db ≡ ok a) (call w (λ s. (f s.db, s)))
  unfolding call
  read-Ensures f = record {
    at = λ s i a h. elim (Option-cases (w.fault s.calls)) [
      | inl n ↦ (ap f (sym i) ∙ rw n at h, rw n i)
      | inr (message, n) ↦ (let c : err _ ≡ ok a = rw n at h in ground (arith, c))
    ];
  }

  above_project-Ensures : (id : Uuid) → Ensures Reads (AllAbove db project id) (above w project id)
  unfolding above get_project
  above_project-Ensures id =
      Ensures-bind _ _ (read-Ensures (λ d. or_not_found (find (project_has_id id) d.projects)))
        (λ p h.
          let found = row_of (find (project_has_id id) db.projects) p h in
          Ensures-pure _ (
            add_scope db project id _
              (of_project id p _ found (itself organization p.organization_id))
              (record { kind = platform; id = zero_id } ∷ []) (top db project id)))

  above_environment-Ensures :
      (id : Uuid) → Ensures Reads (AllAbove db environment id) (above w environment id)
  unfolding above get_environment
  above_environment-Ensures id =
      Ensures-bind _ _
        (read-Ensures (λ d. or_not_found (find (environment_has_id id) d.environments)))
        (λ env h.
          let found = row_of (find (environment_has_id id) db.environments) env h in
          Ensures-bind _ _ (above_project-Ensures env.project_id) (λ rest all. Ensures-pure _ (
            add_scope db environment id _
              (of_environment id env _ found (itself project env.project_id)) rest
              (λ s i. of_environment id env s found (all s i)))))

  above_cluster-Ensures : (id : Uuid) → Ensures Reads (AllAbove db cluster id) (above w cluster id)
  unfolding above ClusterRepo.get
  above_cluster-Ensures id =
      Ensures-bind _ _ (read-Ensures (λ d. or_not_found (find (cluster_has_id id) d.clusters)))
        (λ c h.
          let found = row_of (find (cluster_has_id id) db.clusters) c h in
          Ensures-bind _ _ (above_environment-Ensures c.environment_id) (λ rest all.
            Ensures-pure _ (
              add_scope db cluster id _
                (of_cluster id c _ found (itself environment c.environment_id)) rest
                (λ s i. of_cluster id c s found (all s i)))))

  above-Ensures :
      (kind : ResourceKind) (id : Uuid) → Ensures Reads (AllAbove db kind id) (above w kind id)
  unfolding above
  above-Ensures cluster id = above_cluster-Ensures id
  above-Ensures environment id = above_environment-Ensures id
  above-Ensures project id = above_project-Ensures id
  above-Ensures organization id = Ensures-pure _ (top db organization id)
  above-Ensures platform id = Ensures-pure _ (top db platform id)

  scope_chain-Ensures :
      (kind : ResourceKind) (id : Uuid)
      → Ensures Reads (AllAbove db kind id) (scope_chain w kind id)
  unfolding scope_chain
  scope_chain-Ensures kind id =
      Ensures-bind _ _ (above-Ensures kind id)
        (λ rest all. Ensures-pure _ (add_scope db kind id _ (itself kind id) rest all))

  authorize_with-Ensures :
      (user : Uuid) (bindings : List RoleBinding) (kind : ResourceKind) (id : Uuid)
      (required : Role)
      → bindings ≡ select (is_of_user user) db.role_bindings
      → Ensures Reads
          (λ _. Granted db user kind id required)
          (authorize_with w bindings kind id required)
  unfolding authorize_with
  authorize_with-Ensures user [] kind id required q = Ensures-raise _
  authorize_with-Ensures user (b ∷ rest) kind id required q =
      Ensures-bind _ _ (scope_chain-Ensures kind id) (λ chain all.
        elim (Bool-cases (any_scope required (b ∷ rest) chain)) [
          | inl t ↦
              rw t (Ensures-pure _ (granted db user kind id required (b ∷ rest) chain q all t))
          | inr f ↦ rw f (Ensures-raise _)
        ])

  authorize-Ensures :
      (user : Uuid) (kind : ResourceKind) (id : Uuid) (required : Role)
      → Ensures Reads (λ _. Granted db user kind id required) (authorize w user kind id required)
  unfolding authorize list_role_bindings_for_user
  authorize-Ensures user kind id required =
      Ensures-bind _ _
        (Ensures-wrapped _ _
          (Ensures-wrapped _ _ (read-Ensures (λ d. ok (select (is_of_user user) d.role_bindings)))))
        (λ bindings h.
          authorize_with-Ensures user bindings kind id required (sym (ok-injective _ bindings h)))

module _ {X : Type 0} (w : World) where
  -- Whatever calls fail, an authorization that succeeds rests on a stored binding of the user itself
  -- at the resource or at one above it in the tenancy tables, with a role of at least the weight
  -- that is required. The tables are as they were.
  pub authorize_sound :
      (user : Uuid) (kind : ResourceKind) (id : Uuid) (required : Role) (s : Platform X)
      → (authorize w user kind id required s).0 ≡ ok tt
      → Granted s.db user kind id required × ((authorize w user kind id required s).1.db ≡ s.db)
  authorize_sound user kind id required s h =
      (authorize-Ensures w s.db user kind id required).at s refl tt h
