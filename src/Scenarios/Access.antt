-- ===== src/Scenarios/Access.antt =====
-- Authorizations, and the life of a cluster.
use talos_app.Prelude.{◌≡◌, refl, List, [], ◌∷◌, inl, inr, find}
use talos_app.Shared.{no_timestamps, zero_id}
use talos_app.Exec.{ok, ◌>>=◌}
use talos_app.Domain.Cluster.{
  State, draft, planning, validating, provisioning, bootstrapping, installing, configuring, ready,
  failed, can_transition,
}
use talos_app.Domain.Cluster.Lifecycle.{Walk, stop, move, Within, pipeline, ready_needs_pipeline}
use talos_app.Domain.User.{
  Role, organization, project, environment, platform, satisfies, RoleBinding,
}
use talos_app.Domain.Tenancy.{Project, Environment, production}
use talos_app.Platform.{Platform, empty_db, call, tick}
use talos_app.Rbac.{Scope, grants, scope_chain, above, get_environment, get_project, authorize}
use talos_app.Rbac.Above.{Granted}
use talos_app.Rbac.Sound.{authorize_sound}
use talos_app.Rbac.Complete.{authorize_complete}
use talos_app.Scenarios.{healthy, healthy-IsHealthy}

-- A cluster that fails once while it installs.
abbrev life : List State
life =
    planning ∷ validating ∷ provisioning ∷ bootstrapping ∷ installing ∷ failed ∷ planning
    ∷ validating ∷ provisioning ∷ bootstrapping ∷ installing ∷ configuring ∷ ready ∷ []

life-Walk : Walk draft life ready
unfolding can_transition
life-Walk = move refl (
    move refl (
      move refl (
        move refl (
          move refl (
            move refl (
              move refl
                (move refl (move refl (move refl (move refl (move refl (move refl stop))))))))))))

ready_needs_pipeline_example : Within pipeline life
ready_needs_pipeline_example = ready_needs_pipeline life life-Walk

abbrev shop : Project
shop = record {
  id = 20;
  organization_id = 10;
  name = "shop";
  slug = "shop";
  description = "";
  timestamps = no_timestamps;
}

abbrev live_site : Environment
live_site = record {
  id = 30;
  project_id = 20;
  name = "production";
  slug = "production";
  kind = production;
  timestamps = no_timestamps;
}

abbrev org_admin_binding : RoleBinding
org_admin_binding = record {
  id = 1;
  user_id = 4;
  role = Role.org_admin;
  resource_kind = organization;
  resource_id = 10;
  timestamps = no_timestamps;
}

abbrev tenancy : Platform (Unit {0})
tenancy = record {
  db = record empty_db {
    projects = shop ∷ [];
    environments = live_site ∷ [];
    role_bindings = org_admin_binding ∷ [];
  };
  dispatches = [];
  outside = tt;
  calls = 0;
}

abbrev chain : List Scope
chain =
    record { kind = environment; id = 30 }
    ∷ record { kind = project; id = 20 }
    ∷ record { kind = organization; id = 10 }
    ∷ record { kind = platform; id = zero_id }
    ∷ []

chain_read : (scope_chain healthy environment 30 (tick tenancy)).0 ≡ ok chain
unfolding scope_chain above get_environment get_project call find ◌>>=◌
chain_read = refl

authorize_complete_example : (authorize healthy 4 environment 30 Role.operator tenancy).0 ≡ ok tt
authorize_complete_example =
    authorize_complete healthy 4 environment 30 Role.operator tenancy chain
      (record { kind = organization; id = 10 }) org_admin_binding healthy-IsHealthy chain_read
      (inr (inr (inl refl))) (inl refl) refl (unfold grants satisfies in refl)

authorize_sound_example :
    Granted tenancy.db 4 environment 30 Role.operator
    × ((authorize healthy 4 environment 30 Role.operator tenancy).1.db ≡ tenancy.db)
authorize_sound_example =
    authorize_sound healthy 4 environment 30 Role.operator tenancy authorize_complete_example
