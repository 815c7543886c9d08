-- ===== src/ClusterRepo/Listing.antt =====
-- `List` of internal/infrastructure/postgres/cluster_repo.go.
use talos_app.Prelude.{String, Bool, true, false, Option, none, some, List, ◌&&◌}
use talos_app.Shared.{Uuid, Time, Page, matches_id, matches_text}
use talos_app.Exec.{Exec, ok, wrapped}
use talos_app.Domain.Cluster.{Cluster, ProviderMode, direct_talos, cluster_api, State, state_eq}
use talos_app.Platform.{Platform, World, call}
use talos_app.Platform.Rows.{newest_where, paged}

-- `cluster.Filter`; an empty mode or state is none.
pub record Filter : Type 0 where
  pub organization_id : Option Uuid
  pub project_id : Option Uuid
  pub environment_id : Option Uuid
  pub site_id : Option Uuid
  pub provider_mode : Option ProviderMode
  pub state : Option State
  pub kubernetes_version : String
  pub talos_version : String

abbrev pub no_filter : Filter
no_filter = record {
  organization_id = none;
  project_id = none;
  environment_id = none;
  site_id = none;
  provider_mode = none;
  state = none;
  kubernetes_version = "";
  talos_version = "";
}

abbrev mode_eq : ProviderMode → ProviderMode → Bool
mode_eq direct_talos direct_talos = true
mode_eq cluster_api cluster_api = true
mode_eq _ _ = false

abbrev matches_mode : Option ProviderMode → ProviderMode → Bool
matches_mode none m = true
matches_mode (some wanted) m = mode_eq m wanted

abbrev matches_state : Option State → State → Bool
matches_state none t = true
matches_state (some wanted) t = state_eq t wanted

unfoldable pub satisfies : Filter → Cluster → Bool
satisfies f c =
    matches_id f.organization_id c.organization_id
    && matches_id f.project_id c.project_id
    && matches_id f.environment_id c.environment_id
    && matches_id f.site_id c.site_id
    && matches_mode f.provider_mode c.provider_mode
    && matches_state f.state c.state
    && matches_text f.kubernetes_version c.spec.kubernetes_version
    && matches_text f.talos_version c.spec.talos_version

-- `ORDER BY created_at DESC`
abbrev pub cluster_age : Cluster → Time
cluster_age c = c.timestamps.created_at

unfoldable pub list_clusters :
    {X : Type 0} → World → Filter → Page → Exec (Platform X) (List Cluster)
list_clusters w f page =
    wrapped "listing clusters"
      (call w (λ s. (ok (paged page (newest_where (satisfies f) cluster_age s.db.clusters)), s)))
