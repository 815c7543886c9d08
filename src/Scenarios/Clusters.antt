-- ===== src/Scenarios/Clusters.antt =====
-- Requests on a cluster.
use talos_app.Prelude.{◌≡◌, refl, some, none, [], ◌∷◌, true, false, find, arith}
use talos_app.Shared.{ref, sentinel, precondition_fail, wrap, text, no_timestamps}
use talos_app.Exec.{err, wrapped}
use talos_app.Domain.Cluster.{
  Cluster, Spec, State, direct_talos, draft, planning, validating, ready, provisioning, deleting,
  can_transition,
}
use talos_app.Domain.Workflow.{Kind}
use talos_app.Platform.{Platform, empty_db}
use talos_app.ClusterRepo.{cluster_has_id}
use talos_app.Engine.{lookup, enqueue}
use talos_app.ClusterService.{provision, delete, upgrade, scale_workers}
use talos_app.ClusterService.Held.{Moved}
use talos_app.ClusterService.Moves.{requests_follow_table}
use talos_app.ClusterService.Answers.{state_of, provision_refused, provision_accepted, delete_stuck}
use talos_app.Scenarios.{healthy, publish_fails, healthy-IsHealthy, engine}

abbrev pub a_spec : Spec
a_spec = record {
  kubernetes_version = "v1.31.0";
  talos_version = "v1.8.0";
  control_plane = record { replicas = 3; cpu = 4; memory_gb = 8 };
  workers =
      (record { name = "general"; replicas = 2; cpu = 4; memory_gb = 8; labels = []; taints = [] })
      ∷ [];
  network = record { pod_cidr = "10.244.0.0/16"; service_cidr = "10.96.0.0/12" };
  cni = record { kind = "cilium"; values = [] };
  storage = record { csi = ""; values = [] };
  ingress = record { controller = ""; values = [] };
  observability = record {
    prometheus = true;
    grafana = false;
    loki = false;
    open_telemetry = false;
  };
  gitops = record { repository_id = 0; path = ""; branch = "" };
  argocd = record { enabled = false; project = "" };
}

abbrev pub a_cluster : State → Cluster
a_cluster state = record {
  id = 5;
  organization_id = 10;
  project_id = 20;
  environment_id = 30;
  site_id = 40;
  template_id = none;
  name = "edge";
  endpoint = "";
  provider_mode = direct_talos;
  state = state;
  talos_config_ref = "";
  spec = a_spec;
  git_commit_sha = "";
  timestamps = no_timestamps;
}

abbrev pub holding : State → Platform (Unit {0})
holding state = record {
  db = record empty_db { clusters = a_cluster state ∷ [] };
  dispatches = [];
  outside = tt;
  calls = 0;
}

found :
    (state : State) → find (cluster_has_id 5) (holding state).db.clusters ≡ some (a_cluster state)
unfolding find
found state = refl

requests_follow_table_example :
    let s = holding draft in
    Moved
      (planning ∷ validating ∷ provisioning ∷ [])
      5
      s.db.clusters
      (provision publish_fails engine 5 1 "key" s).1.db.clusters
    × Moved (deleting ∷ []) 5 s.db.clusters (delete publish_fails engine 5 1 "key" s).1.db.clusters
    × Moved [] 5 s.db.clusters (upgrade publish_fails engine 5 1 "key" "v1.32.0" "" s).1.db.clusters
    × Moved [] 5 s.db.clusters
        (scale_workers publish_fails engine 5 1 "key" "general" 4 s).1.db.clusters
requests_follow_table_example =
    requests_follow_table publish_fails engine 5 1 "key" "v1.32.0" "" "general" 4 (holding draft)

provision_refused_example :
    let r = provision healthy engine 5 1 "key" (holding provisioning) in
    (r.0 ≡ err (wrap "transitioning cluster to %s" (sentinel precondition_fail)))
    × (r.1.db ≡ (holding provisioning).db)
    × (r.1.dispatches ≡ [])
provision_refused_example =
    provision_refused healthy engine healthy-IsHealthy 5 1 "key" (a_cluster provisioning)
      (holding provisioning) (found provisioning) refl (λ q. ground (arith, q))
      (λ q. ground (arith, q))

provision_accepted_example :
    (s' : Platform (Unit {0})) × (state_of 5 s' ≡ some provisioning)
    × (s'.db.workflows ≡ [])
    × (s'.dispatches ≡ [])
    × (provision healthy engine 5 1 "key" (holding draft)
        ≡ wrapped "enqueuing provisioning workflow"
            (enqueue healthy engine Kind.cluster_provision "key"
              (("clusterId", ref 5) ∷ [])
              (some 5)
              none
              1)
            s')
provision_accepted_example =
    provision_accepted healthy engine healthy-IsHealthy 5 1 "key" (a_cluster draft) (holding draft)
      (found draft) refl (unfold can_transition in refl)

delete_stuck_example :
    let r = delete healthy engine 5 1 "key" (holding ready) in
    (r.0 ≡ err (text "no workflow definition registered for type %s"))
    × (state_of 5 r.1 ≡ some deleting)
    × (r.1.db.workflows ≡ [])
    × (r.1.dispatches ≡ [])
delete_stuck_example =
    delete_stuck healthy engine healthy-IsHealthy 5 1 "key" (a_cluster ready) (holding ready)
      (found ready) (unfold can_transition in refl) (unfold find in refl) (unfold lookup in refl)
