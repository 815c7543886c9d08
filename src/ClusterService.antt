-- ===== src/ClusterService.antt =====
-- internal/application/clusterservice/service.go: the requests on a cluster. Every change of the
-- desired state goes through a workflow run; the Argo CD client is a parameter.
pub mod Held
pub mod Moves
pub mod Answers
pub mod Rollback
use talos_app.Prelude.{
  ℕ, String, Bool, true, false, Option, none, some, List, [], ◌∷◌, ◌++◌, ◌||◌, ◌&&◌, str_eq,
  if◌then◌else◌, not,
}
use talos_app.Shared.{
  Uuid, Value, ref, str, int, sentinel, invalid_input, not_found, wrap, Text, lit, num, join,
  no_timestamps,
}
use talos_app.Exec.{Exec, Result, ok, err, pure, raise, lift, wrapped, ◌>>=◌, ◌>>◌}
use talos_app.Domain.Cluster.{
  Cluster, ProviderMode, direct_talos, cluster_api, Spec, WorkerPoolSpec, State, draft, planning,
  validating, provisioning, deleting, transition,
}
use talos_app.Domain.Workflow.{Workflow, Kind}
use talos_app.Platform.{Platform, World, clock, new_id}
use talos_app.ClusterRepo
use talos_app.Engine.{Engine, enqueue}

pub record CreateInput : Type 0 where
  pub organization_id : Uuid
  pub project_id : Uuid
  pub environment_id : Uuid
  pub site_id : Uuid
  pub template_id : Option Uuid
  pub name : String
  pub provider_mode : ProviderMode
  pub spec : Spec

abbrev is_empty : String → Bool
is_empty t = str_eq t ""

unfoldable pub drafted : Uuid → CreateInput → Cluster
drafted id input = record {
  id = id;
  organization_id = input.organization_id;
  project_id = input.project_id;
  environment_id = input.environment_id;
  site_id = input.site_id;
  template_id = input.template_id;
  name = input.name;
  endpoint = "";
  provider_mode = input.provider_mode;
  state = draft;
  talos_config_ref = "";
  spec = input.spec;
  git_commit_sha = "";
  timestamps = no_timestamps;
}

unfoldable pub pool_actions : List WorkerPoolSpec → List Text
pool_actions [] = []
pool_actions (p ∷ rest) =
    join (lit "+ Create %d Worker Machine(s) in pool %q") (join (num p.replicas) (lit p.name))
    ∷ pool_actions rest

abbrev named_action : String → String → List Text
named_action format name = if is_empty name then [] else join (lit format) (lit name) ∷ []

abbrev mode_name : ProviderMode → String
mode_name direct_talos = "DIRECT_TALOS"
mode_name cluster_api = "CLUSTER_API"

-- The summary that `Plan` renders.
unfoldable pub actions : Cluster → List Text
unfolding pool_actions
actions c =
    join (lit "+ Create Cluster %s (%s)") (join (lit c.name) (lit (mode_name c.provider_mode)))
      ∷ join (lit "+ Create %d Control Plane Machine(s)") (num c.spec.control_plane.replicas)
      ∷ pool_actions c.spec.workers
    ++ named_action "+ Install CNI: %s" c.spec.cni.kind
    ++ named_action "+ Install CSI: %s" c.spec.storage.csi
    ++ named_action "+ Install Ingress Controller: %s" c.spec.ingress.controller
    ++ (if c.spec.argocd.enabled then lit "+ Configure Argo CD GitOps" ∷ [] else [])

abbrev pub lacks_versions : Cluster → Bool
lacks_versions c = is_empty c.spec.kubernetes_version || is_empty c.spec.talos_version

-- The targets of `Upgrade` that are given.
unfoldable pub retarget : String → String → Cluster → Cluster
retarget kubernetes talos c = record c {
  spec = record c.spec {
    kubernetes_version = if is_empty kubernetes then c.spec.kubernetes_version else kubernetes;
    talos_version = if is_empty talos then c.spec.talos_version else talos;
  };
}

-- The loop of `ScaleWorkers`: the first pool of that name, or none.
unfoldable pub rescale : String → ℕ → List WorkerPoolSpec → Option (List WorkerPoolSpec)
rescale name n [] = none
rescale name n (p ∷ rest) =
    let later = rescale name n rest in
    if str_eq p.name name
    then some (record p { replicas = n } ∷ rest)
    else elim later [ none ↦ none | some ps ↦ some (p ∷ ps) ]

abbrev given_input : Cluster → List (String × Value)
given_input c = ("clusterId", ref c.id) ∷ []

module _ {X : Type 0} (w : World) where
  unfoldable pub create : CreateInput → Exec (Platform X) Cluster
  create input =
      if is_empty input.name
      then raise (wrap "%w: cluster name is required" (sentinel invalid_input))
      else (do id ← new_id w; wrapped "creating cluster" (ClusterRepo.create w (drafted id input)))

  unfoldable pub plan : Uuid → Exec (Platform X) (List Text)
  plan id = do
    c ← ClusterRepo.get w id
    if lacks_versions c
        then raise
            (wrap "%w: cluster spec is missing Kubernetes/Talos versions" (sentinel invalid_input))
        else pure (actions c)

  -- The loop over the states that `Provision` goes through.
  unfoldable pub transition_all : List State → Cluster → Exec (Platform X) Cluster
  transition_all [] c = pure c
  transition_all (next ∷ rest) c = do
    now ← clock w
    moved ← wrapped "transitioning cluster to %s" (lift (transition now next c))
    transition_all rest moved

  module _ (e : Engine X) where
    unfoldable pub provision : Uuid → Uuid → String → Exec (Platform X) Workflow
    provision id by key = do
      c ← ClusterRepo.get w id
      wrapped "plan validation failed" (plan id)
      moved ← transition_all (planning ∷ validating ∷ provisioning ∷ []) c
      wrapped "persisting cluster state" (ClusterRepo.update w moved)
      wrapped "enqueuing provisioning workflow"
          (enqueue w e Kind.cluster_provision key (given_input moved) (some moved.id) none by)

    unfoldable pub delete : Uuid → Uuid → String → Exec (Platform X) Workflow
    delete id by key = do
      c ← ClusterRepo.get w id
      now ← clock w
      moved ← wrapped "transitioning cluster to DELETING" (lift (transition now deleting c))
      wrapped "persisting cluster state" (ClusterRepo.update w moved)
      enqueue w e Kind.cluster_delete key (given_input moved) (some moved.id) none by

    unfoldable pub upgrade : Uuid → Uuid → String → String → String → Exec (Platform X) Workflow
    upgrade id by key kubernetes talos = do
      c ← ClusterRepo.get w id
      if is_empty kubernetes && is_empty talos
          then raise (wrap "%w: at least one target version is required" (sentinel invalid_input))
          else (do
            let aimed = retarget kubernetes talos c
            wrapped "persisting target versions" (ClusterRepo.update w aimed)
            enqueue w e Kind.cluster_upgrade key
                (("clusterId", ref aimed.id)
                  ∷ ("kubernetesVersion", str kubernetes)
                  ∷ ("talosVersion", str talos)
                  ∷ [])
                (some aimed.id) none by)

    -- The rest of `ScaleWorkers` once the pool is looked up.
    unfoldable pub scale_found :
        Option (List WorkerPoolSpec)
        → Cluster
        → Uuid
        → String
        → String
        → ℕ
        → Exec (Platform X) Workflow
    scale_found none c by key pool n =
        raise (wrap "%w: worker pool %q not found" (sentinel not_found))
    scale_found (some pools) c by key pool n = do
      let scaled = record c { spec = record c.spec { workers = pools } }
      wrapped "persisting scale request" (ClusterRepo.update w scaled)
      enqueue w e Kind.worker_scale key
          (("clusterId", ref scaled.id) ∷ ("pool", str pool) ∷ ("replicas", int n) ∷ [])
          (some scaled.id) none by

    unfoldable pub scale_workers : Uuid → Uuid → String → String → ℕ → Exec (Platform X) Workflow
    unfolding scale_found rescale
    scale_workers id by key pool n = do
      c ← ClusterRepo.get w id
      scale_found (rescale pool n c.spec.workers) c by key pool n

  -- `TriggerSync`, with the Argo CD client's `Sync`.
  unfoldable pub trigger_sync :
      (String → Exec (Platform X) (Unit {0})) → Uuid → Exec (Platform X) (Unit {0})
  trigger_sync sync id = do
    c ← ClusterRepo.get w id
    if c.spec.argocd.enabled
        then wrapped "triggering sync for cluster %s" (sync c.name)
        else raise (wrap "%w: cluster %s does not have Argo CD enabled" (sentinel invalid_input))
