-- ===== src/Render.antt =====
-- internal/application/gitopsrender/render.go: the manifests of a cluster. `yaml.Marshal` is a parameter:
-- it turns a document into a text, or fails.
pub mod Layout
pub mod Pools
pub mod Readme
use talos_app.Prelude.{
  ℕ, String, Bool, true, false, List, [], ◌∷◌, ◌++◌, str_append, trim_slash, if◌then◌else◌,
}
use talos_app.Shared.{wrap}
use talos_app.Exec.{Result, ok, err, wrap_result}
use talos_app.Domain.Cluster.{
  Cluster, ProviderMode, direct_talos, cluster_api, ObservabilitySpec, NetworkSpec, WorkerPoolSpec,
}
use talos_app.Ports.{FileChange}
use talos_app.Render.Readme.{repository_readme, infrastructure_readme, applications_readme}

pub record Input : Type 0 where
  pub cluster : Cluster
  pub gitops_path : String
  pub repo_url : String
  pub default_branch : String

-- The specifications of the documents, with the fields that have a `yaml` tag.
pub record ClusterDocumentSpec : Type 0 where
  pub provider_mode : String
  pub kubernetes_version : String
  pub talos_version : String
  pub network : NetworkSpec

pub record InfrastructureSpec : Type 0 where
  pub cni_type : String
  pub storage_csi : String
  pub ingress_controller : String
  pub observability : ObservabilitySpec

pub record ControlPlaneDocumentSpec : Type 0 where
  pub cluster_name : String
  pub replicas : ℕ
  pub cpu : ℕ
  pub memory_gb : ℕ

pub record WorkerPoolDocumentSpec : Type 0 where
  pub cluster_name : String
  pub replicas : ℕ
  pub cpu : ℕ
  pub memory_gb : ℕ
  pub labels : List (String × String)
  pub taints : List String

pub record ArgoApplicationSpec : Type 0 where
  pub project : String
  pub repo_url : String
  pub path : String
  pub target_revision : String
  pub destination_server : String
  pub destination_namespace : String
  pub prune : Bool
  pub self_heal : Bool

pub data DocumentSpec : Type 0 where
  cluster_spec : ClusterDocumentSpec → DocumentSpec
  infrastructure_spec : InfrastructureSpec → DocumentSpec
  control_plane_spec : ControlPlaneDocumentSpec → DocumentSpec
  worker_pool_spec : WorkerPoolDocumentSpec → DocumentSpec
  argo_application_spec : ArgoApplicationSpec → DocumentSpec

-- `namespace` is empty in the documents whose metadata have no such field.
pub record Document : Type 0 where
  pub api_version : String
  pub kind : String
  pub name : String
  pub namespace : String
  pub spec : DocumentSpec

abbrev mode_name : ProviderMode → String
mode_name direct_talos = "DIRECT_TALOS"
mode_name cluster_api = "CLUSTER_API"

abbrev platform_api : String
platform_api = "platform.talos.dev/v1alpha1"

unfoldable pub cluster_document : Cluster → Document
cluster_document c = record {
  api_version = platform_api;
  kind = "Cluster";
  name = c.name;
  namespace = "";
  spec = cluster_spec (record {
    provider_mode = mode_name c.provider_mode;
    kubernetes_version = c.spec.kubernetes_version;
    talos_version = c.spec.talos_version;
    network = c.spec.network;
  });
}

unfoldable pub infrastructure_document : Cluster → Document
infrastructure_document c = record {
  api_version = platform_api;
  kind = "ClusterInfrastructure";
  name = c.name;
  namespace = "";
  spec = infrastructure_spec (record {
    cni_type = c.spec.cni.kind;
    storage_csi = c.spec.storage.csi;
    ingress_controller = c.spec.ingress.controller;
    observability = c.spec.observability;
  });
}

unfoldable pub control_plane_document : Cluster → Document
control_plane_document c = record {
  api_version = platform_api;
  kind = "ControlPlane";
  name = str_append c.name "-control-plane";
  namespace = "";
  spec = control_plane_spec (record {
    cluster_name = c.name;
    replicas = c.spec.control_plane.replicas;
    cpu = c.spec.control_plane.cpu;
    memory_gb = c.spec.control_plane.memory_gb;
  });
}

unfoldable pub worker_pool_document : String → WorkerPoolSpec → Document
worker_pool_document cluster p = record {
  api_version = platform_api;
  kind = "WorkerPool";
  name = str_append cluster (str_append "-" p.name);
  namespace = "";
  spec = worker_pool_spec (record {
    cluster_name = cluster;
    replicas = p.replicas;
    cpu = p.cpu;
    memory_gb = p.memory_gb;
    labels = p.labels;
    taints = p.taints;
  });
}

unfoldable pub application_document : Input → String → Document
application_document input path = record {
  api_version = "argoproj.io/v1alpha1";
  kind = "Application";
  name = input.cluster.name;
  namespace = "argocd";
  spec = argo_application_spec (record {
    project = input.cluster.spec.argocd.project;
    repo_url = input.repo_url;
    path = path;
    target_revision = input.default_branch;
    destination_server = "https://kubernetes.default.svc";
    destination_namespace = "default";
    prune = true;
    self_heal = true;
  });
}

infixl 10 ◌>>=◌
abbrev ◌>>=◌ : {A B : Type 0} → Result A → (A → Result B) → Result B
ok a >>= f = f a
err x >>= f = err x

abbrev pub written : String → String → FileChange
written path content = record { path = path; content = content; delete = false }

module _ (marshal : Document → Result String) where
  -- The loop of `renderWorkerPools`; `out` is what the pools before have written.
  unfoldable pub render_pools : String → Bool → String → List WorkerPoolSpec → Result String
  render_pools cluster is_first out [] = ok out
  render_pools cluster is_first out (p ∷ rest) = do
    doc ← wrap_result "rendering worker pool %q" (marshal (worker_pool_document cluster p))
    let kept = if is_first then out else str_append out "---\n"
    render_pools cluster false (str_append kept doc) rest

  unfoldable pub render_worker_pools : String → List WorkerPoolSpec → Result String
  unfolding render_pools
  render_worker_pools cluster [] = ok "# no worker pools defined\n"
  render_worker_pools cluster (p ∷ rest) = render_pools cluster true "" (p ∷ rest)

  -- The Argo CD application, where the cluster has one.
  unfoldable pub render_application : Input → String → Result (List FileChange)
  render_application input path =
      if input.cluster.spec.argocd.enabled
      then (do
        app ←
            wrap_result "rendering argocd-application.yaml"
              (marshal (application_document input path))
        ok (written (str_append path "/argocd-application.yaml") app ∷ []))
      else ok []

  unfoldable pub render_cluster_manifests : Input → Result (List FileChange)
  unfolding render_worker_pools render_application
  render_cluster_manifests input = do
    let c = input.cluster
    let path = trim_slash input.gitops_path
    cluster ← wrap_result "rendering cluster.yaml" (marshal (cluster_document c))
    infra ← wrap_result "rendering infrastructure.yaml" (marshal (infrastructure_document c))
    plane ← wrap_result "rendering control-plane.yaml" (marshal (control_plane_document c))
    workers ← wrap_result "rendering workers.yaml" (render_worker_pools c.name c.spec.workers)
    app ← render_application input path
    ok (
        written (str_append path "/cluster.yaml") cluster
        ∷ written (str_append path "/infrastructure.yaml") infra
        ∷ written (str_append path "/control-plane.yaml") plane
        ∷ written (str_append path "/workers.yaml") workers
        ∷ app)

  -- `RenderRepositoryScaffold`, of the URL and the default branch.
  unfoldable pub render_repository_scaffold : String → String → Result (List FileChange)
  render_repository_scaffold repo_url default_branch = do
    app ← wrap_result "rendering app-of-apps.yaml" (
        marshal (record {
          api_version = "argoproj.io/v1alpha1";
          kind = "Application";
          name = "app-of-apps";
          namespace = "argocd";
          spec = argo_application_spec (record {
            project = "default";
            repo_url = repo_url;
            path = "applications";
            target_revision = default_branch;
            destination_server = "https://kubernetes.default.svc";
            destination_namespace = "argocd";
            prune = true;
            self_heal = true;
          });
        }))
    ok (
        written "README.md" repository_readme
        ∷ written "app-of-apps.yaml" app
        ∷ written "infrastructure/README.md" infrastructure_readme
        ∷ written "applications/README.md" applications_readme
        ∷ [])
