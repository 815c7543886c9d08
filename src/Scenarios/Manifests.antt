-- ===== src/Scenarios/Manifests.antt =====
-- The manifests of a cluster with two worker pools, with a writer that keeps the name of a document.
use talos_app.Prelude.{◌≡◌, refl, String, [], ◌∷◌, map}
use talos_app.Exec.{Result, ok}
use talos_app.Domain.Cluster.{WorkerPoolSpec, draft}
use talos_app.Render.{Document, Input, render_cluster_manifests, render_worker_pools}
use talos_app.Render.Layout.{layout, render_cluster_manifests-layout}
use talos_app.Render.Pools.{all_documents, joined, map_ok, write_pool, render_worker_pools-joined}
use talos_app.Scenarios.Clusters.{a_cluster}

abbrev named : Document → Result String
named d = ok d.name

abbrev an_input : Input
an_input = record {
  cluster = a_cluster draft;
  gitops_path = "clusters/edge/";
  repo_url = "https://github.com/acme/gitops";
  default_branch = "main";
}

render_cluster_manifests-layout_example :
    (files : _) × (render_cluster_manifests named an_input ≡ ok files)
    × (map (λ f. f.path) files ≡ layout an_input)
render_cluster_manifests-layout_example =
    render_cluster_manifests-layout named (λ d. (d.name, refl)) an_input

abbrev a_pool : String → WorkerPoolSpec
a_pool name = record { name = name; replicas = 2; cpu = 4; memory_gb = 8; labels = []; taints = [] }

render_worker_pools-joined_example :
    let pools = a_pool "general" ∷ a_pool "storage" ∷ [] in
    render_worker_pools named "edge" pools
    ≡ map_ok joined (all_documents (write_pool named "edge") pools)
render_worker_pools-joined_example =
    render_worker_pools-joined named "edge" (a_pool "general" ∷ a_pool "storage" ∷ [])
