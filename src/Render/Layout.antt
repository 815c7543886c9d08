-- ===== src/Render/Layout.antt =====
-- Which files `RenderClusterManifests` of internal/application/gitopsrender/render.go writes.
use talos_app.Prelude.{
  ◌≡◌, refl, ap, String, Bool, true, false, List, [], ◌∷◌, map, str_append, trim_slash, Bool-cases,
  inl, inr,
}
use talos_app.Exec.{Result, ok}
use talos_app.Domain.Cluster.{WorkerPoolSpec}
use talos_app.Render.{
  Document, Input, cluster_document, infrastructure_document, control_plane_document,
  worker_pool_document, application_document, render_pools, render_worker_pools, render_application,
  render_cluster_manifests,
}

abbrev pub application_paths : Bool → String → List String
application_paths true path = str_append path "/argocd-application.yaml" ∷ []
application_paths false path = []

-- The layout of the documentation.
abbrev pub layout : Input → List String
layout input =
    let path = trim_slash input.gitops_path in
    str_append path "/cluster.yaml"
    ∷ str_append path "/infrastructure.yaml"
    ∷ str_append path "/control-plane.yaml"
    ∷ str_append path "/workers.yaml"
    ∷ application_paths input.cluster.spec.argocd.enabled path

module _ (marshal : Document → Result String)
    (total : (d : Document) → (t : String) × (marshal d ≡ ok t)) where
  render_pools-ok :
      (cluster : String) (is_first : Bool) (out : String) (ps : List WorkerPoolSpec)
      → (t : String) × (render_pools marshal cluster is_first out ps ≡ ok t)
  unfolding render_pools
  render_pools-ok cluster is_first out [] = (out, refl)
  render_pools-ok cluster is_first out (p ∷ rest) =
      let (doc, e) = total (worker_pool_document cluster p) in
      rw e (render_pools-ok cluster false _ rest)

  render_worker_pools-ok :
      (cluster : String) (ps : List WorkerPoolSpec)
      → (t : String) × (render_worker_pools marshal cluster ps ≡ ok t)
  unfolding render_worker_pools
  render_worker_pools-ok cluster [] = (_, refl)
  render_worker_pools-ok cluster (p ∷ rest) = render_pools-ok cluster true "" (p ∷ rest)

  render_application-paths :
      (input : Input) (path : String)
      → (files : _) × (render_application marshal input path ≡ ok files)
        × (map (λ f. f.path) files ≡ application_paths input.cluster.spec.argocd.enabled path)
  unfolding render_application application_document
  render_application-paths input path = elim (Bool-cases input.cluster.spec.argocd.enabled) [
    | inl b ↦ (let (t, e) = total (application_document input path) in rw (b, e) (_, refl, refl))
    | inr b ↦ rw b ([], refl, refl)
  ]

  -- Where every document can be written, the rendering succeeds, and it writes the files of the layout
  -- in that order and no other: the Argo CD application exactly if the cluster has it enabled.
  pub render_cluster_manifests-layout :
      (input : Input)
      → (files : _) × (render_cluster_manifests marshal input ≡ ok files)
        × (map (λ f. f.path) files ≡ layout input)
  unfolding render_cluster_manifests
  render_cluster_manifests-layout input =
      let c = input.cluster in
      let path = trim_slash input.gitops_path in
      let (a, ea) = total (cluster_document c) in
      let (i, ei) = total (infrastructure_document c) in
      let (p, ep) = total (control_plane_document c) in
      let (k, ek) = render_worker_pools-ok c.name c.spec.workers in
      let (app, eapp, paths) = render_application-paths input path in
      rw (ea, ei, ep, ek, eapp)
        (
          _,
          refl,
          ap
              (λ rest.
                str_append path "/cluster.yaml"
                ∷ str_append path "/infrastructure.yaml"
                ∷ str_append path "/control-plane.yaml"
                ∷ str_append path "/workers.yaml"
                ∷ rest)
              paths,
        )
