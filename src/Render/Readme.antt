-- ===== src/Render/Readme.antt =====
-- The texts of a new repository in internal/application/gitopsrender/render.go.
use talos_app.Prelude.{String, List, [], ◌∷◌, str_append}

abbrev lines : List String → String
lines [] = ""
lines (l ∷ rest) = str_append l (lines rest)

abbrev pub repository_readme : String
repository_readme = lines (
    "# GitOps\n" ∷ "\n"
    ∷ "This repository is the source of truth for cluster and platform configuration,\n"
    ∷ "managed by the Talos Kubernetes Cluster Management Platform (ADR-0004: Git is\n"
    ∷ "authoritative; the platform commits here, Argo CD reconciles from here, and the\n"
    ∷ "platform never reconciles anything itself).\n" ∷ "\n" ∷ "## Layout\n" ∷ "\n"
    ∷ "- `clusters/<name>/` — one subtree per cluster, rendered and committed by the\n"
    ∷ "  platform's cluster provisioning/upgrade/scale workflows. Do not hand-edit these\n"
    ∷ "  except through the platform (or a Git-reverting rollback it performs) — anything\n"
    ∷ "  committed outside the platform's own commits won't be reflected back into the\n"
    ∷ "  platform's own records of what changed and why.\n"
    ∷ "- `infrastructure/` — shared, cross-cluster infrastructure manifests (not\n"
    ∷ "  scoped to any one cluster).\n"
    ∷ "- `applications/` — platform-wide Argo CD Application manifests, watched by\n"
    ∷ "  the root `app-of-apps.yaml`.\n"
    ∷ "- `app-of-apps.yaml` — the root Argo CD Application (App-of-Apps pattern):\n"
    ∷ "  apply this once to your Argo CD instance to bootstrap everything under\n"
    ∷ "  `applications/`.\n" ∷ [])

abbrev pub infrastructure_readme : String
infrastructure_readme = lines (
    "# infrastructure/\n" ∷ "\n"
    ∷ "Shared, cross-cluster infrastructure manifests go here — resources that aren't\n"
    ∷ "scoped to any single cluster's `clusters/<name>/` subtree. Nothing in this\n"
    ∷ "codebase renders into this directory automatically yet; it's scaffolded so the\n"
    ∷ "layout exists from day one.\n" ∷ [])

abbrev pub applications_readme : String
applications_readme = lines (
    "# applications/\n" ∷ "\n"
    ∷ "Platform-wide Argo CD Application manifests go here, watched by the root\n"
    ∷ "`app-of-apps.yaml` (App-of-Apps pattern). Each file added here becomes an\n"
    ∷ "Argo CD Application once the root Application syncs. Nothing in this codebase\n"
    ∷ "renders into this directory automatically yet; it's scaffolded so the layout\n"
    ∷ "exists from day one.\n" ∷ [])
