-- ===== src/Provisioning/Steps/Ready/Run.antt =====
-- A whole provisioning of internal/workflows/cluster_provision.go, step after step.
use talos_app.Prelude.{◌≡◌, refl, String, some, List, [], ◌∷◌, find}
use talos_app.Shared.{Uuid}
use talos_app.Exec.{Exec, Result, ok, err, ◌>>◌, pure}
use talos_app.Exec.Triple.{After, Triple, then-Triple, pure-Triple}
use talos_app.Domain.Cluster.{Cluster, provisioning, bootstrapping, installing, configuring, ready}
use talos_app.Domain.GitOps.{ChangeSet, GitRepository, GitOpsConfiguration}
use talos_app.Domain.Workflow.{Workflow}
use talos_app.Platform.{Platform, World, IsHealthy}
use talos_app.ClusterRepo.{cluster_has_id}
use talos_app.GitOpsRepo.{configures, repository_has_id}
use talos_app.Engine.{StepDefinition}
use talos_app.Provisioning.Steps.{provision_definition}
use talos_app.Provisioning.Steps.Ready.Leads.{
  validate_request-Leads, validate_infrastructure-Leads, validate_ip_allocation-Leads,
  generate_argocd_configuration-Leads, check_kubernetes_health-Leads, check_cluster_operators-Leads,
  generate_talos_configuration-Leads, generate_capi_manifests-Leads, commit_to_git-Leads,
  create_pull_request-Leads, await_pull_request_merge-Leads, wait_for_argocd_sync-Leads,
  wait_for_cluster_api-Leads, check_talos-Leads, mark_ready-Leads,
}
use talos_app.Provisioning.Steps.Ready.Outside.{Cooperates}
use talos_app.Provisioning.Steps.Ready.Requests.{Open}
use talos_app.Provisioning.Steps.Ready.Tables.{
  Fit, Never, Stage, Latest, AnyUrl, Unused, Recorded, cluster_step-Triple, workflow_step-Triple,
}
use talos_app.Provisioning.{Deps}

module _ {X : Type 0} where
  -- The steps of a definition, one after the other, as long as they succeed.
  unfoldable pub run_steps : List (StepDefinition X) → Workflow → Exec (Platform X) (Unit {0})
  run_steps [] wf = pure tt
  run_steps (st ∷ rest) wf = do st.run wf; run_steps rest wf

infixr 5 ◌▷◌
abbrev ◌▷◌ :
    {S A B : Type 0} {before between failed : S → Type 0} {goal : B → S → Type 0} {m : Exec S A}
    {k : Exec S B}
    → Triple before (λ a. between) failed m
    → Triple between goal failed k
    → Triple before goal failed (m >> k)
first ▷ rest = then-Triple _ _ first (λ _. rest)

module _ {X : Type 0} (id : Uuid) (cfg : GitOpsConfiguration) (repo : GitRepository) (w : World)
    (h : IsHealthy w) (d : Deps X) (Opened : String → String → String → X → Type 0)
    (k : Cooperates d Opened) (wf : Workflow) (own : wf.cluster_id ≡ some id) where
  abbrev AnyUnused : List ChangeSet → X → Type 0
  AnyUnused l x = Unused w l

  abbrev AnyRecorded : List ChangeSet → X → Type 0
  AnyRecorded l x = Recorded id l

  provision_run :
      Triple
        (Stage id cfg repo (λ l x. Unused w l) provisioning)
        (λ a s. Stage id cfg repo (Latest id AnyUrl) ready s)
        Never
        (run_steps (provision_definition w d).steps wf)
  unfolding provision_definition run_steps
  provision_run =
      cluster_step-Triple id cfg repo w h AnyUnused provisioning _ wf own
        (validate_request-Leads id cfg repo w h d Opened k AnyUnused provisioning)
      ▷ cluster_step-Triple id cfg repo w h AnyUnused provisioning _ wf own
          (validate_infrastructure-Leads id cfg repo w h d Opened k AnyUnused provisioning)
      ▷ cluster_step-Triple id cfg repo w h AnyUnused provisioning _ wf own
          (validate_ip_allocation-Leads id cfg repo w h d Opened k AnyUnused provisioning)
      ▷ cluster_step-Triple id cfg repo w h AnyUnused provisioning _ wf own
          (generate_talos_configuration-Leads id cfg repo w h d Opened k AnyUnused)
      ▷ cluster_step-Triple id cfg repo w h AnyUnused bootstrapping _ wf own
          (generate_capi_manifests-Leads id cfg repo w h d Opened k (Unused w) bootstrapping)
      ▷ cluster_step-Triple id cfg repo w h AnyUnused bootstrapping _ wf own
          (generate_argocd_configuration-Leads id cfg repo w h d Opened k AnyUnused bootstrapping)
      ▷ workflow_step-Triple id cfg repo w h AnyUnused bootstrapping _ wf own
          (commit_to_git-Leads id cfg repo w h d Opened k bootstrapping wf)
      ▷ cluster_step-Triple id cfg repo w h (Latest id AnyUrl) bootstrapping _ wf own
          (create_pull_request-Leads id cfg repo w h d Opened k bootstrapping)
      ▷ cluster_step-Triple id cfg repo w h (Latest id (Open id cfg repo w h d Opened k))
          bootstrapping _ wf own (await_pull_request_merge-Leads id cfg repo w h d Opened k)
      ▷ cluster_step-Triple id cfg repo w h (Latest id AnyUrl) installing _ wf own
          (wait_for_argocd_sync-Leads id cfg repo w h d Opened k installing)
      ▷ cluster_step-Triple id cfg repo w h AnyRecorded installing _ wf own
          (wait_for_cluster_api-Leads id cfg repo w h d Opened k (Recorded id) installing)
      ▷ cluster_step-Triple id cfg repo w h AnyRecorded installing _ wf own
          (check_talos-Leads id cfg repo w h d Opened k)
      ▷ cluster_step-Triple id cfg repo w h AnyRecorded configuring _ wf own
          (check_kubernetes_health-Leads id cfg repo w h d Opened k AnyRecorded configuring)
      ▷ cluster_step-Triple id cfg repo w h AnyRecorded configuring _ wf own
          (check_cluster_operators-Leads id cfg repo w h d Opened k AnyRecorded configuring)
      ▷ cluster_step-Triple id cfg repo w h AnyRecorded configuring _ wf own
          (mark_ready-Leads id cfg repo w h d Opened k AnyRecorded)
      ▷ pure-Triple tt (λ s p. p)

  -- The calls of the database go through; the systems outside cooperate; the cluster is PROVISIONING,
  -- fit, has a configuration and its repository, and no change set has an identifier that is still
  -- to be made. Then the steps of the provisioning succeed one after the other, from the first to the
  -- last, and the cluster is READY.
  pub provision_ends_ready :
      (row : Cluster) (s : Platform X)
      → find (cluster_has_id id) s.db.clusters ≡ some row
      → row.state ≡ provisioning
      → Fit row
      → find (configures id) s.db.configurations ≡ some cfg
      → find (repository_has_id cfg.repository_id) s.db.repositories ≡ some repo
      → Unused w s.db.change_sets
      → let r = run_steps (provision_definition w d).steps wf s in
        (r.0 ≡ ok tt)
        × ((row' : Cluster) × (find (cluster_has_id id) r.1.db.clusters ≡ some row')
            × (row'.state ≡ ready))
  provision_ends_ready row s found state fit configured stored unused =
      ended (run_steps (provision_definition w d).steps wf s).0 _ (
        provision_run.leads s (
          row,
          state,
          fit,
          record { found = found; configured = configured; stored = stored; history = unused },
        ))
    where
      ended :
          (r : Result (Unit {0})) (y : Platform X)
          → After (λ a z. Stage id cfg repo (Latest id AnyUrl) ready z) Never r y
          → (r ≡ ok tt)
            × ((row' : Cluster) × (find (cluster_has_id id) y.db.clusters ≡ some row')
                × (row'.state ≡ ready))
      ended (ok a) y (row', state', f, p) = (refl, (row', p.found, state'))
      ended (err x) y p = elim p [ ]
