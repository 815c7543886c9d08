-- ===== src/Provisioning/Steps/Ready/Request.antt =====
-- A request for the provisioning of a cluster, from `Enqueue` of internal/workflows/engine.go through
-- the steps of internal/workflows/cluster_provision.go to the end of the run.
use talos_app.Prelude.{
  ℕ, zero, suc, ◌≡◌, refl, String, Option, none, some, List, [], ◌∷◌, find, length, get_elem?,
  some-injective, subst, arith, false,
}
use talos_app.Shared.{Uuid, JsonMap}
use talos_app.Exec.{Result, ok, err}
use talos_app.Exec.Triple.{After, Triple}
use talos_app.Domain.Cluster.{
  Cluster, State, provisioning, bootstrapping, installing, configuring, ready,
}
use talos_app.Domain.GitOps.{ChangeSet, GitRepository, GitOpsConfiguration}
use talos_app.Domain.Workflow.{Workflow, Kind}
use talos_app.Platform.{Platform, World, IsHealthy}
use talos_app.Platform.Rows.Keys.{IsUnique}
use talos_app.Platform.Rows.Lookup.{All-get}
use talos_app.ClusterRepo.{cluster_has_id}
use talos_app.GitOpsRepo.{configures, repository_has_id}
use talos_app.WorkflowRepo.{has_key, violates}
use talos_app.Engine.{Engine, StepDefinition, lookup, enqueue}
use talos_app.Engine.Accepted.{stored_run, request_completes}
use talos_app.Engine.Consume.{consume}
use talos_app.Engine.Execute.Settle.{aside}
use talos_app.Engine.Inserted.{IsFresh}
use talos_app.Engine.Outcome.{LeavesRuns}
use talos_app.Engine.Progress.{IsCompleted}
use talos_app.Engine.Stage.{Succeeds}
use talos_app.Provisioning.Apart.{provision-LeavesRuns}
use talos_app.Provisioning.Steps.{provision_definition}
use talos_app.Provisioning.Steps.Ready.Leads.{
  validate_request-Leads, validate_infrastructure-Leads, validate_ip_allocation-Leads,
  generate_argocd_configuration-Leads, check_kubernetes_health-Leads, check_cluster_operators-Leads,
  generate_talos_configuration-Leads, generate_capi_manifests-Leads, commit_to_git-Leads,
  create_pull_request-Leads, await_pull_request_merge-Leads, wait_for_argocd_sync-Leads,
  wait_for_cluster_api-Leads, check_talos-Leads, mark_ready-Leads,
}
use talos_app.Provisioning.Steps.Ready.Outside.{Cooperates}
use talos_app.Provisioning.Steps.Ready.Requests.{Open}
use talos_app.Provisioning.Steps.Ready.Tables.{
  Fit, Never, Stage, Latest, AnyUrl, Unused, Recorded, cluster_step-Triple, workflow_step-Triple,
}
use talos_app.Provisioning.{Deps}

-- Between two steps: what the table of change sets and the systems outside show, and the state of the
-- cluster.
record Point (X : Type 0) : Type 1 where
  changes : List ChangeSet → X → Type 0
  state : State

module _ {X : Type 0} (id : Uuid) (cfg : GitOpsConfiguration) (repo : GitRepository) where
  abbrev At : Point X → Platform X → Type 0
  At p s = Stage id cfg repo p.changes p.state s

  -- The tables of the engine do not show in it.
  put_aside : (p : Point X) (s : Platform X) → At p s → At p (aside s)
  put_aside p s (row, state, fit, k) = (
    row,
    state,
    fit,
    record { found = k.found; configured = k.configured; stored = k.stored; history = k.history },
  )

  take_back : (p : Point X) (s : Platform X) → At p (aside s) → At p s
  take_back p s (row, state, fit, k) = (
    row,
    state,
    fit,
    record { found = k.found; configured = k.configured; stored = k.stored; history = k.history },
  )

  -- The point before the step in the place `k`.
  abbrev Before : List (Point X) → ℕ → Platform X → Type 0
  Before [] k s = ⊥
  Before (p ∷ ps) zero s = At p s
  Before (p ∷ ps) (suc k) s = Before ps k s

  abbrev Link : Point X → Point X → StepDefinition X → Type 0
  Link p q st =
      (wf : Workflow) → wf.cluster_id ≡ some id → Triple (At p) (λ a. At q) Never (st.run wf)

  -- Each step leads from one point to the next.
  abbrev Chain : Point X → List (Point X) → List (StepDefinition X) → Type 0
  Chain p ps [] = Unit
  Chain p [] (st ∷ sts) = ⊥
  Chain p (q ∷ ps) (st ∷ sts) = Link p q st × Chain q ps sts

  returned :
      (q : Point X) (r : Result JsonMap) (s : Platform X)
      → After (λ a. At q) Never r s
      → (o : JsonMap) × (r ≡ ok o) × At q (aside s)
  returned q (ok o) s k = (o, refl, put_aside q s k)
  returned q (err x) s k = elim k [ ]

  Chain-succeeds :
      (p : Point X) (ps : List (Point X)) (sts : List (StepDefinition X))
      → Chain p ps sts
      → (k : ℕ) (st : StepDefinition X) → get_elem? sts k ≡ some st
      → (wf : Workflow) (s : Platform X) → wf.cluster_id ≡ some id
      → Before (p ∷ ps) k (aside s)
      → (o : JsonMap) × ((st.run wf s).0 ≡ ok o) × Before (p ∷ ps) (suc k) (aside (st.run wf s).1)
  Chain-succeeds p ps [] c k st h wf s own b = ground arith
  Chain-succeeds p [] (x ∷ sts) c k st h wf s own b = elim c [ ]
  Chain-succeeds p (q ∷ ps) (x ∷ sts) (l, c) zero st h wf s own b =
      subst (λ y. (o : JsonMap) × ((y.run wf s).0 ≡ ok o) × At q (aside (y.run wf s).1))
        (some-injective x st h)
        (returned q (x.run wf s).0 (x.run wf s).1 ((l wf own).leads s (take_back p s b)))
  Chain-succeeds p (q ∷ ps) (x ∷ sts) (l, c) (suc k) st h wf s own b =
      Chain-succeeds q ps sts c k st h wf s own b

module _ {X : Type 0} (id : Uuid) (cfg : GitOpsConfiguration) (repo : GitRepository) (w : World)
    (h : IsHealthy w) (d : Deps X) (Opened : String → String → String → X → Type 0)
    (k : Cooperates d Opened) where
  abbrev AnyUnused : List ChangeSet → X → Type 0
  AnyUnused l x = Unused w l

  abbrev AnyRecorded : List ChangeSet → X → Type 0
  AnyRecorded l x = Recorded id l

  abbrev point : (List ChangeSet → X → Type 0) → State → Point X
  point changes state = record { changes = changes; state = state }

  abbrev start : Point X
  start = point AnyUnused provisioning

  abbrev later : List (Point X)
  later =
      point AnyUnused provisioning
      ∷ point AnyUnused provisioning
      ∷ point AnyUnused provisioning
      ∷ point AnyUnused bootstrapping
      ∷ point AnyUnused bootstrapping
      ∷ point AnyUnused bootstrapping
      ∷ point (Latest id AnyUrl) bootstrapping
      ∷ point (Latest id (Open id cfg repo w h d Opened k)) bootstrapping
      ∷ point (Latest id AnyUrl) installing
      ∷ point AnyRecorded installing
      ∷ point AnyRecorded installing
      ∷ point AnyRecorded configuring
      ∷ point AnyRecorded configuring
      ∷ point AnyRecorded configuring
      ∷ point AnyRecorded ready
      ∷ []

  provision-Chain : Chain id cfg repo start later (provision_definition w d).steps
  unfolding provision_definition
  provision-Chain = (
    (λ wf own.
        cluster_step-Triple id cfg repo w h AnyUnused provisioning _ wf own
          (validate_request-Leads id cfg repo w h d Opened k AnyUnused provisioning)),
    (
      (λ wf own.
          cluster_step-Triple id cfg repo w h AnyUnused provisioning _ wf own
            (validate_infrastructure-Leads id cfg repo w h d Opened k AnyUnused provisioning)),
      (
        (λ wf own.
            cluster_step-Triple id cfg repo w h AnyUnused provisioning _ wf own
              (validate_ip_allocation-Leads id cfg repo w h d Opened k AnyUnused provisioning)),
        (
          (λ wf own.
              cluster_step-Triple id cfg repo w h AnyUnused provisioning _ wf own
                (generate_talos_configuration-Leads id cfg repo w h d Opened k AnyUnused)),
          (
            (λ wf own. cluster_step-Triple id cfg repo w h AnyUnused bootstrapping _ wf own (
                generate_capi_manifests-Leads id cfg repo w h d Opened k (Unused w) bootstrapping)),
            (
              (λ wf own. cluster_step-Triple id cfg repo w h AnyUnused bootstrapping _ wf own (
                  generate_argocd_configuration-Leads id cfg repo w h d Opened k AnyUnused
                    bootstrapping)),
              (
                (λ wf own.
                    workflow_step-Triple id cfg repo w h AnyUnused bootstrapping _ wf own
                      (commit_to_git-Leads id cfg repo w h d Opened k bootstrapping wf)),
                (
                  (λ wf own.
                      cluster_step-Triple id cfg repo w h (Latest id AnyUrl) bootstrapping _ wf own
                        (create_pull_request-Leads id cfg repo w h d Opened k bootstrapping)),
                  (
                    (λ wf own.
                        cluster_step-Triple id cfg repo w h
                          (Latest id (Open id cfg repo w h d Opened k)) bootstrapping _ wf own
                          (await_pull_request_merge-Leads id cfg repo w h d Opened k)),
                    (
                      (λ wf own.
                          cluster_step-Triple id cfg repo w h (Latest id AnyUrl) installing _ wf own
                            (wait_for_argocd_sync-Leads id cfg repo w h d Opened k installing)),
                      (
                        (λ wf own.
                            cluster_step-Triple id cfg repo w h AnyRecorded installing _ wf own (
                              wait_for_cluster_api-Leads id cfg repo w h d Opened k (Recorded id)
                                installing)),
                        (
                          (λ wf own.
                              cluster_step-Triple id cfg repo w h AnyRecorded installing _ wf own
                                (check_talos-Leads id cfg repo w h d Opened k)),
                          (
                            (λ wf own.
                                cluster_step-Triple id cfg repo w h AnyRecorded configuring _ wf own
                                  (check_kubernetes_health-Leads id cfg repo w h d Opened k
                                    AnyRecorded configuring)),
                            (
                              (λ wf own.
                                  cluster_step-Triple id cfg repo w h AnyRecorded configuring _ wf
                                    own
                                    (check_cluster_operators-Leads id cfg repo w h d Opened k
                                      AnyRecorded configuring)),
                              (
                                (λ wf own.
                                    cluster_step-Triple id cfg repo w h AnyRecorded configuring _ wf
                                      own
                                      (mark_ready-Leads id cfg repo w h d Opened k AnyRecorded)),
                                tt,
                              ),
                            ),
                          ),
                        ),
                      ),
                    ),
                  ),
                ),
              ),
            ),
          ),
        ),
      ),
    ),
  )

  abbrev pub Reached : ℕ → Platform X → Type 0
  Reached j s = Before id cfg repo (start ∷ later) j s

  pub provision-Succeeds :
      (j : ℕ) (st : StepDefinition X)
      → get_elem? (provision_definition w d).steps j ≡ some st
      → Succeeds Reached (some id) j st
  provision-Succeeds j st q = record {
    apart =
        All-get (λ y. LeavesRuns y.run) (provision_definition w d).steps j st
          (provision-LeavesRuns w d) q;
    succeeds = λ wf s own b.
        Chain-succeeds id cfg repo start later (provision_definition w d).steps provision-Chain j st
          q wf s own b;
  }

  ended :
      (s : Platform X)
      → Reached (length (provision_definition w d).steps) (aside s)
      → (row' : Cluster) × (find (cluster_has_id id) s.db.clusters ≡ some row')
        × (row'.state ≡ ready)
  unfolding provision_definition
  ended s (row', state, fit, p) = (row', p.found, state)

  abbrev pub provisioning_run :
      Engine X → String → JsonMap → Option Uuid → Uuid → Platform X → Workflow
  provisioning_run e key input machine by s =
      stored_run w e h Kind.cluster_provision key input (some id) machine by
        (provision_definition w d) s

  -- Every call of the database and the broker goes through, the systems outside cooperate, and the
  -- registry has the provisioning of internal/workflows for its type. No UUID that is made is
  -- zero, is made twice, or is stored already as a run, a step, the run of a step or a change set; no two stored steps have one identifier; no
  -- other message waits; no run has the idempotency key or the identifier. The cluster is
  -- PROVISIONING, has both versions, a site and both network ranges, and has a stored configuration
  -- with its repository. Then the request for its provisioning answers with the stored run, and one
  -- message for each of the fifteen steps and one more later that run is SUCCEEDED with all of its
  -- steps SUCCEEDED, no message is left, and the stored cluster is READY.
  pub provision_request_ends_ready :
      (e : Engine X) (key : String) (input : JsonMap) (machine : Option Uuid) (by : Uuid)
      (row : Cluster) (s : Platform X)
      → IsFresh w s
      → IsUnique (λ st. st.id) s.db.steps
      → s.dispatches ≡ []
      → find (has_key key) s.db.workflows ≡ none
      → violates (provisioning_run e key input machine by s) s.db.workflows ≡ false
      → lookup Kind.cluster_provision e.registry ≡ some (provision_definition w d)
      → find (cluster_has_id id) s.db.clusters ≡ some row
      → row.state ≡ provisioning
      → Fit row
      → find (configures id) s.db.configurations ≡ some cfg
      → find (repository_has_id cfg.repository_id) s.db.repositories ≡ some repo
      → Unused w s.db.change_sets
      → let r = enqueue w e Kind.cluster_provision key input (some id) machine by s in
        let s' = consume w e 16 r.1 in
        (r.0 ≡ ok (provisioning_run e key input machine by s))
        × IsCompleted (provisioning_run e key input machine by s).id s'
        × ((row' : Cluster) × (find (cluster_has_id id) s'.db.clusters ≡ some row')
            × (row'.state ≡ ready))
  unfolding provision_definition
  provision_request_ends_ready e key input machine by row s f u n m v q found state fit configured
        stored unused =
      let (answer, done, still) =
        request_completes w e h Kind.cluster_provision key input (some id) machine by
          (provision_definition w d) s Reached f u n m v q provision-Succeeds
          (
            row,
            state,
            fit,
            record { found = found; configured = configured; stored = stored; history = unused },
          ) in
      (
        answer,
        done,
        ended
            (consume w e 16 (enqueue w e Kind.cluster_provision key input (some id) machine by s).1)
            still,
      )
