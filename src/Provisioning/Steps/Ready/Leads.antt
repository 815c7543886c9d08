-- ===== src/Provisioning/Steps/Ready/Leads.antt =====
-- What each step of a provisioning leads to, where every call goes through and the systems outside
-- cooperate: the fourteen steps of internal/workflows/cluster_provision.go and the last one.
use talos_app.Prelude.{◌≡◌, refl, String, true, false, List}
use talos_app.Shared.{Uuid, JsonMap}
use talos_app.Exec.{Exec, Result, ok, err, pure}
use talos_app.Exec.Triple.{
  After, Triple, then-Triple, wrapped-Triple, pure-Triple, given-Triple, if-Triple, attempt-Triple,
}
use talos_app.Domain.Cluster.{
  Cluster, State, provisioning, bootstrapping, installing, configuring, ready, can_transition,
  state_eq, is_cluster_api,
}
use talos_app.Domain.GitOps.{GitRepository, GitOpsConfiguration, ChangeSet, ChangeSetStatus}
use talos_app.Domain.Workflow.{Workflow}
use talos_app.Platform.{Platform, World, IsHealthy}
use talos_app.Provisioning.Steps.{
  validate_request, validate_infrastructure, validate_ip_allocation, generate_argocd_configuration,
  check_kubernetes_health, check_cluster_operators, generate_talos_configuration, mark_ready,
  mark_synced, generate_capi_manifests, commit_to_git, create_pull_request,
  await_pull_request_merge, wait_for_argocd_sync, wait_for_cluster_api, check_talos,
}
use talos_app.Provisioning.Steps.Ready.Observed.{
  check_talos_health-Passes, wait_for_cluster_api_ready-Passes,
}
use talos_app.Provisioning.Steps.Ready.Outside.{
  Cooperates, sync-Triple, capi_manifests-Triple, commit_manifests-Triple,
}
use talos_app.Provisioning.Steps.Ready.Requests.{
  Open, open_pull_request-Triple, record_pull_request-Triple, merged_pull_request-Triple,
  record_merge-Triple,
}
use talos_app.Provisioning.Steps.Ready.Tables.{
  Fit, Never, With, Stage, Latest, Newest, AnyUrl, Unused, Recorded, git_ops_repo-Triple,
  latest_change_set-Triple, update_change_set-Triple, transition_and_save-Triple, clock-Triple,
  transition-Triple, update_moved-Triple,
}
use talos_app.Provisioning.{Deps, transition_and_save}

module _ {X : Type 0} (id : Uuid) (cfg : GitOpsConfiguration) (repo : GitRepository) (w : World)
    (h : IsHealthy w) (d : Deps X) (Opened : String → String → String → X → Type 0)
    (k : Cooperates d Opened) where
  -- A step that succeeds from a state and a history of change sets to others.
  abbrev pub Leads :
      (List ChangeSet → X → Type 0)
      → State
      → (List ChangeSet → X → Type 0)
      → State
      → (Cluster → Exec (Platform X) JsonMap)
      → Type 0
  Leads changes st changes' st' fn =
      (c : Cluster)
      → c.state ≡ st
      → Fit c
      → c.id ≡ id
      → Triple (With id cfg repo changes c) (λ a s. Stage id cfg repo changes' st' s) Never (fn c)

  stays :
      (changes : List ChangeSet → X → Type 0) (st : State) (c : Cluster) (o : JsonMap)
      → c.state ≡ st
      → Fit c
      → Triple (With id cfg repo changes c) (λ a s. Stage id cfg repo changes st s) Never (pure o)
  stays changes st c o e fit = pure-Triple o (λ s p. (c, e, fit, p))

  pub validate_request-Leads :
      (changes : List ChangeSet → X → Type 0) (st : State)
      → Leads changes st changes st validate_request
  unfolding validate_request
  validate_request-Leads changes st c e fit i = rw fit.versions (stays changes st c _ e fit)

  pub validate_infrastructure-Leads :
      (changes : List ChangeSet → X → Type 0) (st : State)
      → Leads changes st changes st validate_infrastructure
  unfolding validate_infrastructure
  validate_infrastructure-Leads changes st c e fit i = rw fit.site (stays changes st c _ e fit)

  pub validate_ip_allocation-Leads :
      (changes : List ChangeSet → X → Type 0) (st : State)
      → Leads changes st changes st validate_ip_allocation
  unfolding validate_ip_allocation
  validate_ip_allocation-Leads changes st c e fit i = rw fit.cidrs (stays changes st c _ e fit)

  pub generate_argocd_configuration-Leads :
      (changes : List ChangeSet → X → Type 0) (st : State)
      → Leads changes st changes st generate_argocd_configuration
  unfolding generate_argocd_configuration
  generate_argocd_configuration-Leads changes st c e fit i =
      if-Triple _ _ _ (stays changes st c _ e fit) (stays changes st c _ e fit)

  pub check_kubernetes_health-Leads :
      (changes : List ChangeSet → X → Type 0) (st : State)
      → Leads changes st changes st check_kubernetes_health
  unfolding check_kubernetes_health
  check_kubernetes_health-Leads changes st c e fit i = stays changes st c _ e fit

  pub check_cluster_operators-Leads :
      (changes : List ChangeSet → X → Type 0) (st : State)
      → Leads changes st changes st check_cluster_operators
  unfolding check_cluster_operators
  check_cluster_operators-Leads changes st c e fit i = stays changes st c _ e fit

  moves :
      (changes : List ChangeSet → X → Type 0) (st next : State) (c : Cluster)
      → state_eq st next ≡ false
      → can_transition st next ≡ true
      → c.state ≡ st
      → Fit c
      → Triple
          (With id cfg repo changes c)
          (λ a s. Stage id cfg repo changes next s)
          Never
          (transition_and_save w next c)
  moves changes st next c ne legal e fit =
      transition_and_save-Triple id cfg repo w h changes next c (simp e ne) (simp e legal) fit

  pub generate_talos_configuration-Leads :
      (changes : List ChangeSet → X → Type 0)
      → Leads changes provisioning changes bootstrapping (generate_talos_configuration w)
  unfolding generate_talos_configuration can_transition
  generate_talos_configuration-Leads changes c e fit i =
      then-Triple _ _ (moves changes provisioning bootstrapping c refl refl e fit)
        (λ moved. pure-Triple _ (λ s p. p))

  pub generate_capi_manifests-Leads :
      (changes : List ChangeSet → Type 0) (st : State)
      → Leads (λ l x. changes l) st (λ l x. changes l) st (generate_capi_manifests w d)
  unfolding generate_capi_manifests
  generate_capi_manifests-Leads changes st c e fit i =
      if-Triple (is_cluster_api c.provider_mode) _ _
        (then-Triple _ _ (capi_manifests-Triple id cfg repo w h d Opened k changes c c)
          (λ files. stays (λ l x. changes l) st c _ e fit))
        (stays (λ l x. changes l) st c _ e fit)

  pub commit_to_git-Leads :
      (st : State) (wf : Workflow)
      → Leads (λ l x. Unused w l) st (Latest id AnyUrl) st (λ c. commit_to_git w d c wf)
  unfolding commit_to_git
  commit_to_git-Leads st wf c e fit i = simp i (
      then-Triple _ _ (git_ops_repo-Triple id cfg repo w h (λ l x. Unused w l) c) (λ r.
        given-Triple _ (λ _.
          then-Triple _ _ (commit_manifests-Triple id cfg repo w h d Opened k c c wf r _ _ i)
            (λ cs. stays (Latest id AnyUrl) st c _ e fit))))

  pub create_pull_request-Leads :
      (st : State)
      → Leads
          (Latest id AnyUrl)
          st
          (Latest id (Open id cfg repo w h d Opened k))
          st
          (create_pull_request w d)
  unfolding create_pull_request
  create_pull_request-Leads st c e fit i = simp i (
      then-Triple _ _ (git_ops_repo-Triple id cfg repo w h (Latest id AnyUrl) c) (λ r.
        given-Triple _ (λ q. rw q (
          then-Triple _ _ (open_pull_request-Triple id cfg repo w h d Opened k c _ _ _) (λ pr.
            then-Triple _ _
              (latest_change_set-Triple id cfg repo w h
                (λ u x. Open id cfg repo w h d Opened k pr.url x) c)
              (λ cs.
                then-Triple _ _ (record_pull_request-Triple id cfg repo w h d Opened k c pr cs)
                  (λ _. stays (Latest id (Open id cfg repo w h d Opened k)) st c _ e fit)))))))

  pub await_pull_request_merge-Leads :
      Leads
        (Latest id (Open id cfg repo w h d Opened k))
        bootstrapping
        (Latest id AnyUrl)
        installing
        (await_pull_request_merge w d)
  unfolding await_pull_request_merge can_transition
  await_pull_request_merge-Leads c e fit i = simp i (
      then-Triple _ _
        (git_ops_repo-Triple id cfg repo w h (Latest id (Open id cfg repo w h d Opened k)) c)
        (λ r. given-Triple _ (λ q. rw q (
          then-Triple _ _
            (latest_change_set-Triple id cfg repo w h (Open id cfg repo w h d Opened k) c)
            (λ cs.
              then-Triple _ _ (merged_pull_request-Triple id cfg repo w h d Opened k c cs)
                (λ number.
                  then-Triple _ _ (record_merge-Triple id cfg repo w h d Opened k c cs) (λ _.
                    then-Triple _ _
                      (moves (Latest id AnyUrl) bootstrapping installing c refl refl e fit)
                      (λ moved. pure-Triple _ (λ s p. p)))))))))

  -- The errors of the change set's update are dropped; there are none.
  mark_synced-Triple :
      (c : Cluster) (r : Result ChangeSet)
      → Triple
          (λ (s : Platform X). After (λ cs y. With id cfg repo (Newest id cs AnyUrl) c y) Never r s)
          (λ a s. With id cfg repo (Latest id AnyUrl) c s)
          Never
          (mark_synced {X = X} w r)
  unfolding mark_synced
  mark_synced-Triple c (ok cs) =
      then-Triple _ _
        (attempt-Triple _ (
          update_change_set-Triple id cfg repo w h cs
            (record cs { status = ChangeSetStatus.synced }) AnyUrl AnyUrl c refl (λ x u. tt)))
        (λ r. pure-Triple _ (λ s p. kept r s p))
    where
      kept :
          {A : Type 0} (r : Result A) (s : Platform X)
          → After (λ a y. With id cfg repo (Latest id AnyUrl) c y) Never r s
          → With id cfg repo (Latest id AnyUrl) c s
      kept (ok a) s p = p
      kept (err x) s p = elim p [ ]
  mark_synced-Triple c (err x) = record { leads = λ s p. elim p [ ] }

  pub wait_for_argocd_sync-Leads :
      (st : State) → Leads (Latest id AnyUrl) st (Latest id AnyUrl) st (wait_for_argocd_sync w d)
  unfolding wait_for_argocd_sync
  wait_for_argocd_sync-Leads st c e fit i = simp i (
      if-Triple c.spec.argocd.enabled _ _
        (then-Triple _ _
          (wrapped-Triple _ _ (sync-Triple id cfg repo w h d Opened k (Recorded id) c c.name))
          (λ _.
            then-Triple _ _ (attempt-Triple _ (latest_change_set-Triple id cfg repo w h AnyUrl c))
              (λ found.
                then-Triple _ _ (mark_synced-Triple c found)
                  (λ _. stays (Latest id AnyUrl) st c _ e fit))))
        (stays (Latest id AnyUrl) st c _ e fit))

  pub wait_for_cluster_api-Leads :
      (changes : List ChangeSet → Type 0) (st : State)
      → Leads (λ l x. changes l) st (λ l x. changes l) st (wait_for_cluster_api w d)
  unfolding wait_for_cluster_api
  wait_for_cluster_api-Leads changes st c e fit i =
      then-Triple _ _ (wait_for_cluster_api_ready-Passes id cfg repo w h d Opened k changes c c)
        (λ _. stays (λ l x. changes l) st c _ e fit)

  -- The row that a transition leaves passes the health check of its machines.
  pub check_talos-Leads :
      Leads (λ l x. Recorded id l) installing (λ l x. Recorded id l) configuring (check_talos w d)
  unfolding check_talos can_transition
  check_talos-Leads c e fit i =
      then-Triple _ _ (moves (λ l x. Recorded id l) installing configuring c refl refl e fit)
        (λ moved.
          then-Triple _ _
            (record {
              leads = λ s (row, t, f, p). checked moved row t f _ _ (
                  (check_talos_health-Passes id cfg repo w h d Opened k (Recorded id) row
                      moved).leads
                    s p);
            })
            (λ n. pure-Triple _ (λ s p. p)))
    where
      checked :
          {A : Type 0} (moved row : Cluster)
          → row.state ≡ configuring
          → Fit row
          → (r : Result A) (s : Platform X)
          → After (λ a y. With id cfg repo (λ l x. Recorded id l) row y) Never r s
          → After (λ a y. Stage id cfg repo (λ l x. Recorded id l) configuring y) Never r s
      checked moved row t f (ok a) s p = (row, t, f, p)
      checked moved row t f (err x) s p = p

  pub mark_ready-Leads :
      (changes : List ChangeSet → X → Type 0)
      → Leads changes configuring changes ready (mark_ready w)
  unfolding mark_ready can_transition
  mark_ready-Leads changes c e fit i =
      then-Triple _ _ (clock-Triple id cfg repo w h changes c) (λ now.
        then-Triple _ _
          (wrapped-Triple _ _ (transition-Triple id cfg repo w h changes ready c now (simp e refl)))
          (λ moved. given-Triple _ (λ q. rw q (
            then-Triple _ _
              (wrapped-Triple _ _ (update_moved-Triple id cfg repo w h changes ready c now fit))
              (λ _. pure-Triple _ (λ s p. p))))))
