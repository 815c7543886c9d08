-- ===== src/Provisioning/Goals.antt =====
-- What one step of internal/workflows/cluster_provision.go, cluster_upgrade.go or worker_scale.go does to
-- the table of clusters, by the state that its stage moves the cluster to.
use talos_app.Prelude.{◌≡◌, refl, Option, none, some, List, [], ◌∷◌, inl}
use talos_app.Shared.{Uuid, JsonMap}
use talos_app.Exec.{Exec}
use talos_app.Exec.Frame.{IsFixed, pure-IsFixed, then-IsFixed, wrapped-IsFixed}
use talos_app.Exec.Triple.{
  Triple, then-Triple, wrapped-Triple, pure-Triple, if-Triple, fixed-Triple,
}
use talos_app.Domain.Cluster.{
  Cluster, State, bootstrapping, installing, configuring, ready, upgrading, state_eq,
}
use talos_app.Domain.Workflow.{Workflow}
use talos_app.Platform.{Platform, World, clock}
use talos_app.Platform.Calls.{call-IsFixed, clock-IsFixed}
use talos_app.ClusterRepo
use talos_app.ClusterService.Held.{
  Moved, HeldIn, Settled, get-Triple, unwritten, transition-Triple, update-Triple,
}
use talos_app.Engine.{StepDefinition}
use talos_app.Provisioning.Frame.{
  git_ops_repo-IsFixed, latest_change_set-IsFixed, merged_pull_request-IsFixed,
  record_merge-IsFixed, check_talos_health-IsFixed,
}
use talos_app.Provisioning.Steps.{
  generate_talos_configuration, mark_ready, await_pull_request_merge, check_talos,
}
use talos_app.Provisioning.Upgrade.{begin_upgrade, verify_and_mark_ready}
use talos_app.Provisioning.{Deps, cluster_step, cluster_step_with_workflow, transition_and_save}

abbrev pub clusters_of : {X : Type 0} → Platform X → List Cluster
clusters_of s = s.db.clusters

-- What a step does to the table of clusters, by the state that it may move its cluster to.
abbrev pub IsEffect : Option State → Uuid → List Cluster → List Cluster → Type 0
IsEffect none id rows rows' = rows' ≡ rows
IsEffect (some next) id rows rows' = Moved (next ∷ []) id rows rows'

-- The steps of a definition, each with the state that its stage moves the cluster to, if any.
abbrev pub with_goals :
    {X : Type 0}
    → List (StepDefinition X)
    → List (Option State)
    → List (StepDefinition X × Option State)
with_goals [] goals = []
with_goals (st ∷ rest) [] = []
with_goals (st ∷ rest) (goal ∷ goals) = (st, goal) ∷ with_goals rest goals

abbrev pub provision_goals : List (Option State)
provision_goals =
    none
    ∷ none
    ∷ none
    ∷ some bootstrapping
    ∷ none
    ∷ none
    ∷ none
    ∷ none
    ∷ some installing
    ∷ none
    ∷ none
    ∷ some configuring
    ∷ none
    ∷ none
    ∷ some ready
    ∷ []

abbrev pub upgrade_goals : List (Option State)
upgrade_goals = some upgrading ∷ none ∷ none ∷ none ∷ none ∷ none ∷ some ready ∷ []

abbrev pub scale_goals : List (Option State)
scale_goals = none ∷ none ∷ none ∷ none ∷ none ∷ []

module _ {X : Type 0} (w : World) (id : Uuid) (rows : List Cluster) where
  -- From the cluster that a step loads, the step moves the row to `next` at most.
  abbrev pub Goes : State → (Cluster → Exec (Platform X) JsonMap) → Type 0
  Goes next fn =
      (c : Cluster)
      → Triple (HeldIn w (next ∷ []) id rows (next ∷ []) c) (λ a. Settled w (next ∷ []) id rows)
          (Settled w (next ∷ []) id rows) (fn c)

  -- The same for the function of a step definition, beside the state it may move the cluster to.
  abbrev pub Runs : Option State → (Workflow → Exec (Platform X) JsonMap) → Type 0
  Runs goal run =
      (wf : Workflow)
      → wf.cluster_id ≡ some id
      → Triple (λ s. s.db.clusters ≡ rows) (λ a s. IsEffect goal id rows s.db.clusters)
          (λ s. IsEffect goal id rows s.db.clusters) (run wf)

  abbrev pub Follows : StepDefinition X × Option State → Type 0
  Follows (st, goal) = Runs goal st.run

  settled :
      {A : Type 0} (next : State) (m : Exec (Platform X) A)
      → IsFixed clusters_of m
      → Triple
          (Settled w (next ∷ []) id rows)
          (λ a. Settled w (next ∷ []) id rows)
          (Settled w (next ∷ []) id rows)
          m
  settled next m k = fixed-Triple clusters_of (Moved (next ∷ []) id rows) m k

  transition_and_save-Triple :
      (next : State) (c : Cluster)
      → Triple
          (HeldIn w (next ∷ []) id rows (next ∷ []) c)
          (λ a. Settled w (next ∷ []) id rows)
          (Settled w (next ∷ []) id rows)
          (transition_and_save {X = X} w next c)
  unfolding transition_and_save
  transition_and_save-Triple next c =
      if-Triple (state_eq c.state next) _ _ (pure-Triple c (λ s h. inl h.0)) (
        then-Triple _ _
          (unwritten w (next ∷ []) id rows (next ∷ []) (clock w) c
            (clock-IsFixed clusters_of (λ s. refl) w))
          (λ now.
            then-Triple _ _
              (wrapped-Triple _ _ (transition-Triple w (next ∷ []) id rows [] now next c))
              (λ moved.
                then-Triple _ _ (update-Triple w (next ∷ []) id rows moved)
                  (λ _. pure-Triple moved (λ s h. h)))))

  pub step-Follows :
      (next : State) (fn : Cluster → Exec (Platform X) JsonMap)
      → Goes next fn
      → Runs (some next) (cluster_step w fn)
  unfolding cluster_step
  step-Follows next fn k wf h =
      simp h (then-Triple _ _ (wrapped-Triple _ _ (get-Triple w (next ∷ []) id rows)) (λ c. k c))

  -- Steps that only look.
  pub looks_with-Follows :
      (fn : Cluster → Workflow → Exec (Platform X) JsonMap)
      → ((c : Cluster) (wf : Workflow) → IsFixed clusters_of (fn c wf))
      → Runs none (cluster_step_with_workflow w fn)
  unfolding cluster_step_with_workflow ClusterRepo.get
  looks_with-Follows fn k wf h =
      fixed-Triple clusters_of (λ at. at ≡ rows) _
        (simp h (
          then-IsFixed clusters_of _ _
            (wrapped-IsFixed clusters_of _ _
              (call-IsFixed clusters_of (λ s. refl) w _ (record { fixed = λ s. refl })))
            (λ c. k c wf)))

  pub look-Follows :
      (fn : Cluster → Exec (Platform X) JsonMap)
      → ((c : Cluster) → IsFixed clusters_of (fn c))
      → Runs none (cluster_step w fn)
  unfolding cluster_step ClusterRepo.get
  look-Follows fn k wf h =
      fixed-Triple clusters_of (λ at. at ≡ rows) _
        (simp h (
          then-IsFixed clusters_of _ _
            (wrapped-IsFixed clusters_of _ _
              (call-IsFixed clusters_of (λ s. refl) w _ (record { fixed = λ s. refl })))
            (λ c. k c)))

  pub generate_talos_configuration-Goes : Goes bootstrapping (generate_talos_configuration w)
  unfolding generate_talos_configuration
  generate_talos_configuration-Goes c =
      then-Triple _ _ (transition_and_save-Triple _ c)
        (λ moved. settled bootstrapping _ (pure-IsFixed _ _))

  pub begin_upgrade-Goes : Goes upgrading (begin_upgrade w)
  unfolding begin_upgrade
  begin_upgrade-Goes c =
      then-Triple _ _ (transition_and_save-Triple _ c)
        (λ moved. settled upgrading _ (pure-IsFixed _ _))

  pub verify_and_mark_ready-Goes : Goes ready (verify_and_mark_ready w)
  unfolding verify_and_mark_ready
  verify_and_mark_ready-Goes c =
      then-Triple _ _ (wrapped-Triple _ _ (transition_and_save-Triple _ c))
        (λ moved. settled ready _ (pure-IsFixed _ _))

  pub mark_ready-Goes : Goes ready (mark_ready w)
  unfolding mark_ready
  mark_ready-Goes c =
      then-Triple _ _
        (unwritten w (ready ∷ []) id rows (ready ∷ []) (clock w) c
          (clock-IsFixed clusters_of (λ s. refl) w))
        (λ now.
          then-Triple _ _
            (wrapped-Triple _ _ (transition-Triple w (ready ∷ []) id rows [] now ready c))
            (λ moved.
              then-Triple _ _ (wrapped-Triple _ _ (update-Triple w (ready ∷ []) id rows moved))
                (λ _. settled ready _ (pure-IsFixed _ _))))

  module _ (d : Deps X) where
    pub check_talos-Goes : Goes configuring (check_talos w d)
    unfolding check_talos
    check_talos-Goes c = then-Triple _ _ (transition_and_save-Triple _ c) (λ moved.
        then-Triple _ _
          (settled configuring _
            (check_talos_health-IsFixed clusters_of (λ s. refl) (λ s x. refl) w d moved))
          (λ checked. settled configuring _ (pure-IsFixed _ _)))

    pub await_pull_request_merge-Goes : Goes installing (await_pull_request_merge w d)
    unfolding await_pull_request_merge
    await_pull_request_merge-Goes c =
        then-Triple _ _
          (unwritten w (installing ∷ []) id rows (installing ∷ []) _ c
            (git_ops_repo-IsFixed clusters_of (λ s. refl) (λ s x. refl) w c.id))
          (λ repo.
            then-Triple _ _
              (unwritten w (installing ∷ []) id rows (installing ∷ []) _ c
                (latest_change_set-IsFixed clusters_of (λ s. refl) (λ s x. refl) w c.id))
              (λ cs.
                then-Triple _ _
                  (unwritten w (installing ∷ []) id rows (installing ∷ []) _ c
                    (merged_pull_request-IsFixed clusters_of (λ s. refl) (λ s x. refl) w d repo cs))
                  (λ number.
                    then-Triple _ _
                      (unwritten w (installing ∷ []) id rows (installing ∷ []) _ c (
                        record_merge-IsFixed clusters_of (λ s. refl) (λ s x. refl) w (λ s cs. refl)
                          d cs))
                      (λ _.
                        then-Triple _ _ (transition_and_save-Triple _ c)
                          (λ moved. settled installing _ (pure-IsFixed _ _))))))
