-- ===== src/Provisioning/Steps/Ready/Tables.antt =====
-- What the database actions of a provisioning return, where every call goes through: the invariant that
-- the steps of internal/workflows/cluster_provision.go keep, over the tables and the state outside.
use talos_app.Prelude.{
  ℕ, suc, ◌≡◌, refl, sym, subst, String, true, false, some, List, [], ◌∷◌, ◌++◌, find, ==_iff,
  ==_self, ◌==◌, arith, ◌||◌,
}
use talos_app.Shared.{Uuid, JsonMap, Time, zero_id, touch}
use talos_app.Exec.{Exec, ok, lift, ◌>>=◌}
use talos_app.Exec.Triple.{Triple, then-Triple, wrapped-Triple, pure-Triple, given-Triple}
use talos_app.Domain.Cluster.{Cluster, State, state_eq, can_transition, transition}
use talos_app.Domain.GitOps.{GitRepository, GitOpsConfiguration, ChangeSet}
use talos_app.Domain.Workflow.{Workflow}
use talos_app.Platform.{Platform, Db, World, IsHealthy, call, clock, tick}
use talos_app.Platform.Rows.{update_rows, affects, newest_where, first, paged}
use talos_app.Platform.Rows.Append.{affects-append}
use talos_app.Platform.Rows.Lookup.{
  find-satisfies, find-update_rows, affects_of_find, affects_of_In,
}
use talos_app.Platform.Rows.Newest.{first-newest_where-update, newest_where-some, newest_where-In}
use talos_app.ClusterRepo
use talos_app.ClusterRepo.{cluster_has_id, set_cluster}
use talos_app.GitOpsRepo.{
  repository_has_id, configures, change_has_id, changes_cluster, change_age, set_change_set,
  get_configuration, get_repository, create_change_set, update_change_set, list_change_sets,
}
use talos_app.Provisioning.{
  RepoInfo, newest, cluster_step, cluster_step_with_workflow, transition_and_save, git_ops_repo,
  latest_change_set,
}
use talos_app.Provisioning.Steps.{is_empty}

-- What the three validations of a specification ask.
pub record Fit (c : Cluster) : Type 0 where
  pub versions : (is_empty c.spec.kubernetes_version || is_empty c.spec.talos_version) ≡ false
  pub site : (c.site_id == zero_id) ≡ false
  pub cidrs : (is_empty c.spec.network.pod_cidr || is_empty c.spec.network.service_cidr) ≡ false

-- Nothing fails.
abbrev pub Never : {X : Type 0} → Platform X → Type 0
Never s = ⊥

abbrev pub moved_to : State → Time → Cluster → Cluster
moved_to next now c = record c { state = next; timestamps = touch now c.timestamps }

abbrev pub info_of : GitRepository → RepoInfo
info_of r = record { owner = r.owner; name = r.name; default_branch = r.default_branch }

newest-ok :
    (cs : ChangeSet) (l : List ChangeSet)
    → first l ≡ some cs
    → newest (paged (record { limit = 1; offset = 0 }) l) ≡ ok cs
unfolding newest
newest-ok cs [] e = ground (arith, e)
newest-ok cs (y ∷ ys) e = ground (arith, e)

-- No change set has an identifier that is still to be made.
abbrev pub Unused : World → List ChangeSet → Type 0
Unused w l = (n : ℕ) → affects (change_has_id (w.fresh n)) l ≡ false

-- The cluster has a change set.
abbrev pub Recorded : Uuid → List ChangeSet → Type 0
Recorded id l =
    (cs : ChangeSet) × ((first (newest_where (changes_cluster id) change_age l) ≡ some cs)
      × Unit {0})

module _ {X : Type 0} where
  abbrev pub AnyUrl : String → X → Type 0
  AnyUrl url x = Unit

  -- The newest change set of the cluster, and what holds of its URL.
  abbrev pub Newest : Uuid → ChangeSet → (String → X → Type 0) → List ChangeSet → X → Type 0
  Newest id cs url l x =
      (first (newest_where (changes_cluster id) change_age l) ≡ some cs) × url cs.pull_request_url x

  abbrev pub Latest : Uuid → (String → X → Type 0) → List ChangeSet → X → Type 0
  Latest id url l x = (cs : ChangeSet) × Newest id cs url l x

module _ {X : Type 0} (id : Uuid) (cfg : GitOpsConfiguration) (repo : GitRepository) where
  -- The tables hold the cluster, its configuration and its repository, and of the change sets and the
  -- state outside `changes` holds.
  pub record Holds (changes : List ChangeSet → X → Type 0) (row : Cluster) (db : Db) (x : X)
      : Type 0 where
    pub found : find (cluster_has_id id) db.clusters ≡ some row
    pub configured : find (configures id) db.configurations ≡ some cfg
    pub stored : find (repository_has_id cfg.repository_id) db.repositories ≡ some repo
    pub history : changes db.change_sets x

  abbrev pub With : (List ChangeSet → X → Type 0) → Cluster → Platform X → Type 0
  With changes row s = Holds changes row s.db s.outside

  -- The cluster is fit and in this state.
  abbrev pub Stage : (List ChangeSet → X → Type 0) → State → Platform X → Type 0
  Stage changes st s = (row : Cluster) × (row.state ≡ st) × Fit row × With changes row s

  module _ (w : World) (h : IsHealthy w) where
    pub git_ops_repo-Triple :
        (changes : List ChangeSet → X → Type 0) (row : Cluster)
        → Triple
            (With changes row)
            (λ r s. (r ≡ info_of repo) × With changes row s)
            Never
            (git_ops_repo w id)
    unfolding git_ops_repo get_configuration get_repository call ◌>>=◌
    git_ops_repo-Triple changes row = record {
      leads = λ s k. rw (h s.calls, k.configured, h (suc s.calls), k.stored) (refl, k);
    }

    pub configuration-Triple :
        (changes : List ChangeSet → X → Type 0) (row : Cluster)
        → Triple (With changes row) (λ r s. With changes row s) Never (get_configuration w id)
    unfolding get_configuration call
    configuration-Triple changes row = record { leads = λ s k. rw (h s.calls, k.configured) k }

    pub latest_change_set-Triple :
        (url : String → X → Type 0) (row : Cluster)
        → Triple
            (With (Latest id url) row)
            (λ cs s. With (Newest id cs url) row s)
            Never
            (latest_change_set w id)
    unfolding latest_change_set list_change_sets call ◌>>=◌
    latest_change_set-Triple url row = record {
      leads = λ s k.
          let (cs, (e, u)) = k.history in
          rw (h s.calls, newest-ok cs _ e)
            (record {
              found = k.found;
              configured = k.configured;
              stored = k.stored;
              history = (e, u);
            });
    }

    -- An update of the newest change set leaves it the newest, with the URL that is written.
    pub update_change_set-Triple :
        (cs given : ChangeSet) (url url' : String → X → Type 0) (row : Cluster)
        → given.id ≡ cs.id
        → ((x : X) → url cs.pull_request_url x → url' given.pull_request_url x)
        → Triple
            (With (Newest id cs url) row)
            (λ a s. With (Latest id url') row s)
            Never
            (update_change_set w given)
    unfolding update_change_set set_change_set call ◌>>=◌
    update_change_set-Triple cs given url url' row i u = record {
      leads = λ s k.
          let (e, v) = k.history in
          let (inside, _) = newest_where-In (changes_cluster id) change_age s.db.change_sets cs e in
          let hit : change_has_id given.id cs ≡ true = rw i (==_self cs.id) in
          let there : affects (change_has_id given.id) s.db.change_sets ≡ true =
            affects_of_In (change_has_id given.id) s.db.change_sets cs inside hit in
          rw (h (suc s.calls), there)
            (record {
              found = k.found;
              configured = k.configured;
              stored = k.stored;
              history = (
                _,
                (
                  first-newest_where-update (changes_cluster id) (change_has_id given.id) change_age
                      (set_change_set
                        (record given { timestamps = touch (w.time s.calls) given.timestamps }))
                      (λ y. refl) (λ y. refl) s.db.change_sets cs e hit,
                  u s.outside v,
                ),
              );
            });
    }

    pub create_change_set-Triple :
        (given : ChangeSet) (row : Cluster)
        → given.id ≡ 0
        → given.cluster_id ≡ id
        → Triple
            (With (λ l x. Unused w l) row)
            (λ a s. With (Latest id AnyUrl) row s)
            Never
            (create_change_set w given)
    unfolding create_change_set call ◌>>=◌
    create_change_set-Triple given row z i = record {
      leads = λ s k.
          rw (z, h (suc (suc s.calls)), k.history (suc s.calls))
            (record {
              found = k.found;
              configured = k.configured;
              stored = k.stored;
              history = after s;
            });
    }
      where
        after :
            (s : Platform X)
            → Latest id AnyUrl
                (s.db.change_sets
                  ++ record given {
                    id = w.fresh (suc s.calls);
                    timestamps = touch (w.time s.calls) given.timestamps;
                  }
                    ∷ [])
                s.outside
        after s =
            let (cs, e) = newest_where-some (changes_cluster id) change_age _ (
              affects-append (changes_cluster id) s.db.change_sets _
                ((==_iff given.cluster_id id).1 i)) in
            (cs, (e, tt))

    pub clock-Triple :
        (changes : List ChangeSet → X → Type 0) (row : Cluster)
        → Triple (With changes row) (λ now s. With changes row s) Never (clock w)
    clock-Triple changes row = record { leads = λ s p. p }

    pub transition-Triple :
        (changes : List ChangeSet → X → Type 0) (next : State) (c : Cluster) (now : Time)
        → can_transition c.state next ≡ true
        → Triple
            (With changes c)
            (λ m s. (m ≡ moved_to next now c) × With changes c s)
            Never
            (lift (transition now next c))
    unfolding transition ◌>>=◌
    transition-Triple changes next c now legal = record { leads = λ s p. rw legal (refl, p) }

    -- The cluster is written back in its new state.
    pub update_moved-Triple :
        (changes : List ChangeSet → X → Type 0) (next : State) (c : Cluster) (now : Time)
        → Fit c
        → Triple
            (With changes c)
            (λ a s. Stage changes next s)
            Never
            (ClusterRepo.update w (moved_to next now c))
    unfolding ClusterRepo.update set_cluster call ◌>>=◌
    update_moved-Triple changes next c now fit = record {
      leads = λ s k.
          let same : c.id ≡ id =
            (==_iff c.id id).0 (find-satisfies (cluster_has_id id) _ c k.found) in
          let f = subst (λ i. find (cluster_has_id i) s.db.clusters ≡ some c) (sym same) k.found in
          let change = set_cluster (w.time s.calls) (moved_to next now c) in
          rw (h (suc s.calls), affects_of_find (cluster_has_id c.id) s.db.clusters c f)
            (
              change c,
              refl,
              record { versions = fit.versions; site = fit.site; cidrs = fit.cidrs },
              record {
                found =
                    subst
                      (λ i.
                        find (cluster_has_id i)
                          (update_rows (cluster_has_id c.id) change s.db.clusters)
                        ≡ some (change c))
                      same
                      (find-update_rows (cluster_has_id c.id) change s.db.clusters c (λ y. refl) f);
                configured = k.configured;
                stored = k.stored;
                history = k.history;
              },
            );
    }

    pub transition_and_save-Triple :
        (changes : List ChangeSet → X → Type 0) (next : State) (c : Cluster)
        → state_eq c.state next ≡ false
        → can_transition c.state next ≡ true
        → Fit c
        → Triple (With changes c) (λ a s. Stage changes next s) Never (transition_and_save w next c)
    unfolding transition_and_save
    transition_and_save-Triple changes next c ne legal fit = rw ne (
        then-Triple _ _ (clock-Triple changes c) (λ now.
          then-Triple _ _ (wrapped-Triple _ _ (transition-Triple changes next c now legal))
            (λ moved. given-Triple _ (λ q. rw q (
              then-Triple _ _ (update_moved-Triple changes next c now fit)
                (λ _. pure-Triple _ (λ s p. p)))))))

    -- A step runs on the cluster that the table holds.
    pub cluster_step-Triple :
        {goal : JsonMap → Platform X → Type 0} (changes : List ChangeSet → X → Type 0) (st : State)
        (fn : Cluster → Exec (Platform X) JsonMap) (wf : Workflow)
        → wf.cluster_id ≡ some id
        → ((c : Cluster)
            → c.state ≡ st
            → Fit c
            → c.id ≡ id
            → Triple (With changes c) goal Never (fn c))
        → Triple (Stage changes st) goal Never (cluster_step w fn wf)
    unfolding cluster_step ClusterRepo.get call ◌>>=◌
    cluster_step-Triple changes st fn wf own k = record {
      leads = λ s (row, t, fit, p).
          simp (own, h s.calls, p.found)
            ((k row t fit
                ((==_iff row.id id).0 (find-satisfies (cluster_has_id id) _ row p.found))).leads
              (tick s) p);
    }

    pub workflow_step-Triple :
        {goal : JsonMap → Platform X → Type 0} (changes : List ChangeSet → X → Type 0) (st : State)
        (fn : Cluster → Workflow → Exec (Platform X) JsonMap) (wf : Workflow)
        → wf.cluster_id ≡ some id
        → ((c : Cluster)
            → c.state ≡ st
            → Fit c
            → c.id ≡ id
            → Triple (With changes c) goal Never (fn c wf))
        → Triple (Stage changes st) goal Never (cluster_step_with_workflow w fn wf)
    unfolding cluster_step_with_workflow ClusterRepo.get call ◌>>=◌
    workflow_step-Triple changes st fn wf own k = record {
      leads = λ s (row, t, fit, p).
          simp (own, h s.calls, p.found)
            ((k row t fit
                ((==_iff row.id id).0 (find-satisfies (cluster_has_id id) _ row p.found))).leads
              (tick s) p);
    }
