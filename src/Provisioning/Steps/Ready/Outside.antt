-- ===== src/Provisioning/Steps/Ready/Outside.antt =====
-- The systems behind the ports where they do what a provisioning asks of them, and what the actions of
-- internal/workflows/cluster_provision.go then return.
use talos_app.Prelude.{◌≡◌, refl, String, true, some, List, str_eq, ℤ}
use talos_app.Shared.{Uuid}
use talos_app.Exec.{Exec, Result, ok, ◌>>=◌, lift}
use talos_app.Exec.Triple.{
  Triple, then-Triple, wrapped-Triple, pure-Triple, given-Triple, weaken-Triple, if-Triple,
}
use talos_app.Domain.Cluster.{Cluster}
use talos_app.Domain.GitOps.{GitRepository, GitOpsConfiguration, ChangeSet}
use talos_app.Domain.Workflow.{Workflow}
use talos_app.Platform.{Platform, World, IsHealthy}
use talos_app.Ports.{
  FileChange, CommitRequest, PullRequestRequest, PullRequest, CapiResourceStatus, TalosClient,
  Secrets, outside,
}
use talos_app.Provisioning.Change.{committed, commit_manifests}
use talos_app.Provisioning.Health.{all_ready}
use talos_app.Provisioning.PullRequest.{pr_number_from_url}
use talos_app.Provisioning.Steps.Ready.Tables.{
  Never, With, Latest, AnyUrl, Unused, configuration-Triple, create_change_set-Triple,
}
use talos_app.Provisioning.{Deps, RepoInfo, capi_manifests, render_manifest_set}
use talos_app.Render.{Document}
use talos_app.Render.Layout.{render_cluster_manifests-layout}

-- What the systems answer: nothing fails, an opened pull request is merged when it is asked for (by
-- `Opened`, of its repository and its URL), and what is observed is healthy.
pub record Cooperates {X : Type 0} (d : Deps X) (Opened : String → String → String → X → Type 0)
    : Type 0 where
  pub writes : (doc : Document) → (t : String) × (d.marshal doc ≡ ok t)
  pub branches :
      (owner name branch from : String) (x : X)
      → (a : Unit {0}) × ((d.git.create_branch owner name branch from x).0 ≡ ok a)
  pub commits : (req : CommitRequest) (x : X) → (sha : String) × ((d.git.commit req x).0 ≡ ok sha)
  pub opens :
      (req : PullRequestRequest) (x : X)
      → (pr : PullRequest) × ((d.git.create_pull_request req x).0 ≡ ok pr)
        × Opened req.owner req.repo pr.url (d.git.create_pull_request req x).1
  pub merges :
      (owner name url : String) (x : X)
      → Opened owner name url x
      → (n : ℤ) × (pr_number_from_url url ≡ ok n)
        × (pr : PullRequest) × ((d.git.get_pull_request owner name n x).0 ≡ ok pr)
        × (str_eq pr.state "merged" ≡ true)
  pub synced : (name : String) (x : X) → (a : Unit {0}) × ((d.argocd.sync name x).0 ≡ ok a)
  pub rendered :
      (c : Cluster) (x : X)
      → (files : List FileChange) × ((d.cluster_api.render_manifests c x).0 ≡ ok files)
  pub observed :
      (name : String) (x : X)
      → (l : List CapiResourceStatus) × ((d.cluster_api.get_cluster_status "default" name x).0
          ≡ ok l)
        × (all_ready l ≡ ok tt)
  pub healthy :
      (t : TalosClient X) (e : String) (x : X) → d.talos ≡ some t → (t.get_health e x).0 ≡ ok true
  pub registered :
      (t : TalosClient X) (e config : String) (x : X)
      → d.talos ≡ some t
      → (a : Unit {0}) × ((t.ensure_credentials e config x).0 ≡ ok a)
  pub kept :
      (k : Secrets X) (path : String) (x : X)
      → d.secrets ≡ some k
      → (v : String) × ((k "talos" path x).0 ≡ ok v)

module _ {X : Type 0} (id : Uuid) (cfg : GitOpsConfiguration) (repo : GitRepository) (w : World)
    (h : IsHealthy w) where
  -- A port that answers, where the change sets' property does not read the outside.
  pub answers-Triple :
      {A : Type 0} (P : A → Type 0) (changes : List ChangeSet → Type 0) (row : Cluster)
      (m : Exec X A)
      → ((x : X) → (a : A) × ((m x).0 ≡ ok a) × P a)
      → Triple
          (With id cfg repo (λ l x. changes l) row)
          (λ a s. P a × With id cfg repo (λ l x. changes l) row s)
          Never
          (outside m)
  unfolding outside
  answers-Triple P changes row m k = record {
    leads = λ s p.
        let (a, e, q) = k s.outside in
        rw e (
          q,
          record {
            found = p.found;
            configured = p.configured;
            stored = p.stored;
            history = p.history;
          },
        );
  }

  -- The same where the answer does not matter.
  pub returns-Triple :
      {A : Type 0} (changes : List ChangeSet → Type 0) (row : Cluster) (m : Exec X A)
      → ((x : X) → (a : A) × ((m x).0 ≡ ok a))
      → Triple
          (With id cfg repo (λ l x. changes l) row)
          (λ a s. With id cfg repo (λ l x. changes l) row s)
          Never
          (outside m)
  returns-Triple {A} changes row m k =
      weaken-Triple _
        (answers-Triple (λ (a : A). Unit {0}) changes row m (λ x. let (a, e) = k x in (a, e, tt)))
        (λ a s p. p.1)

  pub lift-Triple :
      {A : Type 0} (before : Platform X → Type 0) (r : Result A) (a : A)
      → r ≡ ok a
      → Triple before (λ b s. (b ≡ a) × before s) Never (lift r)
  unfolding ◌>>=◌
  lift-Triple before r a e = record { leads = λ s p. rw e (refl, p) }

  module _ (d : Deps X) (Opened : String → String → String → X → Type 0)
      (k : Cooperates d Opened) where
    pub sync-Triple :
        (changes : List ChangeSet → Type 0) (row : Cluster) (name : String)
        → Triple
            (With id cfg repo (λ l x. changes l) row)
            (λ a s. With id cfg repo (λ l x. changes l) row s)
            Never
            (outside (d.argocd.sync name))
    sync-Triple changes row name =
        returns-Triple changes row (d.argocd.sync name) (λ x. k.synced name x)

    pub capi_manifests-Triple :
        (changes : List ChangeSet → Type 0) (row c : Cluster)
        → Triple
            (With id cfg repo (λ l x. changes l) row)
            (λ a s. With id cfg repo (λ l x. changes l) row s)
            Never
            (capi_manifests w d c)
    unfolding capi_manifests
    capi_manifests-Triple changes row c =
        wrapped-Triple _ _ (returns-Triple changes row _ (λ x. k.rendered c x))

    render_manifest_set-Triple :
        (changes : List ChangeSet → Type 0) (row c : Cluster) (info : RepoInfo)
        → c.id ≡ id
        → Triple
            (With id cfg repo (λ l x. changes l) row)
            (λ a s. With id cfg repo (λ l x. changes l) row s)
            Never
            (render_manifest_set w d c info)
    unfolding render_manifest_set
    render_manifest_set-Triple changes row c info same = simp same (
        then-Triple _ _
          (wrapped-Triple _ _ (configuration-Triple id cfg repo w h (λ l x. changes l) row))
          (λ conf.
            let (files, e, _) = render_cluster_manifests-layout d.marshal k.writes _ in
            then-Triple _ _ (lift-Triple _ _ files e) (λ fs. given-Triple _ (λ _.
              if-Triple _ _ _
                (then-Triple _ _ (capi_manifests-Triple changes row c)
                  (λ capi. pure-Triple _ (λ s p. p)))
                (pure-Triple _ (λ s p. p))))))

    pub commit_manifests-Triple :
        (row c : Cluster) (wf : Workflow) (info : RepoInfo) (branch description : String)
        → c.id ≡ id
        → Triple
            (With id cfg repo (λ l x. Unused w l) row)
            (λ a s. With id cfg repo (Latest id AnyUrl) row s)
            Never
            (commit_manifests w d c wf info branch description)
    unfolding commit_manifests committed
    commit_manifests-Triple row c wf info branch description same =
        then-Triple _ _ (wrapped-Triple _ _ (render_manifest_set-Triple (Unused w) row c info same))
          (λ files.
            then-Triple _ _
              (wrapped-Triple _ _ (returns-Triple (Unused w) row _ (λ x. k.branches _ _ _ _ x)))
              (λ _.
                then-Triple _ _
                  (wrapped-Triple _ _ (returns-Triple (Unused w) row _ (λ x. k.commits _ x)))
                  (λ sha.
                    wrapped-Triple _ _ (create_change_set-Triple id cfg repo w h _ row refl same))))
