-- ===== src/Provisioning/Steps/Ready/Requests.antt =====
-- The pull request of a provisioning, opened and merged: `create-pull-request` and
-- `await-pull-request-merge` of internal/workflows/cluster_provision.go where the systems cooperate.
use talos_app.Prelude.{refl, String}
use talos_app.Shared.{Uuid}
use talos_app.Exec.{◌>>=◌}
use talos_app.Exec.Triple.{Triple, wrapped-Triple}
use talos_app.Domain.Cluster.{Cluster}
use talos_app.Domain.GitOps.{GitRepository, GitOpsConfiguration, ChangeSet, ChangeSetStatus}
use talos_app.Platform.{World, IsHealthy}
use talos_app.Ports.{PullRequest, outside}
use talos_app.Provisioning.Change.{
  open_pull_request, record_pull_request, merged_pull_request, record_merge,
}
use talos_app.Provisioning.Steps.Ready.Outside.{Cooperates}
use talos_app.Provisioning.Steps.Ready.Tables.{
  Never, With, Latest, Newest, AnyUrl, info_of, update_change_set-Triple,
}
use talos_app.Provisioning.{Deps}

module _ {X : Type 0} (id : Uuid) (cfg : GitOpsConfiguration) (repo : GitRepository) (w : World)
    (h : IsHealthy w) (d : Deps X) (Opened : String → String → String → X → Type 0)
    (k : Cooperates d Opened) where
  -- A pull request of this URL is open in the repository.
  abbrev pub Open : String → X → Type 0
  Open url x = Opened repo.owner repo.name url x

  pub open_pull_request-Triple :
      (row : Cluster) (title body head : String)
      → Triple
          (With id cfg repo (Latest id AnyUrl) row)
          (λ pr s. With id cfg repo (Latest id (λ u x. Open pr.url x)) row s)
          Never
          (open_pull_request w d (info_of repo) title body head)
  unfolding open_pull_request outside ◌>>=◌
  open_pull_request-Triple row title body head = record {
    leads = λ s p.
        let (pr, e, o) =
          k.opens
            (record {
              owner = repo.owner;
              repo = repo.name;
              title = title;
              body = body;
              head = head;
              base = repo.default_branch;
            })
            s.outside in
        rw e (record {
          found = p.found;
          configured = p.configured;
          stored = p.stored;
          history = (p.history.0, (p.history.1.0, o));
        });
  }

  pub record_pull_request-Triple :
      (row : Cluster) (pr : PullRequest) (cs : ChangeSet)
      → Triple
          (With id cfg repo (Newest id cs (λ u x. Open pr.url x)) row)
          (λ a s. With id cfg repo (Latest id Open) row s)
          Never
          (record_pull_request w d pr cs)
  unfolding record_pull_request
  record_pull_request-Triple row pr cs = wrapped-Triple _ _ (
      update_change_set-Triple id cfg repo w h cs
        (record cs { pull_request_url = pr.url; status = ChangeSetStatus.pr_created })
        (λ u x. Open pr.url x) Open row refl (λ x o. o))

  pub merged_pull_request-Triple :
      (row : Cluster) (cs : ChangeSet)
      → Triple
          (With id cfg repo (Newest id cs Open) row)
          (λ n s. With id cfg repo (Newest id cs AnyUrl) row s)
          Never
          (merged_pull_request w d (info_of repo) cs)
  unfolding merged_pull_request outside ◌>>=◌
  merged_pull_request-Triple row cs = record {
    leads = λ s p.
        let (n, en, pr, ep, em) = k.merges _ _ _ s.outside p.history.1 in
        rw (en, ep, em)
          (record {
            found = p.found;
            configured = p.configured;
            stored = p.stored;
            history = (p.history.0, tt);
          });
  }

  pub record_merge-Triple :
      (row : Cluster) (cs : ChangeSet)
      → Triple
          (With id cfg repo (Newest id cs AnyUrl) row)
          (λ a s. With id cfg repo (Latest id AnyUrl) row s)
          Never
          (record_merge w d cs)
  unfolding record_merge
  record_merge-Triple row cs =
      wrapped-Triple _ _
        (update_change_set-Triple id cfg repo w h cs _ AnyUrl AnyUrl row refl (λ x o. tt))
