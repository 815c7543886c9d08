-- ===== src/ClusterService/Rollback.antt =====
-- `Rollback`, `ScaffoldRepository` and the reads of internal/application/clusterservice/service.go. The
-- text of a UUID is a parameter, as its package makes it.
pub mod Texts
pub mod Restores
use talos_app.Prelude.{
  ℕ, zero, suc, ◌%◌, ltb, ◌||◌, get_elem?, String, Bool, true, false, Option, none, some, List, [],
  ◌∷◌, ◌==◌, not, str_eq, str_append, if◌then◌else◌,
}
use talos_app.Shared.{
  Uuid, Error, wrap, sentinel, invalid_input, not_found, is, zero_id, default_page, no_timestamps,
}
use talos_app.Exec.{Exec, Result, ok, err, pure, raise, lift, attempt, wrapped, ◌>>=◌, ◌>>◌}
use talos_app.Domain.Cluster.{Cluster}
use talos_app.Domain.GitOps.{ChangeSet, ChangeSetStatus, ArgoApplication, GitRepository}
use talos_app.Platform.{Platform, World}
use talos_app.Ports.{FileChange, GitProvider, ArgoCdClient, PullRequest, outside}
use talos_app.ClusterRepo
use talos_app.GitOpsRepo.{
  get_change_set, get_configuration, get_repository, create_change_set, update_change_set,
  list_applications, list_change_sets,
}
use talos_app.ClusterService.Rollback.Texts.{prefix_of, quoted}
use talos_app.Render.{Document, render_repository_scaffold}

pub record GitOpsStatus : Type 0 where
  pub applications : List ArgoApplication
  pub change_sets : List ChangeSet

abbrev pub deleted : String → FileChange
deleted path = record { path = path; content = ""; delete = true }

abbrev pub restored : String → String → FileChange
restored path content = record { path = path; content = content; delete = false }

-- The body of the loop over the files, from the answer to `GetFile`.
unfoldable pub reverted : String → Result String → Result FileChange
reverted path (ok content) = ok (restored path content)
reverted path (err x) =
    if is x not_found then ok (deleted path) else err (wrap "reading prior content of %s" x)

-- The loop over the files; `read` is `GetFile` at the parent commit.
module _ {X : Type 0} where
  unfoldable pub reverted_files :
      (String → Exec (Platform X) String) → List String → Exec (Platform X) (List FileChange)
  unfolding reverted
  reverted_files read [] = pure []
  reverted_files read (path ∷ rest) = do
    found ← attempt (read path)
    file ← lift (reverted path found)
    files ← reverted_files read rest
    pure (file ∷ files)

-- An answer with the change set as it stands when an error is met.
abbrev pub Revert : Type 0 → Type 0
Revert X = Platform X → (ChangeSet × Option Error) × Platform X

module _ {X : Type 0} where
  -- The files before the change, from the parent of its commit.
  unfoldable pub prior_files :
      GitProvider X → ChangeSet → GitRepository → Exec (Platform X) (List FileChange)
  prior_files git target repo = do
    parent ←
        wrapped "resolving parent of commit %s"
          (outside (git.get_commit_parent repo.owner repo.name target.commit_sha))
    reverted_files (λ path. outside (git.get_file repo.owner repo.name parent path))
        target.generated_files

module _ {X : Type 0} where
  abbrev answer_or :
      {A : Type 0}
      → ChangeSet
      → String
      → (A → Revert X)
      → Result A × Platform X
      → (ChangeSet × Option Error) × Platform X
  answer_or cs label next (ok a, y) = next a y
  answer_or cs label next (err x, y) = ((cs, some (wrap label x)), y)

  -- A step after the change set is stored: its error is answered with the change set.
  unfoldable pub or_answer :
      {A : Type 0} → ChangeSet → String → Exec (Platform X) A → (A → Revert X) → Revert X
  or_answer cs label m next s = answer_or cs label next (m s)

module _ {X : Type 0} (w : World) (git : GitProvider X) (argocd : ArgoCdClient X)
    (uuid_string : Uuid → String) where
  -- The cluster, the change set and the repository, with the checks of the request.
  unfoldable pub rollback_target :
      Uuid → Uuid → Exec (Platform X) (Cluster × ChangeSet × GitRepository)
  rollback_target cluster change = do
    c ← ClusterRepo.get w cluster
    target ← wrapped "loading change set" (get_change_set w change)
    if not (target.cluster_id == cluster)
        then raise (wrap "%w: change set %s does not belong to cluster %s" (sentinel invalid_input))
        else if str_eq target.commit_sha ""
        then raise
            (wrap "%w: change set %s has no recorded commit to revert" (sentinel invalid_input))
        else (do
          cfg ← wrapped "loading gitops configuration" (get_configuration w cluster)
          repo ← wrapped "loading git repository" (get_repository w cfg.repository_id)
          pure (c, target, repo))

  unfoldable pub rollback_branch : Cluster → Uuid → String
  rollback_branch c change =
      str_append "platform/cluster-"
        (str_append c.name (str_append "-rollback-" (prefix_of 8 (uuid_string change))))

  unfoldable pub rollback_description : ChangeSet → Uuid → String
  rollback_description target change = str_append "Revert " (
      str_append (quoted target.description)
        (str_append " (change set " (str_append (uuid_string change) ")")))

  -- The commit of the revert, and its change set as it is stored.
  unfoldable pub commit_revert :
      Uuid → Uuid → Cluster → ChangeSet → GitRepository → Exec (Platform X) ChangeSet
  commit_revert cluster change c target repo = do
    files ← prior_files git target repo
    let branch = rollback_branch c change
    let description = rollback_description target change
    wrapped "creating rollback branch"
        (outside (git.create_branch repo.owner repo.name branch repo.default_branch))
    sha ← wrapped "committing rollback" (
        outside (
          git.commit (record {
            owner = repo.owner;
            repo = repo.name;
            branch = branch;
            message = description;
            files = files;
          })))
    wrapped "recording rollback change set" (
        create_change_set w (record {
          id = zero_id;
          cluster_id = cluster;
          workflow_id = none;
          description = description;
          generated_files = target.generated_files;
          commit_sha = sha;
          pull_request_url = "";
          status = ChangeSetStatus.committed;
          result = "";
          timestamps = no_timestamps;
        }))

  -- The Argo CD sync after the merge.
  unfoldable pub sync_revert : Cluster → ChangeSet → Revert X
  sync_revert c cs =
      if c.spec.argocd.enabled
      then (or_answer cs "syncing argocd application after rollback" (outside (argocd.sync c.name))
          (λ u.
            let done = record cs { status = ChangeSetStatus.synced } in
            or_answer done "recording synced rollback" (update_change_set w done)
              (λ kept y. ((kept, none), y))))
      else (λ y. ((cs, none), y))

  unfoldable pub merge_revert : Cluster → GitRepository → PullRequest → ChangeSet → Revert X
  merge_revert c repo pr cs =
      or_answer cs "merging rollback pull request #%d"
        (outside (git.merge_pull_request repo.owner repo.name pr.number))
        (λ u.
          let done = record cs { status = ChangeSetStatus.merged; result = "merged" } in
          or_answer done "recording merged rollback" (update_change_set w done) (sync_revert c))

  -- The rest of the request once the change set of the revert is stored.
  unfoldable pub open_revert : Uuid → Cluster → ChangeSet → GitRepository → ChangeSet → Revert X
  open_revert change c target repo cs =
      or_answer cs "creating rollback pull request"
        (outside (
          git.create_pull_request (record {
            owner = repo.owner;
            repo = repo.name;
            title = cs.description;
            body = "Rollback generated by the Talos Platform (§18).";
            head = rollback_branch c change;
            base = repo.default_branch;
          })))
        (λ pr.
          let done = record cs { pull_request_url = pr.url; status = ChangeSetStatus.pr_created } in
          or_answer done "recording rollback pull request" (update_change_set w done)
            (merge_revert c repo pr))

  abbrev and_answer :
      (ChangeSet × Option Error) × Platform X → (Option ChangeSet × Option Error) × Platform X
  and_answer ((cs, x), y) = ((some cs, x), y)

  abbrev from_commit :
      Uuid
      → Cluster × ChangeSet × GitRepository
      → Result ChangeSet × Platform X
      → (Option ChangeSet × Option Error) × Platform X
  from_commit change (c, target, repo) (ok cs, y) =
      and_answer (open_revert change c target repo cs y)
  from_commit change (c, target, repo) (err x, y) = ((none, some x), y)

  abbrev from_target :
      Uuid
      → Uuid
      → Result (Cluster × ChangeSet × GitRepository) × Platform X
      → (Option ChangeSet × Option Error) × Platform X
  from_target cluster change (ok (c, target, repo), y) =
      from_commit change (c, target, repo) (commit_revert cluster change c target repo y)
  from_target cluster change (err x, y) = ((none, some x), y)

  -- `Rollback`: a change set that is answered beside an error is as it was to be stored.
  unfoldable pub rollback :
      Uuid → Uuid → Platform X → (Option ChangeSet × Option Error) × Platform X
  rollback cluster change s = from_target cluster change (rollback_target cluster change s)

module _ {X : Type 0} (w : World) where
  -- `GitOpsStatus`
  unfoldable pub gitops_status : Uuid → Exec (Platform X) GitOpsStatus
  gitops_status cluster = do
    applications ← wrapped "loading argo applications" (list_applications w cluster)
    changes ← wrapped "loading change sets" (list_change_sets w cluster default_page)
    pure (record { applications = applications; change_sets = changes })

  -- `ListApplicationSets`, with the Argo CD client's call of that name.
  unfoldable pub list_application_sets :
      {A : Type 0} → (String → Exec X (List A)) → Uuid → Exec (Platform X) (List A)
  list_application_sets list cluster = do
    c ← ClusterRepo.get w cluster
    wrapped "listing argo application sets for cluster %s" (outside (list c.spec.argocd.project))

  unfoldable pub scaffold_repository :
      (Document → Result String) → GitProvider X → Uuid → Exec (Platform X) (Unit {0})
  scaffold_repository marshal git id = do
    repo ← wrapped "loading repository" (get_repository w id)
    files ← wrapped "rendering repository scaffold" (
        lift (
          render_repository_scaffold marshal
            (str_append "https://github.com/"
              (str_append repo.owner (str_append "/" (str_append repo.name ".git"))))
            repo.default_branch))
    wrapped "committing repository scaffold" (
        outside (
          git.commit (record {
            owner = repo.owner;
            repo = repo.name;
            branch = repo.default_branch;
            message = "Bootstrap GitOps repository layout";
            files = files;
          })))
    pure tt
