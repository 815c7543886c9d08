-- ===== src/Scenarios/Provisions.antt =====
-- The steps of a provisioning, with a Git provider that merges at once and one that never does.
use talos_app.Prelude.{
  ◌≡◌, refl, some, none, [], ◌∷◌, true, find, inl, inr, String, pos, arith, str_append, str_eq,
}
use talos_app.Shared.{sentinel, not_found, no_timestamps}
use talos_app.Exec.{ok, err}
use talos_app.Domain.Cluster.{Cluster, State, cluster_api, provisioning, bootstrapping, ready}
use talos_app.Domain.GitOps.{GitRepository, GitOpsConfiguration}
use talos_app.Domain.Workflow.{Workflow, Kind, running}
use talos_app.Platform.{Platform, World, empty_db}
use talos_app.ClusterRepo.{cluster_has_id}
use talos_app.Mocks.Github.{no_github, opened, create_pull_request, get_pull_request}
use talos_app.Mocks.Merged.{pull_request_found}
use talos_app.Ports.{GitProvider, PullRequest, PullRequestRequest}
use talos_app.Provisioning.PullRequest.{pr_number_from_url}
use talos_app.Provisioning.PullRequest.Decimal.{decimal}
use talos_app.Provisioning.PullRequest.RoundTrip.{pr_number_from_url-decimal}
use talos_app.Provisioning.Steps.{mark_ready, generate_talos_configuration, provision_definition}
use talos_app.Provisioning.Steps.Ready.Outside.{Cooperates}
use talos_app.Provisioning.Steps.Ready.Run.{run_steps, provision_ends_ready}
use talos_app.Engine.Outcome.{LeavesRuns}
use talos_app.Provisioning.Apart.{steps_leave_runs}
use talos_app.Provisioning.Goals.{IsEffect}
use talos_app.Provisioning.Table.{steps_follow_table}
use talos_app.Provisioning.{Deps, cluster_step}
use talos_app.Scenarios.{healthy, healthy-IsHealthy, a_run}
use talos_app.Scenarios.Clusters.{a_cluster}

abbrev a_pull_request : String → PullRequest
a_pull_request state = record {
  number = pos 7;
  url = "https://github.com/acme/gitops/pull/7";
  state = state;
  head = "";
  base = "";
}

-- Every pull request is in this state.
abbrev git_in : String → GitProvider (Unit {0})
git_in state = record {
  create_branch = λ owner repo branch from x. (ok tt, x);
  get_file = λ owner repo reference path x. (err (sentinel not_found), x);
  commit = λ req x. (ok "sha", x);
  create_pull_request = λ req x. (ok (a_pull_request state), x);
  get_pull_request = λ owner repo number x. (ok (a_pull_request state), x);
  merge_pull_request = λ owner repo number x. (ok tt, x);
  get_commit_parent = λ owner repo sha x. (err (sentinel not_found), x);
}

abbrev pub deps_in : String → Deps (Unit {0})
deps_in state = record {
  marshal = λ doc. ok "";
  git = git_in state;
  argocd = record {
    get_application = λ name x. (err (sentinel not_found), x);
    sync = λ name x. (ok tt, x);
  };
  cluster_api = record {
    render_manifests = λ c x. (ok [], x);
    get_cluster_status = λ namespace name x. (ok [], x);
  };
  talos = none;
  secrets = none;
  has_machines = true;
}

abbrev pub a_configuration : GitOpsConfiguration
a_configuration = record {
  id = 60;
  cluster_id = 5;
  repository_id = 61;
  path = "clusters/edge/";
  branch = "main";
  timestamps = no_timestamps;
}

abbrev pub a_repository : GitRepository
a_repository = record {
  id = 61;
  organization_id = 10;
  git_provider_id = 62;
  owner = "acme";
  name = "gitops";
  default_branch = "main";
  timestamps = no_timestamps;
}

abbrev pub configured : State → Platform (Unit {0})
configured state = record {
  db = record empty_db {
    clusters = a_cluster state ∷ [];
    configurations = a_configuration ∷ [];
    repositories = a_repository ∷ [];
  };
  dispatches = [];
  outside = tt;
  calls = 0;
}

abbrev its_run : Workflow
its_run = a_run Kind.cluster_provision running

abbrev pub ItsUrl : String → String → String → Unit {0} → Type 0
ItsUrl owner name url x = url ≡ "https://github.com/acme/gitops/pull/7"

pub merges_at_once : Cooperates (deps_in "merged") ItsUrl
unfolding pr_number_from_url talos_app.Provisioning.PullRequest.digits_from
    talos_app.Provisioning.Health.all_ready
merges_at_once = record {
  writes = λ doc. ("", refl);
  branches = λ owner name branch from x. (tt, refl);
  commits = λ req x. ("sha", refl);
  opens = λ req x. (a_pull_request "merged", refl, refl);
  merges = λ owner name url x e. (pos 7, rw e refl, a_pull_request "merged", refl, refl);
  synced = λ name x. (tt, refl);
  rendered = λ c x. ([], refl);
  observed = λ name x. ([], refl, refl);
  healthy = λ t e x q. ground (arith, q);
  registered = λ t e config x q. ground (arith, q);
  kept = λ k path x q. ground (arith, q);
}

provision_ends_ready_example :
    let r =
      run_steps
        (provision_definition healthy (deps_in "merged")).steps
        its_run
        (configured provisioning) in
    (r.0 ≡ ok tt)
    × ((row' : Cluster) × (find (cluster_has_id 5) r.1.db.clusters ≡ some row')
        × (row'.state ≡ ready))
unfolding find talos_app.Platform.Rows.affects
provision_ends_ready_example =
    provision_ends_ready 5 a_configuration a_repository healthy healthy-IsHealthy (deps_in "merged")
      ItsUrl merges_at_once its_run refl (a_cluster provisioning) (configured provisioning) refl
      refl (record { versions = refl; site = refl; cidrs = refl }) refl refl (λ n. refl)

steps_follow_table_example :
    IsEffect
      (some bootstrapping)
      5
      (configured provisioning).db.clusters
      (cluster_step healthy
        (generate_talos_configuration healthy)
        its_run
        (configured provisioning)).1.db.clusters
unfolding provision_definition
steps_follow_table_example =
    steps_follow_table healthy (deps_in "open") 5 its_run
      (record {
        name = "generate-talos-configuration";
        run = cluster_step healthy (generate_talos_configuration healthy);
      })
      (some bootstrapping) (configured provisioning) refl (inr (inr (inr (inl refl))))

steps_leave_runs_example : LeavesRuns {X = Unit {0}} (cluster_step healthy (mark_ready healthy))
unfolding provision_definition
steps_leave_runs_example =
    steps_leave_runs healthy (deps_in "open")
      (record { name = "mark-ready"; run = cluster_step healthy (mark_ready healthy) })
      (inr (inr (inr (inr (inr (inr (inr (inr (inr (inr (inr (inr (inr (inr (inl refl)))))))))))))))

abbrev capi_cluster : Cluster
capi_cluster = record (a_cluster bootstrapping) { provider_mode = cluster_api }

pr_number_from_url-decimal_example :
    pr_number_from_url
      (str_append "https://github.com/acme/gitops/pull" (str_append "/" (decimal 123)))
    ≡ ok (pos 123)
pr_number_from_url-decimal_example =
    pr_number_from_url-decimal "https://github.com/acme/gitops/pull" 123 (omega arith)

abbrev a_request : PullRequestRequest
a_request = record {
  owner = "acme";
  repo = "gitops";
  title = "Provision cluster edge";
  body = "";
  head = "platform/cluster-edge";
  base = "main";
}

pull_request_found_example :
    let r = create_pull_request a_request no_github in
    let pr = opened a_request 1 in
    (r.0 ≡ ok pr)
    × (pr_number_from_url pr.url ≡ ok pr.number)
    × ((get_pull_request "acme" "gitops" pr.number r.1).0 ≡ ok pr)
    × (str_eq pr.state "merged" ≡ true)
pull_request_found_example = pull_request_found a_request no_github (omega arith)
