-- ===== src/Scenarios/Webhooks.antt =====
-- A delivery of GitHub for a run that awaits approval, with a toy HMAC.
use talos_app.Prelude.{◌≡◌, refl, ◌⊎◌, some, [], ◌∷◌, find, String, true}
use talos_app.Shared.{no_timestamps}
use talos_app.Domain.GitOps.{ChangeSet, ChangeSetStatus}
use talos_app.Domain.Workflow.{Status, Kind, running}
use talos_app.Platform.{Platform, World, empty_db}
use talos_app.Engine.Outcome.{status_of}
use talos_app.Http.Webhook.{Delivery, PullRequestEvent, Webhook, github_webhook, answered}
use talos_app.Http.Webhook.Merge.{IsMerge, github_webhook-authentic, github_webhook-resumes}
use talos_app.Scenarios.{healthy, healthy-IsHealthy, publish_fails, engine, a_run}

abbrev merge_event : PullRequestEvent
merge_event = record {
  action = "closed";
  html_url = "https://github.com/acme/gitops/pull/7";
  merged = true;
}

-- The HMAC of any body is the two bytes 10 and 255.
abbrev webhook : World → Webhook (Unit {0})
webhook w = record {
  world = w;
  engine = engine;
  secret = "secret";
  mac = λ key body. 10 ∷ 255 ∷ [];
  decode = λ body. some merge_event;
}

abbrev delivery : String → Delivery
delivery signature = record {
  body = some (123 ∷ 125 ∷ []);
  signature = signature;
  event = "pull_request";
}

abbrev its_change : ChangeSet
its_change = record {
  id = 70;
  cluster_id = 5;
  workflow_id = some 7;
  description = "";
  generated_files = [];
  commit_sha = "sha";
  pull_request_url = "https://github.com/acme/gitops/pull/7";
  status = ChangeSetStatus.pr_created;
  result = "";
  timestamps = no_timestamps;
}

abbrev waiting : Platform (Unit {0})
waiting = record {
  db = record empty_db {
    workflows = a_run Kind.cluster_upgrade Status.awaiting_approval ∷ [];
    change_sets = its_change ∷ [];
  };
  dispatches = [];
  outside = tt;
  calls = 0;
}

is_merge : IsMerge (webhook healthy) (delivery "sha256=0Aff") merge_event
unfolding talos_app.Http.Webhook.valid_signature
is_merge = record {
  delivered = 123 ∷ 125 ∷ [];
  configured = refl;
  read = refl;
  short = refl;
  signed = refl;
  sort = refl;
  decoded = refl;
  closed = refl;
  merged = refl;
}

github_webhook-resumes_example :
    let r = github_webhook (webhook healthy) (delivery "sha256=0Aff") waiting in
    (r.0 ≡ answered "resumed")
    × (status_of 7 r.1 ≡ some running)
    × (r.1.db.steps ≡ [])
    × (r.1.dispatches ≡ 7 ∷ [])
unfolding find talos_app.Platform.Rows.newest_where
github_webhook-resumes_example =
    github_webhook-resumes (webhook healthy) (delivery "sha256=0Aff") waiting merge_event its_change
      7 (a_run Kind.cluster_upgrade Status.awaiting_approval) healthy-IsHealthy is_merge refl refl
      refl

github_webhook-authentic_example :
    ((github_webhook (webhook publish_fails) (delivery "sha256=0a") waiting).1 ≡ waiting)
    ⊎ ((event : PullRequestEvent) × IsMerge (webhook publish_fails) (delivery "sha256=0a") event)
github_webhook-authentic_example =
    github_webhook-authentic (webhook publish_fails) (delivery "sha256=0a") waiting
