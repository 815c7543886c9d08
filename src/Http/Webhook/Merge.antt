-- ===== src/Http/Webhook/Merge.antt =====
-- Which deliveries of internal/interfaces/http/webhook_handlers.go change anything, and what they do.
use talos_app.Prelude.{
  ◌+◌, ◌≡◌, refl, ◌⊎◌, inl, inr, Bool, true, false, Option, none, some, List, [], ◌∷◌, ◌++◌, ltb,
  str_eq, if◌then◌else◌, take, length, find, Bool-cases, ℕ, arith,
}
use talos_app.Shared.{Uuid, Error, sentinel, invalid_input, wrap}
use talos_app.Exec.{Result, ok, err}
use talos_app.Domain.GitOps.{ChangeSet}
use talos_app.Domain.Workflow.{Workflow, running, is_awaiting}
use talos_app.Platform.{Platform, IsHealthy, call, tick}
use talos_app.Platform.Rows.{newest_where, first}
use talos_app.GitOpsRepo.{has_url, change_age, get_change_set_by_url}
use talos_app.WorkflowRepo.{has_id}
use talos_app.Engine.{resume}
use talos_app.Engine.Endings.{resume-branches}
use talos_app.Engine.Outcome.{status_of}
use talos_app.Http.Webhook.{
  Delivery, PullRequestEvent, Webhook, answered, error_written, max_body, valid_signature,
  after_resume, resume_workflow, on_change_set, on_event, on_body, github_webhook,
}

-- A delivery that the webhook's secret signs, of a pull request that was closed by a merge.
pub record IsMerge {X : Type 0} (h : Webhook X) (d : Delivery) (event : PullRequestEvent)
    : Type 0 where
  pub delivered : List ℕ
  pub configured : str_eq h.secret "" ≡ false
  pub read : d.body ≡ some delivered
  pub short : ltb max_body (length (take (max_body + 1) delivered)) ≡ false
  pub signed : valid_signature h.mac h.secret d.signature (take (max_body + 1) delivered) ≡ true
  pub sort : str_eq d.event "pull_request" ≡ true
  pub decoded : h.decode (take (max_body + 1) delivered) ≡ some event
  pub closed : str_eq event.action "closed" ≡ true
  pub merged : event.merged ≡ true

module _ {X : Type 0} where
  answers :
      (b : Bool) (x : Error) (p : Result (Unit {0}) × Platform X)
      → p.0 ≡ (if b then ok tt else err x)
      → ((after_resume p).0 ≡ (if b then answered "resumed" else error_written x))
        × ((after_resume p).1 ≡ p.1)
  answers true x (ok a, s) e = (refl, refl)
  answers true x (err y, s) e = ground (arith, e)
  answers false x (ok a, s) e = ground (arith, e)
  answers false x (err y, s) e = (ground (arith, e), refl)

module _ {X : Type 0} (h : Webhook X) (d : Delivery) (s : Platform X) where
  -- Whatever calls fail: a delivery that is not signed with the secret, or is of any other kind than a
  -- pull request closed by a merge, leaves the platform exactly as it was.
  pub github_webhook-authentic :
      ((github_webhook h d s).1 ≡ s) ⊎ ((event : PullRequestEvent) × IsMerge h d event)
  unfolding github_webhook on_body on_event
  github_webhook-authentic = elim (Bool-cases (str_eq h.secret "")) [
    | inl c ↦ inl (rw c refl)
    | inr c ↦ rw c (read_cases d.body c refl)
  ]
    where
      event_cases :
          (b : List ℕ) (o : Option PullRequestEvent)
          → d.body ≡ some b
          → ltb max_body (length (take (max_body + 1) b)) ≡ false
          → valid_signature h.mac h.secret d.signature (take (max_body + 1) b) ≡ true
          → str_eq d.event "pull_request" ≡ true
          → str_eq h.secret "" ≡ false
          → h.decode (take (max_body + 1) b) ≡ o
          → ((on_event h o s).1 ≡ s) ⊎ ((event : PullRequestEvent) × IsMerge h d event)
      event_cases b none e short signed sort c o = inl refl
      event_cases b (some event) e short signed sort c o =
          elim (Bool-cases (str_eq event.action "closed")) [
            | inr q ↦ inl (rw q refl)
            | inl q ↦ elim (Bool-cases event.merged) [
              | inr m ↦ inl (rw (q, m) refl)
              | inl m ↦ inr (
                event,
                record {
                  delivered = b;
                  configured = c;
                  read = e;
                  short = short;
                  signed = signed;
                  sort = sort;
                  decoded = o;
                  closed = q;
                  merged = m;
                },
              )
            ]
          ]

      read_cases :
          (b : Option (List ℕ))
          → str_eq h.secret "" ≡ false
          → d.body ≡ b
          → ((on_body h d b s).1 ≡ s) ⊎ ((event : PullRequestEvent) × IsMerge h d event)
      read_cases none c e = inl refl
      read_cases (some b) c e =
          let body = take (max_body + 1) b in
          elim (Bool-cases (ltb max_body (length body))) [
            | inl long ↦ inl (rw long refl)
            | inr short ↦ elim (Bool-cases (valid_signature h.mac h.secret d.signature body)) [
              | inr forged ↦ inl (rw (short, forged) refl)
              | inl signed ↦ elim (Bool-cases (str_eq d.event "pull_request")) [
                | inr other ↦ inl (rw (short, signed, other) refl)
                | inl sort ↦
                    rw (short, signed, sort)
                      (event_cases b (h.decode body) e short signed sort c refl)
              ]
            ]
          ]

  -- Where every call goes through, the delivery of a merge whose URL the newest change set of a run has
  -- resumes that run: one that awaits approval is RUNNING again, one message for it follows and the
  -- answer says so; of any other the status stays, no message follows, and the answer is a 400.
  pub github_webhook-resumes :
      (event : PullRequestEvent) (cs : ChangeSet) (id : Uuid) (wf : Workflow)
      → IsHealthy h.world
      → IsMerge h d event
      → first (newest_where (has_url event.html_url) change_age s.db.change_sets) ≡ some cs
      → cs.workflow_id ≡ some id
      → find (has_id id) s.db.workflows ≡ some wf
      → let r = github_webhook h d s in
        let waits = is_awaiting wf.status in
        (r.0 ≡ (
          if waits
          then answered "resumed"
          else error_written
              (wrap "workflow %s is %s, not awaiting approval" (sentinel invalid_input))))
        × (status_of id r.1 ≡ some (if waits then running else wf.status))
        × (r.1.db.steps ≡ s.db.steps)
        × (r.1.dispatches ≡ s.dispatches ++ (if waits then id ∷ [] else []))
  unfolding github_webhook on_body on_event on_change_set resume_workflow get_change_set_by_url call
  github_webhook-resumes event cs id wf healthy m newest owned found =
      rw
        (
          m.configured,
          m.read,
          m.short,
          m.signed,
          m.sort,
          m.decoded,
          m.closed,
          m.merged,
          healthy s.calls,
          newest,
          owned,
        )
        (let (a, b, c, k) = resume-branches h.world h.engine id wf (tick s) healthy found in
          let (f, g) = answers (is_awaiting wf.status) _ (resume h.world h.engine id (tick s)) a in
          (f, rw g b, rw g c, rw g k))
