-- ===== src/Mocks/Merged.antt =====
-- A pull request of internal/integrations/github/mock.go, opened and found again the way that
-- internal/workflows/cluster_provision.go looks for it.
use talos_app.Prelude.{◌<◌, ◌^◌, ◌≡◌, refl, str_eq, str_eq-refl, true, pos}
use talos_app.Exec.{ok}
use talos_app.Ports.{PullRequestRequest}
use talos_app.Provisioning.PullRequest.{pr_number_from_url}
use talos_app.Provisioning.PullRequest.RoundTrip.{pr_number_from_url-decimal}
use talos_app.Mocks.Github.{
  Github, lookup, pulls, pr_key, opened, create_pull_request, get_pull_request,
}

-- As long as the numbers fit into Go's `int`, the number at the end of the URL of a pull request that
-- was just opened finds that pull request again, and it is merged.
pub pull_request_found :
    (req : PullRequestRequest) (g : Github)
    → g.next_pr < 2 ^ 63
    → let r = create_pull_request req g in
      let pr = opened req g.next_pr in
      (r.0 ≡ ok pr)
      × (pr_number_from_url pr.url ≡ ok pr.number)
      × ((get_pull_request req.owner req.repo pr.number r.1).0 ≡ ok pr)
      × (str_eq pr.state "merged" ≡ true)
unfolding create_pull_request get_pull_request lookup
pull_request_found req g h = (
  refl,
  pr_number_from_url-decimal (pulls req.owner req.repo) g.next_pr h,
  rw (str_eq-refl (pr_key req.owner req.repo (pos g.next_pr))) refl,
  refl,
)
