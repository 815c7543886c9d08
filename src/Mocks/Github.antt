-- ===== src/Mocks/Github.antt =====
-- internal/integrations/github/mock.go: branches, commits and pull requests in maps.
use talos_app.Prelude.{
  ℕ, ◌+◌, String, Option, none, some, List, [], ◌∷◌, str_eq, str_append, if◌then◌else◌, ℤ, pos,
  negsuc,
}
use talos_app.Shared.{sentinel, not_found, wrap}
use talos_app.Exec.{Exec, Result, ok, err}
use talos_app.Ports.{CommitRequest, PullRequestRequest, PullRequest, GitProvider}
use talos_app.Provisioning.PullRequest.Decimal.{decimal}

-- `MockProvider`; a new entry of a map shadows an old one.
pub record Github : Type 0 where
  pub branches : List (String × String)
  pub parents : List (String × String)
  pub prs : List (String × PullRequest)
  pub next_pr : ℕ
  pub sha_seq : ℕ

abbrev pub no_github : Github
no_github = record { branches = []; parents = []; prs = []; next_pr = 1; sha_seq = 0 }

unfoldable pub lookup : {A : Type 0} → String → List (String × A) → Option A
lookup key [] = none
lookup key ((k, a) ∷ rest) = if str_eq k key then some a else lookup key rest

abbrev pub branch_key : String → String → String → String
branch_key owner repo branch =
    str_append owner (str_append "/" (str_append repo (str_append "/" branch)))

-- `%d`
abbrev print_int : ℤ → String
print_int (pos n) = decimal n
print_int (negsuc n) = str_append "-" (decimal (n + 1))

-- `owner/repo#n`
abbrev pub pr_key : String → String → ℤ → String
pr_key owner repo number =
    str_append owner (str_append "/" (str_append repo (str_append "#" (print_int number))))

-- The URL in front of the number.
abbrev pub pulls : String → String → String
pulls owner repo =
    str_append "https://github.com/" (str_append owner (str_append "/" (str_append repo "/pull")))

unfoldable pub create_branch : String → String → String → String → Exec Github (Unit {0})
create_branch owner repo branch from_ref g =
    (ok tt, record g { branches = (branch_key owner repo branch, from_ref) ∷ g.branches })

unfoldable pub get_file : String → String → String → String → Exec Github String
get_file owner repo reference path g =
    (err (wrap "%w: mock provider has no file storage for %s/%s@%s:%s" (sentinel not_found)), g)

abbrev or_empty : Option String → String
or_empty none = ""
or_empty (some t) = t

abbrev mock_sha : ℕ → String
mock_sha n = str_append "mock-sha-" (decimal n)

unfoldable pub commit : CommitRequest → Exec Github String
commit req g =
    let key = branch_key req.owner req.repo req.branch in
    let parent = or_empty (lookup key g.branches) in
    let sha = mock_sha (g.sha_seq + 1) in
    (
      ok sha,
      record g {
        sha_seq = g.sha_seq + 1;
        parents = if str_eq parent "" then g.parents else (sha, parent) ∷ g.parents;
        branches = (key, sha) ∷ g.branches;
      },
    )

unfoldable pub get_commit_parent : String → String → String → Exec Github String
get_commit_parent owner repo sha g = (
  elim (lookup sha g.parents) [
    | none ↦ err (wrap "%w: mock commit %s has no recorded parent" (sentinel not_found))
    | some parent ↦ ok parent
  ],
  g,
)

abbrev pub opened : PullRequestRequest → ℕ → PullRequest
opened req n = record {
  number = pos n;
  url = str_append (pulls req.owner req.repo) (str_append "/" (decimal n));
  state = "merged";
  head = req.head;
  base = req.base;
}

unfoldable pub create_pull_request : PullRequestRequest → Exec Github PullRequest
create_pull_request req g =
    let n = g.next_pr in
    (
      ok (opened req n),
      record g { next_pr = n + 1; prs = (pr_key req.owner req.repo (pos n), opened req n) ∷ g.prs },
    )

abbrev found_pr : Option PullRequest → Result PullRequest
found_pr none = err (sentinel not_found)
found_pr (some pr) = ok pr

unfoldable pub get_pull_request : String → String → ℤ → Exec Github PullRequest
get_pull_request owner repo number g = (found_pr (lookup (pr_key owner repo number) g.prs), g)

abbrev merge_found : String → Option PullRequest → Exec Github (Unit {0})
merge_found key none g = (err (sentinel not_found), g)
merge_found key (some pr) g =
    (ok tt, record g { prs = (key, record pr { state = "merged" }) ∷ g.prs })

unfoldable pub merge_pull_request : String → String → ℤ → Exec Github (Unit {0})
merge_pull_request owner repo number g =
    merge_found (pr_key owner repo number) (lookup (pr_key owner repo number) g.prs) g

unfoldable pub provider : GitProvider Github
provider = record {
  create_branch = create_branch;
  get_file = get_file;
  commit = commit;
  create_pull_request = create_pull_request;
  get_pull_request = get_pull_request;
  merge_pull_request = merge_pull_request;
  get_commit_parent = get_commit_parent;
}
