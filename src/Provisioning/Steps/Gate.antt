-- ===== src/Provisioning/Steps/Gate.antt =====
-- The human-in-the-loop gates of internal/workflows: no step goes past a pull request that is not merged.
use talos_app.Prelude.{◌≡◌, false, String, ℤ, str_eq}
use talos_app.Exec.{Exec, ok}
use talos_app.Exec.Triple.{Triple}
use talos_app.Domain.Cluster.{Cluster}
use talos_app.Platform.{Platform, Db, World}
use talos_app.Ports.{PullRequest, GitProvider}
use talos_app.Provisioning.{Deps}

-- The provider never reports a merged pull request.
pub record NeverMerged {X : Type 0} (git : GitProvider X) : Type 0 where
  pub unmerged :
      (owner repo : String) (number : ℤ) (x : X) (pr : PullRequest)
      → (git.get_pull_request owner repo number x).0 ≡ ok pr
      → str_eq pr.state "merged" ≡ false

abbrev db_of : {X : Type 0} → Platform X → Db
db_of s = s.db

module _ {X : Type 0} (w : World) (d : Deps X) (never : NeverMerged d.git) (db : Db) where
  abbrev Kept : Platform X → Type 0
  Kept s = s.db ≡ db

  -- It fails, with the tables as they were.
  abbrev Stops : {A : Type 0} → (Platform X → Type 0) → Exec (Platform X) A → Type 0
  Stops before m = Triple before (λ a s. ⊥) Kept m
