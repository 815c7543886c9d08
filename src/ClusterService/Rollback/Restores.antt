-- ===== src/ClusterService/Rollback/Restores.antt =====
-- What the commit of a `Rollback` of internal/application/clusterservice/service.go does to the files.
use talos_app.Prelude.{
  ◌≡◌, refl, sym, ap, ◌∙◌, String, Bool, true, false, Option, none, some, List, [], ◌∷◌, map,
  str_eq, str_eq_iff, if◌then◌else◌, Bool-cases, inl, inr,
}
use talos_app.Shared.{Error, is, not_found}
use talos_app.Exec.{Result, ok, err, ◌>>=◌}
use talos_app.Domain.GitOps.{ChangeSet, GitRepository}
use talos_app.Platform.{Platform}
use talos_app.Ports.{FileChange, GitProvider, outside}
use talos_app.ClusterService.Rollback.{deleted, restored, reverted, reverted_files, prior_files}

-- The files of a commit.
abbrev pub Tree : Type 0
Tree = String → Option String

-- What a commit does to one file, and to all of them.
abbrev pub changed : FileChange → Tree → Tree
changed f t path =
    if str_eq path f.path then (if f.delete then none else some f.content) else t path

abbrev pub changed_all : List FileChange → Tree → Tree
changed_all [] t = t
changed_all (f ∷ fs) t = changed_all fs (changed f t)

abbrev pub is_among : String → List String → Bool
is_among path [] = false
is_among path (p ∷ ps) = if str_eq path p then true else is_among path ps

abbrev pub file_answer : Error → Option String → Result String
file_answer x none = err x
file_answer x (some content) = ok content

-- `GetFile` answers with the files of that commit: the content, or an error that says not found.
pub record Reads {X : Type 0} (git : GitProvider X) (repo : GitRepository) (commit : String)
    (t : Tree) : Type 0 where
  pub reads :
      (path : String) (x : X)
      → (e : Error) × (is e not_found ≡ true)
        × (git.get_file repo.owner repo.name commit path x ≡ (file_answer e (t path), x))

abbrev revert_to : String → Option String → FileChange
revert_to path none = deleted path
revert_to path (some content) = restored path content

abbrev revert_of : Tree → String → FileChange
revert_of t path = revert_to path (t path)

reverted_answer :
    (path : String) (e : Error) (o : Option String)
    → is e not_found ≡ true
    → reverted path (file_answer e o) ≡ ok (revert_to path o)
unfolding reverted
reverted_answer path e none n = rw n refl
reverted_answer path e (some content) n = refl

changed-revert_to :
    (o : Option String) (t : Tree) (p path : String)
    → changed (revert_to p o) t path ≡ (if str_eq path p then o else t path)
changed-revert_to none t p path = refl
changed-revert_to (some content) t p path = refl

changed_all-reverts :
    (before : Tree) (paths : List String) (t : Tree) (path : String)
    → changed_all (map (revert_of before) paths) t path
      ≡ (if is_among path paths then before path else t path)
changed_all-reverts before [] t path = refl
changed_all-reverts before (p ∷ ps) t path =
    changed_all-reverts before ps (changed (revert_of before p) t) path
    ∙ elim (Bool-cases (is_among path ps)) [
      | inl b ↦ rw b (sym (either (str_eq path p)))
      | inr b ↦ rw b (
          changed-revert_to (before p) t p path ∙ elim (Bool-cases (str_eq path p)) [
            | inl q ↦ rw q (ap before (sym ((str_eq_iff path p).0 q)))
            | inr q ↦ rw q refl
          ])
    ]
  where
    either : (q : Bool) → (if (if q then true else true) then before path else t path) ≡ before path
    either true = refl
    either false = refl

module _ {X : Type 0} (git : GitProvider X) (repo : GitRepository) (parent : String) (before : Tree)
    (r : Reads git repo parent before) where
  reverted_files-all :
      (paths : List String) (s : Platform X)
      → reverted_files (λ path. outside (git.get_file repo.owner repo.name parent path)) paths s
        ≡ (ok (map (revert_of before) paths), s)
  unfolding reverted_files outside ◌>>=◌
  reverted_files-all [] s = refl
  reverted_files-all (p ∷ ps) s =
      let (e, n, q) = r.reads p s.outside in
      rw (q, reverted_answer p e (before p) n, reverted_files-all ps s) refl

  -- Where the Git provider knows the parent of the commit of a change set and answers with its files: the
  -- files that a rollback commits put every file of the change set back to what it was before that commit,
  -- or take it away where there was none, whatever has become of it since, and touch no other file.
  pub prior_files-restores :
      (target : ChangeSet) (s : Platform X)
      → git.get_commit_parent repo.owner repo.name target.commit_sha s.outside
        ≡ (ok parent, s.outside)
      → (files : List FileChange) × (prior_files git target repo s ≡ (ok files, s))
        × ((now : Tree) (path : String)
            → changed_all files now path
              ≡ (if is_among path target.generated_files then before path else now path))
  unfolding prior_files outside ◌>>=◌
  prior_files-restores target s known =
      rw (known, reverted_files-all target.generated_files s)
        (_, refl, λ now path. changed_all-reverts before target.generated_files now path)
