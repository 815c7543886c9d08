-- ===== src/AuditRepo/Firing.antt =====
-- Which alerts fire after an upsert of internal/infrastructure/postgres/audit_repo.go.
use talos_app.Prelude.{
  ◌≡◌, refl, sym, ◌∙◌, String, Bool, true, false, List, ◌&&◌, ◌||◌, ◌==◌, str_eq, Bool-cases, inl,
  inr,
}
use talos_app.Shared.{Uuid}
use talos_app.Domain.Audit.{Alert, is_firing}
use talos_app.Platform.Rows.{affects}
use talos_app.Platform.Rows.Affects.{
  affects-overwrite, affects-elsewhere, affects-none, affects-append,
}
use talos_app.AuditRepo.{same_alert, set_alert, put_alert}

-- An alert of a cluster with this title, and one that fires.
abbrev pub titled : Uuid → String → Alert → Bool
titled id title a = str_eq a.target_kind "cluster" && a.target_id == id && str_eq a.title title

abbrev pub fires : Uuid → String → Alert → Bool
fires id title a = titled id title a && is_firing a.status

and_true : (b c : Bool) → b ≡ true → (b && c) ≡ c
and_true b c h = rw h refl

and_false : (b c : Bool) → b ≡ false → (b && c) ≡ false
and_false b c h = rw h refl

or_false : (b c d : Bool) → b ≡ false → c ≡ d → (b || c) ≡ d
or_false b c d h k = rw h k

or_last : (b c : Bool) → c ≡ false → (b || c) ≡ b
or_last true c h = refl
or_last false c h = h

module _ (a : Alert) (id : Uuid) (title : String)
    (same : (row : Alert) → same_alert a row ≡ titled id title row) where
  -- An upsert decides whether an alert of its cluster and title fires.
  pub put_alert-fires :
      (rows : List Alert)
      → titled id title a ≡ true
      → affects (fires id title) (put_alert a rows) ≡ is_firing a.status
  unfolding put_alert set_alert
  put_alert-fires rows own = elim (Bool-cases (affects (same_alert a) rows)) [
    | inl b ↦ rw b (
        affects-overwrite (same_alert a) (fires id title) (set_alert a) (is_firing a.status) rows
          (λ x q. and_true (titled id title x) _ (sym (same x) ∙ q))
          (λ x q. and_false (titled id title x) _ (sym (same x) ∙ q))
        ∙ and_true (affects (same_alert a) rows) _ b)
    | inr b ↦ rw b (
        affects-append (fires id title) rows a
        ∙ or_false (affects (fires id title) rows) _ _
            (affects-none (same_alert a) (fires id title) rows
              (λ x q. and_false (titled id title x) _ (sym (same x) ∙ q)) b)
            (and_true (titled id title a) _ own))
  ]

  -- And it leaves the alerts of any other title as they are.
  pub put_alert-elsewhere :
      (other : String) (rows : List Alert)
      → ((row : Alert) → titled id title row ≡ true → titled id other row ≡ false)
      → titled id title a ≡ true
      → affects (fires id other) (put_alert a rows) ≡ affects (fires id other) rows
  unfolding put_alert set_alert
  put_alert-elsewhere other rows apart own = elim (Bool-cases (affects (same_alert a) rows)) [
    | inl b ↦ rw b (
        affects-elsewhere (same_alert a) (fires id other) (set_alert a) rows (λ x q.
          let gone = apart x (sym (same x) ∙ q) in
          and_false (titled id other x) (is_firing a.status) gone
          ∙ sym (and_false (titled id other x) (is_firing x.status) gone)))
    | inr b ↦ rw b (
        affects-append (fires id other) rows a
        ∙ or_last (affects (fires id other) rows) _
            (and_false (titled id other a) (is_firing a.status) (apart a own)))
  ]
