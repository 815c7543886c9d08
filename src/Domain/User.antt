-- ===== src/Domain/User.antt =====
-- internal/domain/user/user.go: users, roles and role bindings.
use talos_app.Prelude.{ℕ, String, Bool, ◌==◌, leb}
use talos_app.Shared.{Uuid, Timestamps}

pub data Role : Type 0 where
  viewer operator cluster_admin project_admin org_admin platform_admin : Role

unfoldable pub weight : Role → ℕ
weight viewer = 1
weight operator = 2
weight cluster_admin = 3
weight project_admin = 4
weight org_admin = 5
weight platform_admin = 6

-- `Satisfies`
unfoldable pub satisfies : Role → Role → Bool
unfolding weight
satisfies r required = leb (weight required) (weight r)

pub data ResourceKind : Type 0 where
  platform organization project environment cluster : ResourceKind

abbrev tag : ResourceKind → ℕ
tag platform = 0
tag organization = 1
tag project = 2
tag environment = 3
tag cluster = 4

abbrev pub kind_eq : ResourceKind → ResourceKind → Bool
kind_eq a b = tag a == tag b

pub record User : Type 0 where
  pub id : Uuid
  pub email : String
  pub name : String
  pub subject : String
  pub disabled : Bool
  pub timestamps : Timestamps

pub record RoleBinding : Type 0 where
  pub id : Uuid
  pub user_id : Uuid
  pub role : Role
  pub resource_kind : ResourceKind
  pub resource_id : Uuid
  pub timestamps : Timestamps
