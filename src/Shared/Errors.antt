-- ===== src/Shared/Errors.antt =====
-- internal/domain/shared/errors.go, with `fmt.Errorf("…: %w", err)` and `errors.Is`.
use talos_app.Prelude.{String, Bool, false, ℕ, ◌==◌}

-- The sentinels of errors.go, and workflows.ErrAwaitingApproval.
pub data Sentinel : Type 0 where
  not_found already_exists conflict invalid_input unauthorized forbidden : Sentinel
  not_implemented capability_unmet precondition_fail awaiting_approval : Sentinel

-- An error value: a sentinel, a text of `fmt.Errorf` or `errors.New`, one of a driver, or a wrap
-- of another. The arguments that the formats print are left out of a wrap's text.
pub data Error : Type 0 where
  sentinel : Sentinel → Error
  text : String → Error
  driver : String → Error
  wrap : String → Error → Error

abbrev tag : Sentinel → ℕ
tag not_found = 0
tag already_exists = 1
tag conflict = 2
tag invalid_input = 3
tag unauthorized = 4
tag forbidden = 5
tag not_implemented = 6
tag capability_unmet = 7
tag precondition_fail = 8
tag awaiting_approval = 9

-- `errors.Is(err, target)`: it unwraps until the sentinel is met.
unfoldable pub is : Error → Sentinel → Bool
is (sentinel s) t = tag s == tag t
is (text _) t = false
is (driver _) t = false
is (wrap _ e) t = is e t

-- A text that `fmt.Sprintf` or `err.Error()` makes, kept as its format and its arguments.
pub data Text : Type 0 where
  lit : String → Text
  num : ℕ → Text
  printed : Error → Text
  join : Text → Text → Text

abbrev pub no_text : Text
no_text = lit ""
