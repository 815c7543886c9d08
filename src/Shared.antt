-- ===== src/Shared.antt =====
-- internal/domain/shared: identifiers, pages, the sentinel errors and Go's error wrapping.
mod Errors
unfoldable pub use Errors.{is}
pub use Errors.{
  Sentinel, not_found, already_exists, conflict, invalid_input, unauthorized, forbidden,
  not_implemented, capability_unmet, precondition_fail, awaiting_approval, Error, sentinel, text,
  driver, wrap, Text, lit, num, printed, join, no_text,
}
use talos_app.Prelude.{
  ℕ, String, Bool, true, Option, none, some, List, ◌==◌, if◌then◌else◌, str_eq, ℤ,
}

-- `shared.ID` is a `uuid.UUID`, sixteen bytes, read as a number; the zero UUID is 0.
abbrev pub Uuid : Type 0
Uuid = ℕ

abbrev pub zero_id : Uuid
zero_id = 0

-- A `time.Time` in UTC, as a count of its ticks; the zero time is 0.
abbrev pub Time : Type 0
Time = ℕ

pub record Page : Type 0 where
  pub limit : ℕ
  pub offset : ℕ

abbrev pub default_page : Page
default_page = record { limit = 50; offset = 0 }

-- The columns that every persisted entity embeds.
pub record Timestamps : Type 0 where
  pub created_at : Time
  pub updated_at : Time

abbrev pub no_timestamps : Timestamps
no_timestamps = record { created_at = 0; updated_at = 0 }

unfoldable pub touch : Time → Timestamps → Timestamps
touch now t = record {
  created_at = if t.created_at == 0 then now else t.created_at;
  updated_at = now;
}

-- A value of a `map[string]any`.
pub data Value : Type 0 where
  str : String → Value
  int : ℕ → Value
  signed : ℤ → Value
  flag : Bool → Value
  ref : Uuid → Value

-- `map[string]any`, for a workflow's input and a step's output.
abbrev pub JsonMap : Type 0
JsonMap = List (String × Value)

-- A condition of a listing's filter: absent, or equal to a column.
abbrev pub matches_id : Option Uuid → Uuid → Bool
matches_id none id = true
matches_id (some wanted) id = id == wanted

-- The same for a text, where the empty one is absent.
abbrev pub matches_text : String → String → Bool
matches_text wanted given = if str_eq wanted "" then true else str_eq given wanted
