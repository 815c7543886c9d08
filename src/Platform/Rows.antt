-- ===== src/Platform/Rows.antt =====
-- The SQL of the repositories over a table as a list of rows.
pub mod Lookup
pub mod Keys
pub mod Append
pub mod Newest
pub mod Affects
use talos_app.Prelude.{
  ℕ, Bool, true, false, Option, none, some, List, [], ◌∷◌, leb, ltb, if◌then◌else◌, take, drop,
}
use talos_app.Shared.{sentinel, not_found, Page}
use talos_app.Exec.{Result, ok, err}

module _ {A : Type 0} where
  -- `UPDATE … SET … WHERE …`
  unfoldable pub update_rows : (A → Bool) → (A → A) → List A → List A
  update_rows p f [] = []
  update_rows p f (x ∷ xs) = (if p x then f x else x) ∷ update_rows p f xs

  -- `RowsAffected() > 0`
  unfoldable pub affects : (A → Bool) → List A → Bool
  affects p [] = false
  affects p (x ∷ xs) = if p x then true else affects p xs

  -- `scan…`, with `pgx.ErrNoRows` turned into `shared.ErrNotFound`.
  abbrev pub or_not_found : Option A → Result A
  or_not_found none = err (sentinel not_found)
  or_not_found (some a) = ok a

  -- `SELECT … WHERE p`
  unfoldable pub select : (A → Bool) → List A → List A
  select p [] = []
  select p (x ∷ xs) = if p x then x ∷ select p xs else select p xs

  -- `DELETE … WHERE p`
  unfoldable pub delete_rows : (A → Bool) → List A → List A
  delete_rows p [] = []
  delete_rows p (x ∷ xs) = if p x then delete_rows p xs else x ∷ delete_rows p xs

  abbrev earlier : (A → ℕ) → A → Option A → A
  earlier key x none = x
  earlier key x (some y) = if leb (key x) (key y) then x else y

  -- `SELECT … WHERE p ORDER BY key ASC LIMIT 1`
  unfoldable pub first_where : (A → Bool) → (A → ℕ) → List A → Option A
  first_where p key [] = none
  first_where p key (x ∷ xs) =
      let best = first_where p key xs in if p x then some (earlier key x best) else best

  abbrev insert_by : (A → ℕ) → A → List A → List A
  insert_by key x [] = x ∷ []
  insert_by key x (y ∷ ys) =
      let later = insert_by key x ys in if leb (key x) (key y) then x ∷ y ∷ ys else y ∷ later

  -- `SELECT … WHERE p ORDER BY key ASC`
  unfoldable pub all_where : (A → Bool) → (A → ℕ) → List A → List A
  all_where p key [] = []
  all_where p key (x ∷ xs) =
      let others = all_where p key xs in if p x then insert_by key x others else others

  abbrev insert_newest : (A → ℕ) → A → List A → List A
  insert_newest key x [] = x ∷ []
  insert_newest key x (y ∷ ys) =
      let later = insert_newest key x ys in if ltb (key x) (key y) then y ∷ later else x ∷ y ∷ ys

  -- `SELECT … WHERE p ORDER BY key DESC`
  unfoldable pub newest_where : (A → Bool) → (A → ℕ) → List A → List A
  newest_where p key [] = []
  newest_where p key (x ∷ xs) =
      let others = newest_where p key xs in if p x then insert_newest key x others else others

  -- `LIMIT … OFFSET …`
  abbrev pub paged : Page → List A → List A
  paged page rows = take page.limit (drop page.offset rows)

  -- The first row of an answer.
  abbrev pub first : List A → Option A
  first [] = none
  first (x ∷ xs) = some x
