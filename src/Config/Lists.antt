-- ===== src/Config/Lists.antt =====
-- `getenvList` of internal/infrastructure/config/config.go, with Go's `strings.Split` at commas and
-- `strings.TrimSpace`.
use talos_app.Prelude.{
  ℕ, String, Bool, Option, none, some, List, [], ◌∷◌, ◌==◌, ◌||◌, ◌&&◌, leb, str_eq, if◌then◌else◌,
}
use Prim.Native.Char.{Char, code}

-- `unicode.IsSpace`
unfoldable pub is_space : ℕ → Bool
is_space c =
    (leb 9 c && leb c 13)
    || c == 32
    || c == 133
    || c == 160
    || c == 5760
    || (leb 8192 c && leb c 8202)
    || c == 8232
    || c == 8233
    || c == 8239
    || c == 8287
    || c == 12288

unfoldable pub trim_left : String → String
unfolding is_space
trim_left String.[] = String.[]
trim_left (String.◌∷◌ c s) =
    let rest = trim_left s in if is_space (code c) then rest else String.◌∷◌ c s

unfoldable pub trim_right : String → String
unfolding is_space
trim_right String.[] = String.[]
trim_right (String.◌∷◌ c s) =
    let rest = trim_right s in
    if str_eq rest "" && is_space (code c) then String.[] else String.◌∷◌ c rest

abbrev at_comma : Char → String × List String → String × List String
at_comma c (piece, others) =
    if code c == 44 then (String.[], piece ∷ others) else (String.◌∷◌ c piece, others)

-- The first piece, and the others.
unfoldable pub split_commas : String → String × List String
split_commas String.[] = (String.[], [])
split_commas (String.◌∷◌ c s) = at_comma c (split_commas s)

unfoldable pub trimmed : List String → List String
unfolding trim_left trim_right
trimmed [] = []
trimmed (p ∷ rest) =
    let kept = trimmed rest in
    let piece = trim_right (trim_left p) in if str_eq piece "" then kept else piece ∷ kept

abbrev list_of : Option String → Option (List String)
list_of none = none
list_of (some v) =
    if str_eq v "" then none else some (trimmed ((split_commas v).0 ∷ (split_commas v).1))

-- A nil slice is `none`.
unfoldable pub getenv_list : (String → Option String) → String → Option (List String)
unfolding trimmed split_commas
getenv_list lookup key = list_of (lookup key)
