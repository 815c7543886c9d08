-- ===== src/ClusterService/Rollback/Texts.antt =====
-- The texts that `Rollback` of internal/application/clusterservice/service.go makes with Go's `fmt`.
use talos_app.Prelude.{
  ℕ, zero, suc, ◌%◌, ltb, ◌||◌, get_elem?, String, Option, none, some, List, [], ◌∷◌, ◌==◌,
  str_append, if◌then◌else◌,
}
use Prim.Native.Nat.{◌/◌}
use Prim.Native.Char.{Char, code}

-- A slice of the first bytes of a text in ASCII.
unfoldable pub prefix_of : ℕ → String → String
prefix_of zero s = ""
prefix_of (suc n) String.[] = ""
prefix_of (suc n) (String.◌∷◌ c s) = String.◌∷◌ c (prefix_of n s)

abbrev hex_texts : List String
hex_texts =
    "0" ∷ "1" ∷ "2" ∷ "3" ∷ "4" ∷ "5" ∷ "6" ∷ "7" ∷ "8" ∷ "9" ∷ "a" ∷ "b" ∷ "c" ∷ "d" ∷ "e" ∷ "f"
    ∷ []

abbrev text_or_empty : Option String → String
text_or_empty none = ""
text_or_empty (some t) = t

-- `\x` and two digits.
abbrev hex_escape : ℕ → String
hex_escape c = str_append "\\x" (
    str_append (text_or_empty (get_elem? hex_texts (c / 16)))
      (text_or_empty (get_elem? hex_texts (c % 16))))

unfoldable pub escaped : ℕ → Option String
escaped c =
    if c == 34
    then some "\\\""
    else if c == 92
    then some "\\\\"
    else if c == 7
    then some "\\a"
    else if c == 8
    then some "\\b"
    else if c == 9
    then some "\\t"
    else if c == 10
    then some "\\n"
    else if c == 11
    then some "\\v"
    else if c == 12
    then some "\\f"
    else if c == 13
    then some "\\r"
    else if ltb c 32 || c == 127
    then some (hex_escape c)
    else none

abbrev put_quoted : Char → Option String → String → String
put_quoted c none rest = String.◌∷◌ c rest
put_quoted c (some t) rest = str_append t rest

unfoldable pub quoted_body : String → String
unfolding escaped
quoted_body String.[] = "\""
quoted_body (String.◌∷◌ c s) = put_quoted c (escaped (code c)) (quoted_body s)

-- `%q` of a text of printable characters and ASCII controls.
unfoldable pub quoted : String → String
unfolding quoted_body
quoted s = str_append "\"" (quoted_body s)
