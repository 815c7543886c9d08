-- ===== src/Prelude/Texts.antt =====
-- Texts as the code points that Go's `strings` and `strconv` walk over, and Go's `int`.
use Prim.Native.Nat.{ℕ}
use Prim.Native.Char.{code}
use Prim.Native.String.{String}
use mathlib.Core.Bool.{Bool, false}
use mathlib.Core.List.{List, [], ◌∷◌}
use talos_app.Prelude.Tests.{◌==◌, if◌then◌else◌}

-- A signed number; `negsuc n` is -(n + 1).
pub data ℤ : Type 0 where
  pos : ℕ → ℤ
  negsuc : ℕ → ℤ

abbrev pub codes : String → List ℕ
codes String.[] = []
codes (String.◌∷◌ c s) = code c ∷ codes s

abbrev pub ends_with_slash : String → Bool
ends_with_slash String.[] = false
ends_with_slash (String.◌∷◌ c String.[]) = code c == 47
ends_with_slash (String.◌∷◌ c (String.◌∷◌ d s)) = ends_with_slash (String.◌∷◌ d s)

abbrev all_but_last : String → String
all_but_last String.[] = String.[]
all_but_last (String.◌∷◌ c String.[]) = String.[]
all_but_last (String.◌∷◌ c (String.◌∷◌ d s)) = String.◌∷◌ c (all_but_last (String.◌∷◌ d s))

-- `strings.TrimSuffix(s, "/")`
abbrev pub trim_slash : String → String
trim_slash s = if ends_with_slash s then all_but_last s else s
