-- ===== src/Provisioning/PullRequest.antt =====
-- `prNumberFromURL` of internal/workflows/cluster_provision.go.
pub mod Decimal
pub mod RoundTrip
use talos_app.Prelude.{
  ℕ, zero, suc, ◌+◌, ◌-◌, ◌*◌, ◌^◌, String, Bool, true, false, Option, none, some, List, [], ◌∷◌,
  ◌||◌, ◌==◌, ltb, leb, if◌then◌else◌, codes, ℤ, pos, negsuc,
}
use talos_app.Shared.{text}
use talos_app.Exec.{Result, ok, err, wrap_result}

-- The text after the last `/`, by `strings.LastIndex`.
unfoldable pub after_last_slash : List ℕ → Option (List ℕ)
after_last_slash [] = none
after_last_slash (c ∷ rest) = elim (after_last_slash rest) [
  | none ↦ if c == 47 then some rest else none
  | some found ↦ some found
]

abbrev pub is_digit : ℕ → Bool
is_digit c = if ltb c 48 || ltb 57 c then false else true

-- The number that the digits write after `n`.
unfoldable pub digits_from : ℕ → List ℕ → Option ℕ
digits_from n [] = some n
digits_from n (c ∷ rest) =
    let found = digits_from (n * 10 + (c - 48)) rest in if is_digit c then found else none

abbrev unsigned : List ℕ → Option ℕ
unsigned [] = none
unsigned (c ∷ rest) = digits_from 0 (c ∷ rest)

abbrev minus : ℕ → ℤ
minus zero = pos 0
minus (suc n) = negsuc n

abbrev positive : Option ℕ → Result ℤ
positive none = err (text "strconv.Atoi")
positive (some n) = if ltb n (2 ^ 63) then ok (pos n) else err (text "strconv.Atoi")

abbrev negative : Option ℕ → Result ℤ
negative none = err (text "strconv.Atoi")
negative (some n) = if leb n (2 ^ 63) then ok (minus n) else err (text "strconv.Atoi")

-- `strconv.Atoi` of a text that is not empty, into 64 bits; its two errors are one here.
unfoldable pub atoi : ℕ → List ℕ → Result ℤ
atoi c rest =
    if c == 45
    then negative (unsigned rest)
    else if c == 43
    then positive (unsigned rest)
    else positive (digits_from 0 (c ∷ rest))

unfoldable pub number_after : Option (List ℕ) → Result ℤ
unfolding atoi
number_after none = err (text "cannot parse pull request number from URL %q")
number_after (some []) = err (text "cannot parse pull request number from URL %q")
number_after (some (c ∷ rest)) =
    wrap_result "cannot parse pull request number from URL %q" (atoi c rest)

unfoldable pub pr_number_from_url : String → Result ℤ
unfolding number_after after_last_slash
pr_number_from_url url = number_after (after_last_slash (codes url))
