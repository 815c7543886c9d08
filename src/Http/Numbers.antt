-- ===== src/Http/Numbers.antt =====
-- What `parsePositiveInt` of internal/interfaces/http/respond.go reads.
use talos_app.Prelude.{
  ℕ, ◌+◌, ◌-◌, ◌*◌, ◌≡◌, refl, ap, ◌∙◌, Bool, true, false, List, [], ◌∷◌, ◌||◌, ltb, if◌then◌else◌,
  arith, Bool-cases, inl, inr,
}
use talos_app.Shared.{sentinel, invalid_input}
use talos_app.Exec.{ok, err}
use talos_app.Http.{word, parse_from, parse_positive_int}

abbrev pub is_digits : List ℕ → Bool
is_digits [] = true
is_digits (c ∷ rest) = let others = is_digits rest in if ltb c 48 || ltb 57 c then false else others

-- The number that the digits write after the number `n`, unbounded.
abbrev pub decimal_from : ℕ → List ℕ → ℕ
decimal_from n [] = n
decimal_from n (c ∷ rest) = decimal_from (n * 10 + (c - 48)) rest

word-step : (n d : ℕ) → word (word n * 10 + d) ≡ word (n * 10 + d)
word-step n d = omega arith

parse_from-word :
    (n : ℕ) (text : List ℕ)
    → parse_from (word n) text
      ≡ (if is_digits text then ok (word (decimal_from n text)) else err (sentinel invalid_input))
unfolding parse_from
parse_from-word n [] = refl
parse_from-word n (c ∷ rest) = elim (Bool-cases (ltb c 48 || ltb 57 c)) [
  | inl b ↦ rw b refl
  | inr b ↦ rw b (
      ap (λ k. parse_from k rest) (word-step n (c - 48)) ∙ parse_from-word (n * 10 + (c - 48)) rest)
]

-- `parsePositiveInt` refuses a text exactly if some character is no digit, and else reads the decimal
-- number, modulo 2 ^ 64: the empty text is 0, and a number from 2 ^ 63 on is not what is written.
pub parse_decimal :
    (text : List ℕ)
    → parse_positive_int text
      ≡ (if is_digits text then ok (word (decimal_from 0 text)) else err (sentinel invalid_input))
unfolding parse_positive_int
parse_decimal text = parse_from-word 0 text
