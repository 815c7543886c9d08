-- ===== src/Provisioning/PullRequest/Decimal.antt =====
-- `%d` of a number, and what reading its digits gives.
use talos_app.Prelude.{
  ℕ, zero, suc, ◌+◌, ◌*◌, ◌%◌, ◌<◌, ◌≡◌, refl, String, Option, none, some, List, [], ◌∷◌, ◌++◌,
  get_elem?, ltb, if◌then◌else◌, str_append, codes, arith, Bool-cases, inl, inr, ap, ◌∙◌,
}
use Prim.Native.Nat.{◌/◌}
use Prim.Native.Char.{code}
use text.Mathlib.TextLemmas.{nil-append, cons-append}
use talos_app.Provisioning.PullRequest.{is_digit, digits_from}

abbrev digit_texts : List String
digit_texts = "0" ∷ "1" ∷ "2" ∷ "3" ∷ "4" ∷ "5" ∷ "6" ∷ "7" ∷ "8" ∷ "9" ∷ []

abbrev text_of : Option String → String
text_of none = ""
text_of (some t) = t

unfoldable pub digit : ℕ → String
digit d = text_of (get_elem? digit_texts d)

unfoldable pub print_with : ℕ → ℕ → String
unfolding digit
print_with zero n = ""
print_with (suc fuel) n =
    let rest = print_with fuel (n / 10) in
    if ltb n 10 then digit n else str_append rest (digit (n % 10))

-- A number has fewer digits than its successor counts.
unfoldable pub decimal : ℕ → String
unfolding print_with
decimal n = print_with (suc n) n

codes-digit : (d : ℕ) → d < 10 → codes (digit d) ≡ (48 + d) ∷ []
unfolding digit
codes-digit zero h = refl
codes-digit (suc zero) h = refl
codes-digit (suc (suc zero)) h = refl
codes-digit (suc (suc (suc zero))) h = refl
codes-digit (suc (suc (suc (suc zero)))) h = refl
codes-digit (suc (suc (suc (suc (suc zero))))) h = refl
codes-digit (suc (suc (suc (suc (suc (suc zero)))))) h = refl
codes-digit (suc (suc (suc (suc (suc (suc (suc zero))))))) h = refl
codes-digit (suc (suc (suc (suc (suc (suc (suc (suc zero)))))))) h = refl
codes-digit (suc (suc (suc (suc (suc (suc (suc (suc (suc zero))))))))) h = refl
codes-digit (suc (suc (suc (suc (suc (suc (suc (suc (suc (suc d)))))))))) h = absurd (omega arith)

pub codes-append : (a b : String) → codes (str_append a b) ≡ codes a ++ codes b
codes-append String.[] b = ap codes (nil-append b)
codes-append (String.◌∷◌ c a) b =
    ap codes (cons-append c a b) ∙ ap (λ t. code c ∷ t) (codes-append a b)

pub digits_from-append :
    (xs : List ℕ) (n m : ℕ) (ys : List ℕ)
    → digits_from n xs ≡ some m
    → digits_from n (xs ++ ys) ≡ digits_from m ys
unfolding digits_from
digits_from-append [] n m ys h = ground arith
digits_from-append (x ∷ xs) n m ys h = elim (Bool-cases (is_digit x)) [
  | inl b ↦ rw b (digits_from-append xs _ m ys (rw b at h))
  | inr b ↦ (let c = rw b at h in ground (arith, c))
]

digits_from-digit : (v d : ℕ) → d < 10 → digits_from v ((48 + d) ∷ []) ≡ some (v * 10 + d)
unfolding digits_from
digits_from-digit v d h = ground arith

digits_from-print_with :
    (fuel n : ℕ) → n < fuel → digits_from 0 (codes (print_with fuel n)) ≡ some n
unfolding print_with
digits_from-print_with zero n h = absurd (omega arith)
digits_from-print_with (suc fuel) n h = elim (Bool-cases (ltb n 10)) [
  | inl b ↦ rw b (
      ap (digits_from 0) (codes-digit n (ground arith))
      ∙ digits_from-digit 0 n (ground arith)
      ∙ ap some (omega arith))
  | inr b ↦ rw b (
      ap (digits_from 0) (codes-append (print_with fuel (n / 10)) (digit (n % 10)))
      ∙ digits_from-append (codes (print_with fuel (n / 10))) 0 (n / 10) _
          (digits_from-print_with fuel (n / 10) (ground arith))
      ∙ ap (digits_from (n / 10)) (codes-digit (n % 10) (omega arith))
      ∙ digits_from-digit (n / 10) (n % 10) (omega arith)
      ∙ ap some (omega arith))
]

-- The digits that `%d` prints are those of the number.
pub digits_from-decimal : (n : ℕ) → digits_from 0 (codes (decimal n)) ≡ some n
unfolding decimal
digits_from-decimal n = digits_from-print_with (suc n) n (omega arith)

print_with-last :
    (fuel n : ℕ) → (xs : List ℕ) × (d : ℕ) × (codes (print_with (suc fuel) n) ≡ xs ++ d ∷ [])
unfolding print_with
print_with-last fuel n = elim (Bool-cases (ltb n 10)) [
  | inl b ↦ rw b ([], 48 + n, codes-digit n (ground arith))
  | inr b ↦ rw b (
    codes (print_with fuel (n / 10)),
    48 + n % 10,
    codes-append (print_with fuel (n / 10)) (digit (n % 10))
        ∙ ap (λ t. codes (print_with fuel (n / 10)) ++ t) (codes-digit (n % 10) (omega arith)),
  )
]

-- It prints at least one digit.
pub decimal-last : (n : ℕ) → (xs : List ℕ) × (d : ℕ) × (codes (decimal n) ≡ xs ++ d ∷ [])
unfolding decimal
decimal-last n = print_with-last n n
