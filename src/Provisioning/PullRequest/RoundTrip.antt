-- ===== src/Provisioning/PullRequest/RoundTrip.antt =====
-- What `prNumberFromURL` of internal/workflows/cluster_provision.go reads from a URL that ends in a number,
-- as GitHub's does and internal/integrations/github/mock.go's.
use talos_app.Prelude.{
  ℕ, ◌+◌, ◌-◌, ◌*◌, ◌^◌, ◌<◌, ◌≡◌, refl, ap, ◌∙◌, sym, ltb, String, true, false, none, some, List,
  [], ◌∷◌, ◌++◌, ◌==◌, str_append, codes, pos, arith, Bool-cases, inl, inr,
}
use talos_app.Exec.{ok}
use talos_app.Provisioning.PullRequest.{
  after_last_slash, is_digit, digits_from, atoi, number_after, pr_number_from_url,
}
use talos_app.Provisioning.PullRequest.Decimal.{
  decimal, codes-append, digits_from-decimal, decimal-last,
}

-- Digits hold no slash.
after_last_slash-digits :
    (xs : List ℕ) (k n : ℕ) → digits_from k xs ≡ some n → after_last_slash xs ≡ none
unfolding after_last_slash digits_from
after_last_slash-digits [] k n h = refl
after_last_slash-digits (c ∷ xs) k n h = elim (Bool-cases (is_digit c)) [
  | inl b ↦ rw (after_last_slash-digits xs (k * 10 + (c - 48)) n (rw b at h)) (ground arith)
  | inr b ↦ (let q = rw b at h in ground (arith, q))
]

after_last_slash-append :
    (xs ys : List ℕ) → after_last_slash ys ≡ none → after_last_slash (xs ++ 47 ∷ ys) ≡ some ys
unfolding after_last_slash
after_last_slash-append [] ys h = rw h refl
after_last_slash-append (c ∷ xs) ys h = rw (after_last_slash-append xs ys h) refl

atoi-digits :
    (c : ℕ) (rest : List ℕ) (n : ℕ)
    → digits_from 0 (c ∷ rest) ≡ some n
    → n < 2 ^ 63
    → atoi c rest ≡ ok (pos n)
unfolding atoi digits_from
atoi-digits c rest n h b = elim (Bool-cases (is_digit c)) [
  | inl p ↦
      let minus : (c == 45) ≡ false = ground arith in
      let plus : (c == 43) ≡ false = ground arith in
      rw (minus, plus, p) (rw (rw p at h) (rw b_true refl))
  | inr p ↦ (let q = rw p at h in ground (arith, q))
]
  where
    b_true : ltb n (2 ^ 63) ≡ true
    b_true = ground arith

number_after-digits :
    (xs : List ℕ) (d n : ℕ)
    → digits_from 0 (xs ++ d ∷ []) ≡ some n
    → n < 2 ^ 63
    → number_after (some (xs ++ d ∷ [])) ≡ ok (pos n)
unfolding number_after
number_after-digits [] d n e h = rw (atoi-digits d [] n e h) refl
number_after-digits (c ∷ xs) d n e h = rw (atoi-digits c (xs ++ d ∷ []) n e h) refl

-- The number of a pull request is read back from any URL that ends in a slash and the number.
pub pr_number_from_url-decimal :
    (prefix : String) (n : ℕ)
    → n < 2 ^ 63
    → pr_number_from_url (str_append prefix (str_append "/" (decimal n))) ≡ ok (pos n)
unfolding pr_number_from_url
pr_number_from_url-decimal prefix n h =
    let (xs, d, e) = decimal-last n in
    let read : digits_from 0 (xs ++ d ∷ []) ≡ some n =
      ap (digits_from 0) (sym e) ∙ digits_from-decimal n in
    let text : codes (str_append prefix (str_append "/" (decimal n)))
        ≡ codes prefix ++ (47 ∷ (xs ++ (d ∷ []))) =
      codes-append prefix _
      ∙ ap (λ (t : List ℕ). codes prefix ++ t)
          (codes-append "/" (decimal n) ∙ ap (λ (t : List ℕ). 47 ∷ t) e) in
    rw text (
      rw
        (after_last_slash-append (codes prefix) (xs ++ d ∷ [])
          (after_last_slash-digits (xs ++ d ∷ []) 0 n read))
        (number_after-digits xs d n read h))
