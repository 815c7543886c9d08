-- ===== src/Platform/Rows/Affects.antt =====
-- Whether some row passes a test, after an update or an insertion and in a listing.
use talos_app.Prelude.{
  ℕ, ◌≤◌, ◌≡◌, refl, ap, Bool, true, false, List, [], ◌∷◌, ◌++◌, ◌&&◌, ◌||◌, ltb, arith, Bool-cases,
  inl, inr, take, length, suc, zero,
}
use talos_app.Platform.Rows.{update_rows, affects, newest_where, insert_newest}

module _ {A : Type 0} where
  pub affects-overwrite :
      (p q : A → Bool) (f : A → A) (b : Bool) (xs : List A)
      → ((x : A) → p x ≡ true → q (f x) ≡ b)
      → ((x : A) → p x ≡ false → q x ≡ false)
      → affects q (update_rows p f xs) ≡ (affects p xs && b)
  unfolding affects update_rows
  affects-overwrite p q f b [] h k = refl
  affects-overwrite p q f b (x ∷ xs) h k =
      ground (arith, h x, k x, affects-overwrite p q f b xs h k)

  pub affects-elsewhere :
      (p q : A → Bool) (f : A → A) (xs : List A)
      → ((x : A) → p x ≡ true → q (f x) ≡ q x)
      → affects q (update_rows p f xs) ≡ affects q xs
  unfolding affects update_rows
  affects-elsewhere p q f [] h = refl
  affects-elsewhere p q f (x ∷ xs) h = ground (arith, h x, affects-elsewhere p q f xs h)

  pub affects-none :
      (p q : A → Bool) (xs : List A)
      → ((x : A) → p x ≡ false → q x ≡ false)
      → affects p xs ≡ false
      → affects q xs ≡ false
  unfolding affects
  affects-none p q [] k e = refl
  affects-none p q (x ∷ xs) k e = ground (arith, k x, affects-none p q xs k, e)

  pub affects-append :
      (q : A → Bool) (xs : List A) (a : A) → affects q (xs ++ a ∷ []) ≡ (affects q xs || q a)
  unfolding affects
  affects-append q [] a = ground arith
  affects-append q (x ∷ xs) a = ground (arith, affects-append q xs a)

  pub affects-same :
      (p q : A → Bool) (xs : List A) → ((x : A) → p x ≡ q x) → affects p xs ≡ affects q xs
  unfolding affects
  affects-same p q [] h = refl
  affects-same p q (x ∷ xs) h = ground (arith, h x, affects-same p q xs h)

  affects-insert_newest :
      (q : A → Bool) (key : A → ℕ) (x : A) (ys : List A)
      → affects q (insert_newest key x ys) ≡ (q x || affects q ys)
  unfolding affects
  affects-insert_newest q key x [] = ground arith
  affects-insert_newest q key x (y ∷ ys) = elim (Bool-cases (ltb (key x) (key y))) [
    | inl b ↦ rw b (ground (arith, affects-insert_newest q key x ys))
    | inr b ↦ rw b (ground arith)
  ]

  -- A listing holds the rows that it selects.
  pub affects-newest_where :
      (p q : A → Bool) (key : A → ℕ) (xs : List A)
      → affects q (newest_where p key xs) ≡ affects (λ x. p x && q x) xs
  unfolding affects newest_where
  affects-newest_where p q key [] = refl
  affects-newest_where p q key (x ∷ xs) = ground (
    arith,
    affects-newest_where p q key xs,
    affects-insert_newest q key x (newest_where p key xs),
  )

  pub take_all : (n : ℕ) (xs : List A) → length xs ≤ n → take n xs ≡ xs
  take_all zero [] h = refl
  take_all zero (x ∷ xs) h = ground (arith, h)
  take_all (suc n) [] h = refl
  take_all (suc n) (x ∷ xs) h = ap (λ l. x ∷ l) (take_all n xs (omega arith))
