-- ===== src/Platform/Rows/Keys.antt =====
-- Tables whose rows are told apart by a key, and the rows that pass a test, counted.
use talos_app.Prelude.{
  ℕ, suc, ◌≡◌, refl, ap, sym, subst, ◌∙◌, Bool, true, false, List, [], ◌∷◌, ◌⊎◌, inl, inr, none,
  some, arith, ◌==◌, if◌then◌else◌, Bool-cases, Option-cases, ==_iff,
}
use talos_app.Platform.Rows.{update_rows, affects, first_where}
use talos_app.Platform.Rows.Lookup.{In, affects_of_In, affects-update_rows}

module _ {A : Type 0} where
  unfoldable pub count_where : (A → Bool) → List A → ℕ
  count_where p [] = 0
  count_where p (x ∷ xs) = if p x then suc (count_where p xs) else count_where p xs

  abbrev pub IsUnique : (A → ℕ) → List A → Type 0
  IsUnique key [] = Unit
  IsUnique key (x ∷ xs) = (affects (λ y. key y == key x) xs ≡ false) × IsUnique key xs

  pub update_rows-IsUnique :
      (key : A → ℕ) (p : A → Bool) (f : A → A) (xs : List A)
      → ((y : A) → key (f y) ≡ key y)
      → IsUnique key xs
      → IsUnique key (update_rows p f xs)
  unfolding update_rows
  update_rows-IsUnique key p f [] h u = tt
  update_rows-IsUnique key p f (x ∷ xs) h u = (
    rw (same (p x)) (affects-update_rows p (λ y. key y == key x) f xs (λ y. rw (h y)) ∙ u.0),
    update_rows-IsUnique key p f xs h u.1,
  )
    where
      same : (b : Bool) → key (if b then f x else x) ≡ key x
      same true = h x
      same false = refl

  -- A row of the updated table is an old row, or the update of one that the test takes.
  pub update_rows-In :
      (p : A → Bool) (f : A → A) (xs : List A) (y : A)
      → In y (update_rows p f xs)
      → In y xs ⊎ ((x : A) × In x xs × (y ≡ f x))
  unfolding update_rows
  update_rows-In p f [] y i = elim i [ ]
  update_rows-In p f (x ∷ xs) y (inl e) = elim (Bool-cases (p x)) [
    | inl b ↦ inr (x, inl refl, rw b at e)
    | inr b ↦ inl (inl (rw b at e))
  ]
  update_rows-In p f (x ∷ xs) y (inr i) = elim (update_rows-In p f xs y i) [
    | inl old ↦ inl (inr old)
    | inr (z, j, e) ↦ inr (z, inr j, e)
  ]

  -- Where no row has the key, an update by it changes nothing.
  pub update_rows-none :
      (p : A → Bool) (f : A → A) (xs : List A) → affects p xs ≡ false → update_rows p f xs ≡ xs
  unfolding update_rows affects
  update_rows-none p f [] h = refl
  update_rows-none p f (x ∷ xs) h = ground (arith, update_rows-none p f xs)

  -- The update of one row that passes the test, to one that does not, takes one off the count.
  pub count_where-update :
      (key : A → ℕ) (p : A → Bool) (f : A → A) (xs : List A) (x : A)
      → ((y : A) → p (f y) ≡ false)
      → IsUnique key xs
      → In x xs
      → p x ≡ true
      → count_where p xs ≡ suc (count_where p (update_rows (λ y. key y == key x) f xs))
  unfolding count_where update_rows
  count_where-update key p f [] x h u i q = elim i [ ]
  count_where-update key p f (y ∷ ys) x h u (inl e) q = rw (sym e) (
      rw ((==_iff (key x) (key x)).1 refl, q, h x)
        (ap suc (
          ap (count_where p) (
            sym (
              update_rows-none (λ z. key z == key x) f ys
                (subst (λ k. affects (λ z. key z == key k) ys ≡ false) (sym e) u.0))))))
  count_where-update key p f (y ∷ ys) x h u (inr i) q =
      rw different (ground (arith, count_where-update key p f ys x h u.1 i q))
    where
      different : (key y == key x) ≡ false
      different = ground (arith, affects_of_In (λ z. key z == key y) ys x i)

  -- The update of a row that does not pass the test, to one that does not either, leaves the count.
  pub count_where-keep :
      (key : A → ℕ) (p : A → Bool) (f : A → A) (xs : List A) (x : A)
      → ((y : A) → p (f y) ≡ false)
      → IsUnique key xs
      → In x xs
      → p x ≡ false
      → count_where p (update_rows (λ y. key y == key x) f xs) ≡ count_where p xs
  unfolding count_where update_rows
  count_where-keep key p f [] x h u i q = elim i [ ]
  count_where-keep key p f (y ∷ ys) x h u (inl e) q = rw (sym e) (
      rw ((==_iff (key x) (key x)).1 refl, q, h x)
        (ap (count_where p) (
          update_rows-none (λ z. key z == key x) f ys
            (subst (λ k. affects (λ z. key z == key k) ys ≡ false) (sym e) u.0))))
  count_where-keep key p f (y ∷ ys) x h u (inr i) q =
      rw different (ground (arith, count_where-keep key p f ys x h u.1 i q))
    where
      different : (key y == key x) ≡ false
      different = ground (arith, affects_of_In (λ z. key z == key y) ys x i)

  -- Where no row passes a test, the count is 0, and the other way round.
  pub count_where-zero :
      (p : A → Bool) (key : A → ℕ) (xs : List A)
      → count_where p xs ≡ 0
      → first_where p key xs ≡ none
  unfolding count_where first_where
  count_where-zero p key [] h = refl
  count_where-zero p key (x ∷ xs) h = ground (arith, count_where-zero p key xs)

  count_where-none :
      (p : A → Bool) (key : A → ℕ) (xs : List A)
      → first_where p key xs ≡ none
      → count_where p xs ≡ 0
  unfolding count_where first_where
  count_where-none p key [] h = refl
  count_where-none p key (x ∷ xs) h = ground (arith, count_where-none p key xs)

  pub count_where-suc :
      (p : A → Bool) (key : A → ℕ) (xs : List A) (n : ℕ)
      → count_where p xs ≡ suc n
      → (x : A) × (first_where p key xs ≡ some x)
  count_where-suc p key xs n h = elim (Option-cases (first_where p key xs)) [
    | inl e ↦ absurd (omega (arith, count_where-none p key xs e))
    | inr found ↦ found
  ]
