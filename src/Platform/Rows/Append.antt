-- ===== src/Platform/Rows/Append.antt =====
-- Tables after an `INSERT`: what is found, counted and told apart among the old rows and the new.
use talos_app.Prelude.{
  ℕ, ◌≡◌, refl, Bool, true, false, none, some, List, [], ◌∷◌, ◌++◌, ◌⊎◌, inl, inr, arith, find,
  ◌==◌,
}
use talos_app.Platform.Rows.{affects}
use talos_app.Platform.Rows.Lookup.{In}
use talos_app.Platform.Rows.Keys.{count_where, IsUnique}

module _ {A : Type 0} where
  pub find-append :
      (p : A → Bool) (xs : List A) (x : A)
      → find p xs ≡ none
      → p x ≡ true
      → find p (xs ++ x ∷ []) ≡ some x
  unfolding find
  find-append p [] x n h = rw h
  find-append p (y ∷ ys) x n h = ground (arith, find-append p ys x)

  pub find-none : (p : A → Bool) (xs : List A) → affects p xs ≡ false → find p xs ≡ none
  unfolding find affects
  find-none p [] h = refl
  find-none p (x ∷ xs) h = ground (arith, find-none p xs)

  pub affects-append :
      (p : A → Bool) (xs : List A) (x : A) → p x ≡ true → affects p (xs ++ x ∷ []) ≡ true
  unfolding affects
  affects-append p [] x h = rw h
  affects-append p (y ∷ ys) x h = ground (arith, affects-append p ys x h)

  pub affects-++ :
      (p : A → Bool) (xs ys : List A)
      → affects p xs ≡ false
      → affects p ys ≡ false
      → affects p (xs ++ ys) ≡ false
  unfolding affects
  affects-++ p [] ys f g = g
  affects-++ p (x ∷ xs) ys f g = ground (arith, affects-++ p xs ys)

  pub IsUnique-++ :
      (key : A → ℕ) (xs ys : List A)
      → IsUnique key xs
      → IsUnique key ys
      → ((x : A) → In x xs → affects (λ y. key y == key x) ys ≡ false)
      → IsUnique key (xs ++ ys)
  IsUnique-++ key [] ys u v d = v
  IsUnique-++ key (x ∷ xs) ys u v d = (
    affects-++ (λ y. key y == key x) xs ys u.0 (d x (inl refl)),
    IsUnique-++ key xs ys u.1 v (λ y i. d y (inr i)),
  )

  pub count-++ :
      (p : A → Bool) (xs ys : List A)
      → ((x : A) → In x xs → p x ≡ false)
      → count_where p (xs ++ ys) ≡ count_where p ys
  unfolding count_where
  count-++ p [] ys h = refl
  count-++ p (x ∷ xs) ys h = rw (h x (inl refl)) (count-++ p xs ys (λ y i. h y (inr i)))

  pub In-++ : (xs ys : List A) (x : A) → In x (xs ++ ys) → In x xs ⊎ In x ys
  In-++ [] ys x i = inr i
  In-++ (y ∷ xs) ys x (inl e) = inl (inl e)
  In-++ (y ∷ xs) ys x (inr i) = elim (In-++ xs ys x i) [ inl j ↦ inl (inr j) | inr j ↦ inr j ]
