-- ===== src/Platform/Rows/Lookup.antt =====
-- What a lookup finds after an update of the rows, and where a row stands in a table.
use talos_app.Prelude.{
  ◌≡◌, refl, sym, subst, ◌++◌, Bool, true, false, none, some, List, [], ◌∷◌, ◌⊎◌, inl, inr, arith,
  find, Bool-cases, Option-cases, ap, ℕ, zero, suc, ◌≤◌, get_elem?, some-injective,
}
use talos_app.Platform.Rows.{update_rows, affects, first_where}

module _ {A : Type 0} where
  abbrev pub In : A → List A → Type 0
  In x [] = ⊥
  In x (y ∷ ys) = (x ≡ y) ⊎ In x ys

  -- A property of each row of a list.
  abbrev pub All : (A → Type 0) → List A → Type 0
  All P [] = Unit
  All P (x ∷ xs) = P x × All P xs

  pub All-In : (P : A → Type 0) (xs : List A) (x : A) → All P xs → In x xs → P x
  All-In P [] x h i = elim i [ ]
  All-In P (y ∷ ys) x (h, hs) (inl e) = subst P (sym e) h
  All-In P (y ∷ ys) x (h, hs) (inr i) = All-In P ys x hs i

  pub All-++ : (P : A → Type 0) (xs ys : List A) → All P xs → All P ys → All P (xs ++ ys)
  All-++ P [] ys h k = k
  All-++ P (x ∷ xs) ys (p, h) k = (p, All-++ P xs ys h k)

  pub All-get :
      (P : A → Type 0) (xs : List A) (k : ℕ) (x : A) → All P xs → get_elem? xs k ≡ some x → P x
  All-get P [] k x a h = ground arith
  All-get P (y ∷ ys) zero x (p, a) h = subst P (some-injective y x h) p
  All-get P (y ∷ ys) (suc k) x (p, a) h = All-get P ys k x a h

  pub All-three :
      {P Q R S : A → Type 0} (xs : List A)
      → ((x : A) → P x → Q x → R x → S x)
      → All P xs
      → All Q xs
      → All R xs
      → All S xs
  All-three [] f p q r = tt
  All-three (x ∷ xs) f (p, ps) (q, qs) (r, rs) = (f x p q r, All-three xs f ps qs rs)

  pub find-satisfies : (p : A → Bool) (xs : List A) (x : A) → find p xs ≡ some x → p x ≡ true
  unfolding find
  find-satisfies p [] x h = ground arith
  find-satisfies p (y ∷ ys) x h = ground (arith, find-satisfies p ys x)

  pub affects_of_find :
      (p : A → Bool) (xs : List A) (x : A) → find p xs ≡ some x → affects p xs ≡ true
  unfolding find affects
  affects_of_find p [] x h = ground arith
  affects_of_find p (y ∷ ys) x h = ground (arith, affects_of_find p ys x)

  pub affects_of_In :
      (p : A → Bool) (xs : List A) (x : A) → In x xs → p x ≡ true → affects p xs ≡ true
  unfolding affects
  affects_of_In p [] x i h = elim i [ ]
  affects_of_In p (y ∷ ys) x (inl e) h = rw (← e) (rw h)
  affects_of_In p (y ∷ ys) x (inr i) h = ground (arith, affects_of_In p ys x i h)

  pub affects-update_rows :
      (p q : A → Bool) (f : A → A) (xs : List A)
      → ((x : A) → q (f x) ≡ q x)
      → affects q (update_rows p f xs) ≡ affects q xs
  unfolding affects update_rows
  affects-update_rows p q f [] h = refl
  affects-update_rows p q f (x ∷ xs) h = ground (arith, h x, affects-update_rows p q f xs h)

  pub find-update_rows :
      (p : A → Bool) (f : A → A) (xs : List A) (x : A)
      → ((y : A) → p (f y) ≡ p y)
      → find p xs ≡ some x
      → find p (update_rows p f xs) ≡ some (f x)
  unfolding find update_rows
  find-update_rows p f [] x h e = ground arith
  find-update_rows p f (y ∷ ys) x h e = ground (arith, h y, find-update_rows p f ys x h)

  pub find-update_other :
      (p q : A → Bool) (f : A → A) (xs : List A)
      → ((y : A) → q (f y) ≡ q y)
      → ((y : A) → p y ≡ true → q y ≡ false)
      → find q (update_rows p f xs) ≡ find q xs
  unfolding find update_rows
  find-update_other p q f [] h d = refl
  find-update_other p q f (y ∷ ys) h d = ground (arith, h y, d y, find-update_other p q f ys h d)

  -- A second update of the same rows meets the rows that the first one left.
  pub update_rows_twice :
      (p : A → Bool) (f g : A → A) (xs : List A)
      → ((y : A) → p (f y) ≡ p y)
      → update_rows p g (update_rows p f xs) ≡ update_rows p (λ y. g (f y)) xs
  unfolding update_rows
  update_rows_twice p f g [] h = refl
  update_rows_twice p f g (y ∷ ys) h = ground (arith, h y, update_rows_twice p f g ys h)

  -- The row that `first_where` takes is a row that passes the test, and no such row has a smaller key.
  pub first_where-In :
      (p : A → Bool) (key : A → ℕ) (xs : List A) (x : A)
      → first_where p key xs ≡ some x
      → In x xs × (p x ≡ true)
  unfolding first_where
  first_where-In p key [] x h = ground arith
  first_where-In p key (y ∷ ys) x h = elim (Option-cases (first_where p key ys)) [
    | inl n ↦ ground (arith, n)
    | inr (b, n) ↦ ground (arith, first_where-In p key ys b n)
  ]

  pub first_where-none :
      (p : A → Bool) (key : A → ℕ) (xs : List A) (y : A)
      → first_where p key xs ≡ none
      → In y xs
      → p y ≡ false
  unfolding first_where
  first_where-none p key [] y h i = elim i [ ]
  first_where-none p key (z ∷ zs) y h (inl e) = ground (arith, ap p e)
  first_where-none p key (z ∷ zs) y h (inr i) = ground (arith, first_where-none p key zs y)

  pub first_where-le :
      (p : A → Bool) (key : A → ℕ) (xs : List A) (x y : A)
      → first_where p key xs ≡ some x
      → In y xs
      → p y ≡ true
      → key x ≤ key y
  unfolding first_where
  first_where-le p key [] x y h i q = elim i [ ]
  first_where-le p key (z ∷ zs) x y h (inl e) q = elim (Option-cases (first_where p key zs)) [
    | inl n ↦ ground (arith, n, ap key e, ap p e)
    | inr (b, n) ↦ ground (arith, n, ap key e, ap p e)
  ]
  first_where-le p key (z ∷ zs) x y h (inr i) q = elim (Option-cases (first_where p key zs)) [
    | inl n ↦ ground (arith, n, first_where-none p key zs y n i)
    | inr (b, n) ↦ ground (arith, n, first_where-le p key zs b y n i q)
  ]

  pub find_of_affects :
      (p : A → Bool) (xs : List A) → affects p xs ≡ true → (x : A) × (find p xs ≡ some x)
  unfolding find affects
  find_of_affects p [] h = ground arith
  find_of_affects p (x ∷ xs) h = elim (Bool-cases (p x)) [
    | inl b ↦ (x, rw b)
    | inr b ↦ rw b (find_of_affects p xs (rw b at h))
  ]
