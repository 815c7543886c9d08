-- ===== src/Platform/Rows/Newest.antt =====
-- The newest row of a table, before and after an update of the rows.
use talos_app.Prelude.{
  ℕ, ◌≡◌, refl, ap, ◌∙◌, Bool, true, false, some, List, [], ◌∷◌, arith, ltb, some-injective, subst,
  Bool-cases, inl, inr, if◌then◌else◌,
}
use talos_app.Platform.Rows.Lookup.{In, All}
use talos_app.Platform.Rows.{update_rows, affects, newest_where, first, insert_newest}

module _ {A : Type 0} (p q : A → Bool) (key : A → ℕ) (f : A → A) (keep_p : (x : A) → p (f x) ≡ p x)
    (keep_key : (x : A) → key (f x) ≡ key x) where
  if-keeps :
      {B : Type 0} (k : A → B) (b : Bool) (x : A) → k (f x) ≡ k x → k (if b then f x else x) ≡ k x
  if-keeps k true x h = h
  if-keeps k false x h = refl

  insert_newest-update :
      (x : A) (ys : List A)
      → insert_newest key (if q x then f x else x) (update_rows q f ys)
        ≡ update_rows q f (insert_newest key x ys)
  unfolding update_rows
  insert_newest-update x [] = refl
  insert_newest-update x (y ∷ ys) = elim (Bool-cases (ltb (key x) (key y))) [
    | inl b ↦
        rw (if-keeps key (q x) x (keep_key x), if-keeps key (q y) y (keep_key y), b)
          (ap (λ (l : List A). (if q y then f y else y) ∷ l) (insert_newest-update x ys))
    | inr b ↦ rw (if-keeps key (q x) x (keep_key x), if-keeps key (q y) y (keep_key y), b) refl
  ]

  newest_where-update :
      (xs : List A)
      → newest_where p key (update_rows q f xs) ≡ update_rows q f (newest_where p key xs)
  unfolding newest_where update_rows
  newest_where-update [] = refl
  newest_where-update (x ∷ xs) = elim (Bool-cases (p x)) [
    | inl b ↦
        rw (if-keeps p (q x) x (keep_p x), b)
          (ap (λ l. insert_newest key (if q x then f x else x) l) (newest_where-update xs)
            ∙ insert_newest-update x (newest_where p key xs))
    | inr b ↦ rw (if-keeps p (q x) x (keep_p x), b) (newest_where-update xs)
  ]

  -- Where the update reaches the newest row and moves neither its time nor what selects it, the row
  -- with the update is the newest one afterwards.
  pub first-newest_where-update :
      (xs : List A) (x : A)
      → first (newest_where p key xs) ≡ some x
      → q x ≡ true
      → first (newest_where p key (update_rows q f xs)) ≡ some (f x)
  unfolding update_rows
  first-newest_where-update xs x h k =
      ap first (newest_where-update xs) ∙ head (newest_where p key xs) h
    where
      head : (ys : List A) → first ys ≡ some x → first (update_rows q f ys) ≡ some (f x)
      head [] e = ground (arith, e)
      head (y ∷ ys) e = rw (some-injective y x e, k) refl

module _ {A : Type 0} (p : A → Bool) (key : A → ℕ) where
  insert_newest-some : (x : A) (ys : List A) → (y : A) × (first (insert_newest key x ys) ≡ some y)
  insert_newest-some x [] = (x, refl)
  insert_newest-some x (y ∷ ys) = elim (Bool-cases (ltb (key x) (key y))) [
    | inl b ↦ rw b (y, refl)
    | inr b ↦ rw b (x, refl)
  ]

  -- There is a newest row as soon as some row is selected.
  pub newest_where-some :
      (xs : List A) → affects p xs ≡ true → (y : A) × (first (newest_where p key xs) ≡ some y)
  unfolding newest_where affects
  newest_where-some [] h = ground (arith, h)
  newest_where-some (x ∷ xs) h = elim (Bool-cases (p x)) [
    | inl b ↦ rw b (insert_newest-some x (newest_where p key xs))
    | inr b ↦ rw b (newest_where-some xs (rw b at h))
  ]

  insert_newest-All :
      (P : A → Type 0) (x : A) (ys : List A) → P x → All P ys → All P (insert_newest key x ys)
  insert_newest-All P x [] h k = (h, tt)
  insert_newest-All P x (y ∷ ys) h (k, ks) = elim (Bool-cases (ltb (key x) (key y))) [
    | inl b ↦ rw b (k, insert_newest-All P x ys h ks)
    | inr b ↦ rw b (h, (k, ks))
  ]

  newest_where-All : (xs : List A) → All (λ x. In x xs × (p x ≡ true)) (newest_where p key xs)
  unfolding newest_where
  newest_where-All [] = tt
  newest_where-All (x ∷ xs) = elim (Bool-cases (p x)) [
    | inl b ↦ rw b (
        insert_newest-All _ x (newest_where p key xs) (inl refl, b)
          (deeper _ (newest_where-All xs)))
    | inr b ↦ rw b (deeper _ (newest_where-All xs))
  ]
    where
      deeper :
          (ys : List A)
          → All (λ y. In y xs × (p y ≡ true)) ys
          → All (λ y. In y (x ∷ xs) × (p y ≡ true)) ys
      deeper [] h = tt
      deeper (y ∷ ys) ((i, h), hs) = ((inr i, h), deeper ys hs)

  -- The newest row is a row of the table that is selected.
  pub newest_where-In :
      (xs : List A) (x : A) → first (newest_where p key xs) ≡ some x → In x xs × (p x ≡ true)
  newest_where-In xs x h = head (newest_where p key xs) (newest_where-All xs) h
    where
      head :
          (ys : List A)
          → All (λ y. In y xs × (p y ≡ true)) ys
          → first ys ≡ some x
          → In x xs × (p x ≡ true)
      head [] k e = ground (arith, e)
      head (y ∷ ys) (k, ks) e = subst (λ z. In z xs × (p z ≡ true)) (some-injective y x e) k
