-- ===== src/Sqlite/Tables/Rows.antt =====
-- Lemmas on the rows of a table.
use tuskbase.Common.{
  ℕ, zero, suc, Bool, true, false, ◌||◌, Bool-cases, if◌then◌else◌, List, [], ◌∷◌, ◌++◌, any,
  select, take, sort_stable, insert_stable, map, length, All, none, some, ◌≡◌, refl, sym, ap, ◌∙◌,
  inl, inr, arith,
}
use tuskbase.Sqlite.Tables.{first, update}

module _ {A : Type 0} where
  -- A row that is looked for and is there is found.
  pub first-any :
      (p : A → Bool) (xs : List A)
      → any p xs ≡ true
      → (x : A) × (first p xs ≡ some x) × (p x ≡ true)
  unfolding first
  first-any p [] h = cc
  first-any p (x ∷ xs) h = elim (Bool-cases (p x)) [
    | inl is ↦ (x, rw is refl, is)
    | inr not_ ↦ let (y, found, holds) = first-any p xs (rw not_ at h) in (y, rw not_ found, holds)
  ]

  pub first-none : (p : A → Bool) (xs : List A) → any p xs ≡ false → first p xs ≡ none
  unfolding first
  first-none p [] h = refl
  first-none p (x ∷ xs) h = elim (Bool-cases (p x)) [
    | inl is ↦ let g : true ≡ false = rw is at h in cc
    | inr not_ ↦ rw not_ (first-none p xs (rw not_ at h))
  ]

  pub any-append : (p : A → Bool) (xs ys : List A) → any p (xs ++ ys) ≡ (any p xs || any p ys)
  any-append p [] ys = refl
  any-append p (x ∷ xs) ys = ground (arith, any-append p xs ys)

  pub first-append :
      (p : A → Bool) (xs : List A) (y : A)
      → any p xs ≡ false
      → p y ≡ true
      → first p (xs ++ y ∷ []) ≡ some y
  unfolding first
  first-append p [] y h q = rw q refl
  first-append p (x ∷ xs) y h q = elim (Bool-cases (p x)) [
    | inl is ↦ let g : true ≡ false = rw is at h in cc
    | inr not_ ↦ rw not_ (first-append p xs y (rw not_ at h) q)
  ]

  pub first-append-other :
      (p : A → Bool) (xs : List A) (y : A) → p y ≡ false → first p (xs ++ y ∷ []) ≡ first p xs
  unfolding first
  first-append-other p [] y q = rw q refl
  first-append-other p (x ∷ xs) y q = rw (first-append-other p xs y q) refl

  pub any_mono :
      (p q : A → Bool) (xs : List A)
      → ((x : A) → p x ≡ true → q x ≡ true)
      → any p xs ≡ true
      → any q xs ≡ true
  any_mono p q [] h e = e
  any_mono p q (x ∷ xs) h e = elim (Bool-cases (p x)) [
    | inl is ↦ rw (h x is) refl
    | inr not_ ↦ ground (arith, any_mono p q xs h (rw not_ at e))
  ]

  -- A test that the rows keep when they are changed.
  pub any-update-keeps :
      (q p : A → Bool) (f : A → A) (xs : List A)
      → ((x : A) → q (f x) ≡ q x)
      → any q (update p f xs) ≡ any q xs
  unfolding update
  any-update-keeps q p f [] h = refl
  any-update-keeps q p f (x ∷ xs) h = elim (Bool-cases (p x)) [
    | inl is ↦ rw (is, h x, any-update-keeps q p f xs h) refl
    | inr not_ ↦ rw (not_, any-update-keeps q p f xs h) refl
  ]

  -- A test that no changed row passes, nor one that is left alone.
  pub any-update-none :
      (q p : A → Bool) (f : A → A) (xs : List A)
      → ((x : A) → p x ≡ true → q (f x) ≡ false)
      → ((x : A) → p x ≡ false → q x ≡ false)
      → any q (update p f xs) ≡ false
  unfolding update
  any-update-none q p f [] h k = refl
  any-update-none q p f (x ∷ xs) h k = elim (Bool-cases (p x)) [
    | inl is ↦ rw (is, h x is, any-update-none q p f xs h k) refl
    | inr not_ ↦ rw (not_, k x not_, any-update-none q p f xs h k) refl
  ]

  changed-keeps :
      (q p : A → Bool) (f : A → A)
      → ((x : A) → q (f x) ≡ q x)
      → (y : A) → q (if p y then f y else y) ≡ q y
  changed-keeps q p f h y = elim (Bool-cases (p y)) [
    | inl is ↦ rw is (h y)
    | inr not_ ↦ rw not_ refl
  ]

  -- The row that is found, after a change that keeps what is looked for.
  pub first-update :
      (q p : A → Bool) (f : A → A) (xs : List A)
      → ((x : A) → q (f x) ≡ q x)
      → (x : A) → first q xs ≡ some x
      → first q (update p f xs) ≡ some (if p x then f x else x)
  unfolding first update
  first-update q p f [] h x e = cc
  first-update q p f (y ∷ ys) h x e = elim (Bool-cases (q y)) [
    | inl is ↦
        let same : some y ≡ some x = rw is at e in
        let g : y ≡ x = cc in
        rw (changed-keeps q p f h y, is) (ap (λ z. some (if p z then f z else z)) g)
    | inr not_ ↦ rw (changed-keeps q p f h y, not_) (first-update q p f ys h x (rw not_ at e))
  ]

  pub first-holds : (p : A → Bool) (xs : List A) (x : A) → first p xs ≡ some x → p x ≡ true
  unfolding first
  first-holds p [] x e = cc
  first-holds p (y ∷ ys) x e = elim (Bool-cases (p y)) [
    | inl is ↦ let same : some y ≡ some x = rw is at e in let g : y ≡ x = cc in ap p (sym g) ∙ is
    | inr not_ ↦ first-holds p ys x (rw not_ at e)
  ]

  -- A change of other rows than those that are looked for.
  pub first-update-other :
      (q p : A → Bool) (f : A → A) (xs : List A)
      → ((x : A) → q (f x) ≡ q x)
      → ((x : A) → q x ≡ true → p x ≡ false)
      → first q (update p f xs) ≡ first q xs
  unfolding first update
  first-update-other q p f [] h k = refl
  first-update-other q p f (y ∷ ys) h k = elim (Bool-cases (q y)) [
    | inl is ↦ rw (changed-keeps q p f h y, is, k y is) refl
    | inr not_ ↦ rw (changed-keeps q p f h y, not_) (first-update-other q p f ys h k)
  ]

  -- What holds of each row holds of those that a query lists.
  pub select-All :
      (P : A → Type 0) (p : A → Bool) (xs : List A)
      → ((x : A) → p x ≡ true → P x)
      → All P (select p xs)
  select-All P p [] h = tt
  select-All P p (x ∷ xs) h = elim (Bool-cases (p x)) [
    | inl is ↦ rw is (h x is, select-All P p xs h)
    | inr not_ ↦ rw not_ (select-All P p xs h)
  ]

  pub update-All :
      (P : A → Type 0) (p : A → Bool) (f : A → A) (xs : List A)
      → ((x : A) → p x ≡ true → P (f x))
      → ((x : A) → p x ≡ false → P x)
      → All P (update p f xs)
  unfolding update
  update-All P p f [] h k = tt
  update-All P p f (x ∷ xs) h k = elim (Bool-cases (p x)) [
    | inl is ↦ rw is (h x is, update-All P p f xs h k)
    | inr not_ ↦ rw not_ (k x not_, update-All P p f xs h k)
  ]

  -- What holds of a row that is in the table holds of it where the query lists it.
  pub listed-All :
      (P Q : A → Type 0) (p : A → Bool) (xs : List A)
      → ((x : A) → p x ≡ true → Q x → P x)
      → All Q xs
      → All P (select p xs)
  listed-All P Q p [] h q = tt
  listed-All P Q p (x ∷ xs) h (q, qs) = elim (Bool-cases (p x)) [
    | inl is ↦ rw is (h x is q, listed-All P Q p xs h qs)
    | inr not_ ↦ rw not_ (listed-All P Q p xs h qs)
  ]

  insert_stable-All :
      (P : A → Type 0) (before : A → A → Bool) (x : A) (xs : List A)
      → P x
      → All P xs
      → All P (insert_stable before x xs)
  unfolding insert_stable
  insert_stable-All P before x [] h hs = (h, tt)
  insert_stable-All P before x (y ∷ ys) h (k, ks) = elim (Bool-cases (before y x)) [
    | inl is ↦ rw is (k, insert_stable-All P before x ys h ks)
    | inr not_ ↦ rw not_ (h, (k, ks))
  ]

  pub sort_stable-All :
      (P : A → Type 0) (before : A → A → Bool) (xs : List A)
      → All P xs
      → All P (sort_stable before xs)
  unfolding sort_stable
  sort_stable-All P before [] h = tt
  sort_stable-All P before (x ∷ xs) (h, hs) =
      insert_stable-All P before x (sort_stable before xs) h (sort_stable-All P before xs hs)

  pub take-All : (P : A → Type 0) (n : ℕ) (xs : List A) → All P xs → All P (take n xs)
  take-All P zero xs h = tt
  take-All P (suc n) [] h = tt
  take-All P (suc n) (x ∷ xs) (h, hs) = (h, take-All P n xs hs)

  pub All-map : (P Q : A → Type 0) (xs : List A) → ((x : A) → P x → Q x) → All P xs → All Q xs
  All-map P Q [] f h = tt
  All-map P Q (x ∷ xs) f (h, hs) = (f x h, All-map P Q xs f hs)

pub map-All :
    {A B : Type 0} (P : B → Type 0) (Q : A → Type 0) (f : A → B) (xs : List A)
    → ((x : A) → Q x → P (f x))
    → All Q xs
    → All P (map f xs)
map-All P Q f [] h q = tt
map-All P Q f (x ∷ xs) h (q, qs) = (h x q, map-All P Q f xs h qs)

pub length-map : {A B : Type 0} (f : A → B) (xs : List A) → length (map f xs) ≡ length xs
length-map f [] = refl
length-map f (x ∷ xs) = ap suc (length-map f xs)
