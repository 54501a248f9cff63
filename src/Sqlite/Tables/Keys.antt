-- ===== src/Sqlite/Tables/Keys.antt =====
-- Keys and references between tables.
use tuskbase.Common.{
  String, Bool, true, false, Bool-cases, List, [], ◌∷◌, ◌++◌, any, All, ◌≡◌, refl, ◌∙◌, inl, inr,
  arith, eq_iff,
}
use tuskbase.Sqlite.Tables.{update, with_key}
use tuskbase.Sqlite.Tables.Rows.{any-append, any-update-keeps, All-map}

module _ {A : Type 0} (same : A → A → Bool) where
  -- No row is the same as a later one.
  abbrev pub Distinct : List A → Type 0
  Distinct [] = Unit
  Distinct (x ∷ xs) = (any (same x) xs ≡ false) × Distinct xs

  pub append-Distinct :
      ((x y : A) → same x y ≡ false → same y x ≡ false)
      → (xs : List A) (x : A) → any (same x) xs ≡ false
      → Distinct xs
      → Distinct (xs ++ x ∷ [])
  append-Distinct flip [] x h d = (refl, tt)
  append-Distinct flip (y ∷ ys) x h (n, d) =
      let apart : same y x ≡ false = flip x y (ground arith) in
      (ground (arith, any-append (same y) ys (x ∷ [])), append-Distinct flip ys x (ground arith) d)

  pub update-Distinct :
      (p : A → Bool) (f : A → A)
      → ((x y : A) → same (f x) y ≡ same x y)
      → ((x y : A) → same x (f y) ≡ same x y)
      → (xs : List A) → Distinct xs
      → Distinct (update p f xs)
  unfolding update
  update-Distinct p f left right [] d = tt
  update-Distinct p f left right (x ∷ xs) (n, d) =
      let rest = update-Distinct p f left right xs d in
      let others : any (same x) (update p f xs) ≡ any (same x) xs =
        any-update-keeps (same x) p f xs (right x) in
      elim (Bool-cases (p x)) [
        | inl is ↦
            rw is (any-update-keeps (same (f x)) p f xs (right (f x)) ∙ any-same xs x ∙ n, rest)
        | inr not_ ↦ rw not_ (others ∙ n, rest)
      ]
    where
      any-same : (ys : List A) (y : A) → any (same (f y)) ys ≡ any (same y) ys
      any-same [] y = refl
      any-same (z ∷ zs) y = rw (left y z, any-same zs y) refl

-- `key` is a primary key.
abbrev pub Keyed : {A : Type 0} → (A → String) → List A → Type 0
Keyed key = Distinct (λ x. with_key key (key x))

abbrev pub Points : {A B : Type 0} → (B → String) → (A → String) → List B → List A → Type 0
Points owner key rows table = All (λ r. any (with_key key (owner r)) table ≡ true) rows

module _ {A : Type 0} (key : A → String) where
  flip : (x y : A) → with_key key (key x) y ≡ false → with_key key (key y) x ≡ false
  flip x y h = ground (arith, eq_iff (key x) (key y), eq_iff (key y) (key x))

  pub append-Keyed :
      (xs : List A) (x : A)
      → any (with_key key (key x)) xs ≡ false
      → Keyed key xs
      → Keyed key (xs ++ x ∷ [])
  append-Keyed = append-Distinct (λ x. with_key key (key x)) flip

  pub update-Keyed :
      (p : A → Bool) (f : A → A)
      → ((x : A) → key (f x) ≡ key x)
      → (xs : List A) → Keyed key xs
      → Keyed key (update p f xs)
  update-Keyed p f keeps =
      update-Distinct (λ x. with_key key (key x)) p f (λ x y. rw (keeps x) refl)
        (λ x y. rw (keeps y) refl)

module _ {A B : Type 0} (owner : B → String) (key : A → String) where
  pub append-Points :
      (rows : List B) (table : List A) (r : B)
      → any (with_key key (owner r)) table ≡ true
      → Points owner key rows table
      → Points owner key (rows ++ r ∷ []) table
  append-Points [] table r h p = (h, tt)
  append-Points (x ∷ xs) table r h (k, p) = (k, append-Points xs table r h p)

  pub Points-append :
      (rows : List B) (table : List A) (x : A)
      → Points owner key rows table
      → Points owner key rows (table ++ x ∷ [])
  Points-append rows table x =
      All-map _ _ rows (λ r h. ground (arith, any-append (with_key key (owner r)) table (x ∷ [])))

  pub Points-update :
      (p : A → Bool) (f : A → A)
      → ((x : A) → key (f x) ≡ key x)
      → (rows : List B) (table : List A) → Points owner key rows table
      → Points owner key rows (update p f table)
  Points-update p f keeps rows table =
      All-map _ _ rows
        (λ r h. any-update-keeps (with_key key (owner r)) p f table (λ x. rw (keeps x) refl) ∙ h)

  pub update-Points :
      (p : B → Bool) (f : B → B)
      → ((x : B) → owner (f x) ≡ owner x)
      → (rows : List B) (table : List A) → Points owner key rows table
      → Points owner key (update p f rows) table
  unfolding update
  update-Points p f keeps [] table h = tt
  update-Points p f keeps (x ∷ xs) table (h, hs) = elim (Bool-cases (p x)) [
    | inl is ↦ rw is (rw (keeps x) h, update-Points p f keeps xs table hs)
    | inr not_ ↦ rw not_ (h, update-Points p f keeps xs table hs)
  ]
