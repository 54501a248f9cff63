-- ===== src/Sqlite/Children/Replaced.antt =====
-- The rows below a decision after they were replaced.
use tuskbase.Common.{
  String, Bool, true, false, ◌==◌, Bool-cases, List, [], ◌∷◌, ◌++◌, map, select, All, Result, ok,
  err, ◌≡◌, ◌≢◌, refl, sym, ap, ◌∙◌, inl, inr, arith, eq_iff,
}
use tuskbase.Sqlite.Tables.{insert, insert_all, with_key}
use tuskbase.Sqlite.Tables.Rows.{All-map}
use tuskbase.Sqlite.Tables.Runs.{insert-eq-ok, ok-injective}
use tuskbase.Sqlite.Children.{replace_rows, owned_by, disowned_by}

module _ {A : Type 0} where
  append_assoc : (xs ys zs : List A) → (xs ++ ys) ++ zs ≡ xs ++ (ys ++ zs)
  append_assoc [] ys zs = refl
  append_assoc (x ∷ xs) ys zs = ap (λ l. x ∷ l) (append_assoc xs ys zs)

  append_nil : (xs : List A) → xs ++ [] ≡ xs
  append_nil [] = refl
  append_nil (x ∷ xs) = ap (λ l. x ∷ l) (append_nil xs)

  insert_all-eq-ok :
      (key : A → String) (new table more : List A)
      → insert_all key new table ≡ ok more
      → more ≡ table ++ new
  unfolding insert_all
  insert_all-eq-ok key [] table more h = sym (ok-injective table more h) ∙ sym (append_nil table)
  insert_all-eq-ok key (x ∷ xs) table more h =
      go (insert key x table) refl h (λ next k. insert_all-eq-ok key xs next more k)
    where
      go :
          (r : Result (List A))
          → insert key x table ≡ r
          → elim r [ ok next ↦ insert_all key xs next | err e ↦ err e ] ≡ ok more
          → ((next : List A) → insert_all key xs next ≡ ok more → more ≡ next ++ xs)
          → more ≡ table ++ x ∷ xs
      go (ok next) e k rec =
          let (_, same) = insert-eq-ok key x table next e in
          rec next k ∙ ap (λ l. l ++ xs) (sym same) ∙ append_assoc table (x ∷ []) xs
      go (err f) e k rec = cc

  select-append : (p : A → Bool) (xs ys : List A) → select p (xs ++ ys) ≡ select p xs ++ select p ys
  select-append p [] ys = refl
  select-append p (x ∷ xs) ys = elim (Bool-cases (p x)) [
    | inl is ↦ rw is (ap (λ l. x ∷ l) (select-append p xs ys))
    | inr not_ ↦ rw not_ (select-append p xs ys)
  ]

  select_whole : (p : A → Bool) (xs : List A) → All (λ x. p x ≡ true) xs → select p xs ≡ xs
  select_whole p [] h = refl
  select_whole p (x ∷ xs) (h, hs) = rw h (ap (λ l. x ∷ l) (select_whole p xs hs))

  select_nothing : (p : A → Bool) (xs : List A) → All (λ x. p x ≡ false) xs → select p xs ≡ []
  select_nothing p [] h = refl
  select_nothing p (x ∷ xs) (h, hs) = rw h (select_nothing p xs hs)

  module _ (owner : A → String) (id : String) where
    owned_by-disowned_by : (xs : List A) → owned_by owner id (disowned_by owner id xs) ≡ []
    owned_by-disowned_by [] = refl
    owned_by-disowned_by (x ∷ xs) = elim (Bool-cases (owner x == id)) [
      | inl is ↦ rw is (owned_by-disowned_by xs)
      | inr not_ ↦ rw not_ (rw not_ (owned_by-disowned_by xs))
    ]

    other_owned_by-disowned_by :
        (other : String)
        → other ≢ id
        → (xs : List A) → owned_by owner other (disowned_by owner id xs) ≡ owned_by owner other xs
    other_owned_by-disowned_by other n [] = refl
    other_owned_by-disowned_by other n (x ∷ xs) = elim (Bool-cases (owner x == id)) [
      | inl is ↦
          let off : (owner x == other) ≡ false =
            ground (arith, eq_iff (owner x) id, eq_iff (owner x) other) in
          rw (is, off) (other_owned_by-disowned_by other n xs)
      | inr not_ ↦ elim (Bool-cases (owner x == other)) [
        | inl on ↦ rw not_ (rw on (ap (λ l. x ∷ l) (other_owned_by-disowned_by other n xs)))
        | inr off ↦ rw not_ (rw off (other_owned_by-disowned_by other n xs))
      ]
    ]

    module _ (key : A → String) (new table more : List A)
        (h : replace_rows key owner id new table ≡ ok more)
        (owned : All (λ x. owner x ≡ id) new) where
      -- The rows of the decision are the new ones.
      pub replace_rows-owned_by : owned_by owner id more ≡ new
      unfolding replace_rows
      replace_rows-owned_by =
          ap (owned_by owner id) (insert_all-eq-ok key new _ more h)
          ∙ select-append _ (disowned_by owner id table) new
          ∙ rw (owned_by-disowned_by table) (
              select_whole _ new
                (All-map _ _ new (λ x e. ground (arith, eq_iff (owner x) id)) owned))

      -- Those of another decision are what they were.
      pub replace_rows-other :
          (other : String) → other ≢ id → owned_by owner other more ≡ owned_by owner other table
      unfolding replace_rows
      replace_rows-other other n =
          ap (owned_by owner other) (insert_all-eq-ok key new _ more h)
          ∙ select-append _ (disowned_by owner id table) new
          ∙ rw
              (
                other_owned_by-disowned_by other n table,
                select_nothing (with_key owner other) new
                    (All-map _ _ new (λ x e. ground (arith, eq_iff (owner x) other)) owned),
              )
              (append_nil _)

pub owned-map :
    {A : Type 0} (owner : A → String) (id : String) (f : A → A)
    → ((x : A) → owner (f x) ≡ id)
    → (xs : List A) → All (λ x. owner x ≡ id) (map f xs)
owned-map owner id f h [] = tt
owned-map owner id f h (x ∷ xs) = (h x, owned-map owner id f h xs)
