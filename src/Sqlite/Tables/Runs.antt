-- ===== src/Sqlite/Tables/Runs.antt =====
-- What a call of the store that succeeded says of its parts.
use tuskbase.Common.{
  String, Bool, true, false, List, [], ◌∷◌, ◌++◌, any, Error, Option, none, some, Result, ok, err,
  fail_if, Exec, ◌>>◌, bind-eq-ok, ◌≡◌, refl, ap,
}
use tuskbase.Sqlite.Tables.{
  statement, transaction, executed, keep_committed, map_result, then_result, insert, one_row,
  with_key,
}

pub ok-injective : {A : Type 0} (a b : A) → ok a ≡ ok b → a ≡ b
ok-injective a b h = cc

module _ {S : Type 0} where
  pub statement-eq-ok :
      (f : S → Result S) (s : S) (u : Unit {0}) (t : S) → statement f s ≡ (ok u, t) → f s ≡ ok t
  statement-eq-ok f s u t h = go (f s) refl h
    where
      go : (r : Result S) → f s ≡ r → executed r s ≡ (ok u, t) → f s ≡ ok t
      go (ok v) same q = let g : v ≡ t = ap (λ p. p.1) q in rw same (ap ok g)
      go (err e) same q = cc

  pub transaction-eq-ok :
      {A : Type 0} (m : Exec S A) (s : S) (a : A) (t : S)
      → transaction m s ≡ (ok a, t)
      → m s ≡ (ok a, t)
  transaction-eq-ok {A} m s a t h = go (m s) refl h
    where
      go : (p : Result A × S) → m s ≡ p → keep_committed s p ≡ (ok a, t) → m s ≡ (ok a, t)
      go (ok b, u) same q = rw same q
      go (err e, u) same q = cc

  pub statements-eq-ok :
      (f g : S → Result S) (s : S) (u : Unit {0}) (t : S)
      → (statement f >> statement g) s ≡ (ok u, t)
      → (v : S) × (f s ≡ ok v) × (g v ≡ ok t)
  statements-eq-ok f g s u t h =
      let (x, v, one, two) = bind-eq-ok (statement f) (λ y. statement g) s u t h in
      (v, statement-eq-ok f s x v one, statement-eq-ok g v u t two)

pub fail_if-eq-ok :
    {A : Type 0} (b : Bool) (e : Error) (r : Result A) (a : A)
    → fail_if b e r ≡ ok a
    → (b ≡ false) × (r ≡ ok a)
fail_if-eq-ok true e r a h = cc
fail_if-eq-ok false e r a h = (refl, h)

pub map_result-eq-ok :
    {A B : Type 0} (f : A → B) (r : Result A) (b : B)
    → map_result f r ≡ ok b
    → (a : A) × (r ≡ ok a) × (f a ≡ b)
map_result-eq-ok f (ok a) b h = (a, refl, ok-injective (f a) b h)
map_result-eq-ok f (err e) b h = cc

pub then_result-eq-ok :
    {A B : Type 0} (r : Result A) (f : A → Result B) (b : B)
    → then_result r f ≡ ok b
    → (a : A) × (r ≡ ok a) × (f a ≡ ok b)
then_result-eq-ok (ok a) f b h = (a, refl, h)
then_result-eq-ok (err e) f b h = cc

pub insert-eq-ok :
    {A : Type 0} (key : A → String) (x : A) (xs ys : List A)
    → insert key x xs ≡ ok ys
    → (any (with_key key (key x)) xs ≡ false) × (xs ++ x ∷ [] ≡ ys)
unfolding insert
insert-eq-ok key x xs ys h =
    let (new, same) = fail_if-eq-ok (any (with_key key (key x)) xs) _ _ ys h in (new, cc)

pub one_row-eq-ok : {A : Type 0} (o : Option A) (x : A) → one_row o ≡ ok x → o ≡ some x
one_row-eq-ok none x h = cc
one_row-eq-ok (some y) x h = ap some (ok-injective y x h)

pub some-injective : {A : Type 0} (a b : A) → some a ≡ some b → a ≡ b
some-injective a b h = cc
