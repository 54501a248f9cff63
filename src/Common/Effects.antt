-- ===== src/Common/Effects.antt =====
-- Calls that read and change the world outside the program and may fail. What was changed before a
-- failure stays changed, so the state comes back beside the error too.
use mathlib.Core.Path.{◌≡◌, refl, ap}
use tuskbase.Common.Results.{Error, Result, ok, err}

abbrev pub Exec {ℓ} : Type ℓ → Type ℓ → Type ℓ
Exec S A = S → Result A × S

module _ {ℓ} {S A : Type ℓ} where
  abbrev pub pure : A → Exec S A
  pure a s = (ok a, s)

  abbrev pub raise : Error → Exec S A
  raise e s = (err e, s)

  abbrev pub lift : Result A → Exec S A
  lift r s = (r, s)

  -- A call that cannot fail.
  abbrev pub call : (S → A × S) → Exec S A
  call f s = (ok (f s).0, (f s).1)

module _ {ℓ} {S A B : Type ℓ} where
  abbrev pub continue : Result A → (A → Exec S B) → Exec S B
  continue (ok a) f s = f a s
  continue (err e) f s = (err e, s)

  infixl 10 ◌>>=◌ ◌>>◌
  abbrev pub ◌>>=◌ : Exec S A → (A → Exec S B) → Exec S B
  ◌>>=◌ m f s = continue (m s).0 f (m s).1

  abbrev pub ◌>>◌ : Exec S A → Exec S B → Exec S B
  m >> n = m >>= λ _. n

  -- A successful sequence: its first part succeeded, and the rest from there.
  pub bind-eq-ok :
      (m : Exec S A) (f : A → Exec S B) (s : S) (b : B) (t : S)
      → (m >>= f) s ≡ (ok b, t)
      → (a : A) × (u : S) × (m s ≡ (ok a, u)) × (f a u ≡ (ok b, t))
  bind-eq-ok m f s b t h = split (m s) refl
    where
      split :
          (r : Result A × S) → m s ≡ r → (a : A) × (u : S) × (m s ≡ (ok a, u)) × (f a u ≡ (ok b, t))
      split (ok a, u) e = (a, u, e, rw e at h)
      split (err e, u) q = let g : (continue (err e) f u) ≡ (ok b, t) = rw q at h in cc

  -- A successful sequence whose first part changes no state.
  pub lift-eq-ok :
      (r : Result A) (f : A → Exec S B) (s : S) (b : B) (t : S)
      → (lift r >>= f) s ≡ (ok b, t)
      → (a : A) × (r ≡ ok a) × (f a s ≡ (ok b, t))
  lift-eq-ok (ok a) f s b t h = (a, refl, h)
  lift-eq-ok (err e) f s b t h = cc

module _ {ℓ} {S A : Type ℓ} where
  pub pure-eq-ok : (a b : A) (s t : S) → pure a s ≡ (ok b, t) → (a ≡ b) × (s ≡ t)
  pure-eq-ok a b s t h = (ok-injective (ap (λ p. p.0) h), ap (λ p. p.1) h)
    where
      ok-injective : ok a ≡ ok b → a ≡ b
      ok-injective q = cc

module _ {ℓ} {S A B : Type ℓ} where
  -- A failure of the first part is a failure of the whole.
  pub bind-err :
      (m : Exec S A) (f : A → Exec S B) (s : S) (e : Error) (t : S)
      → m s ≡ (err e, t)
      → (m >>= f) s ≡ (err e, t)
  bind-err m f s e t h = rw h
