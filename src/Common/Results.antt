-- ===== src/Common/Results.antt =====
-- Go's `(value, error)` pairs: an error, or a value with a nil error.
use Prim.Native.String.{String}
use mathlib.Core.Path.{◌≡◌, refl}
use mathlib.Core.Logic.{◌⊎◌, inl, inr}
use mathlib.Core.Bool.{Bool, true, false}

-- `message` is `errors.New`, `invalid` a message that quotes a value, `forbidden` a message joined
-- to `ErrForbidden`, and `external` an error that comes from outside the program.
pub data Error : Type 0 where
  message : String → Error
  invalid : String → String → Error
  forbidden : String → Error
  external : String → Error

pub data Result {ℓ} (A : Type ℓ) : Type ℓ where
  ok : A → Result A
  err : Error → Result A

pub Result-cases {ℓ} :
    {A : Type ℓ} (r : Result A) → ((a : A) × (r ≡ ok a)) ⊎ ((e : Error) × (r ≡ err e))
Result-cases (ok a) = inl (a, refl)
Result-cases (err e) = inr (e, refl)

-- `if test { return message }` in a chain of checks that ends in `rest`.
abbrev pub fail_if {ℓ} : {A : Type ℓ} → Bool → Error → Result A → Result A
fail_if true e rest = err e
fail_if false e rest = rest

-- `if _, err := first; err != nil { return err }` before `rest`.
abbrev pub and_then {ℓ κ} : {A : Type ℓ} {B : Type κ} → Result A → Result B → Result B
and_then (ok _) rest = rest
and_then (err e) rest = err e

-- No error came back.
abbrev pub Accepted {ℓ} : {A : Type ℓ} → Result A → Type 0
Accepted (ok a) = Unit
Accepted (err e) = ⊥
