-- ===== src/Common/Float.antt =====
-- What the program uses of `float64`.
use Prim.Native.Nat.{ℕ}
use mathlib.Core.Bool.{Bool}

-- `hundredths n` is the constant n/100, `of_nat` the conversion from `int`, and `whole` the
-- conversion to `int` and back.
pub record Float64 (F : Type 0) : Type 0 where
  pub lt : F → F → Bool
  pub le : F → F → Bool
  pub same : F → F → Bool
  pub add : F → F → F
  pub sub : F → F → F
  pub mul : F → F → F
  pub div : F → F → F
  pub neg : F → F
  pub hundredths : ℕ → F
  pub of_nat : ℕ → F
  pub whole : F → F

module _ {F : Type 0} ⦃fl : Float64 F⦄ where
  abbrev pub lt : F → F → Bool
  lt = fl.lt

  abbrev pub le : F → F → Bool
  le = fl.le

  abbrev pub same : F → F → Bool
  same = fl.same

  abbrev pub add : F → F → F
  add = fl.add

  abbrev pub sub : F → F → F
  sub = fl.sub

  abbrev pub mul : F → F → F
  mul = fl.mul

  abbrev pub div : F → F → F
  div = fl.div

  abbrev pub neg : F → F
  neg = fl.neg

  abbrev pub hundredths : ℕ → F
  hundredths = fl.hundredths

  abbrev pub of_nat : ℕ → F
  of_nat = fl.of_nat

  abbrev pub whole : F → F
  whole = fl.whole
