-- ===== src/Common/Parts.antt =====
-- The parts of texts and of lists of texts.
use Prim.Native.Nat.{◌≤◌, ◌<◌}
use Prim.Native.Char.{Char}
use Prim.Native.String.len
use Prim.Native.String.{String, [], ◌∷◌, len}
use mathlib.Core.Bool.{Bool, false, ◌||◌}
use mathlib.Core.List.{List, [], ◌∷◌, ◌++◌}
use mathlib.Core.Path.{◌≡◌, refl, ap, ◌∙◌}
use mathlib.Core.Logic.{inl, inr}
use text.Mathlib.TextPositions.{len_utf8-pos}
use native.Mathlib.Omega.{arith}
use text.Mathlib.TextEquality.{eq_iff}
use tuskbase.Common.Tests.{Bool-cases, if◌then◌else◌}
use tuskbase.Common.Text.{
  mem_text, Unrepeated, is_space, trim_left, trim_right, drop_last, trim_func, trim_space,
}

-- What is in two texts one behind the other is in one of them.
pub mem-append :
    (t : String) (xs ys : List String) → mem_text t (xs ++ ys) ≡ (mem_text t xs || mem_text t ys)
unfolding mem_text
mem-append t [] ys = refl
mem-append t (x ∷ xs) ys = ground (arith, mem-append t xs ys)

-- A new text behind a list without repetition.
pub append-Unrepeated :
    (xs : List String) (t : String)
    → Unrepeated xs
    → mem_text t xs ≡ false
    → Unrepeated (xs ++ t ∷ [])
unfolding mem_text
append-Unrepeated [] t u h = (refl, tt)
append-Unrepeated (x ∷ xs) t (n, u) h = (
  ground (arith, mem-append x xs (t ∷ []), eq_iff x t, eq_iff t x),
  append-Unrepeated xs t u (ground (arith)),
)

pub len-grows : (c : Char) (s : String) → len s < len (c ∷ s)
len-grows c s = omega (arith, len.cons c s, (len_utf8-pos c).1)

-- The characters of a text that are not white space.
unfoldable pub marks : String → List Char
unfolding is_space
marks [] = []
marks (c ∷ s) = let rest = marks s in if is_space c then rest else c ∷ rest

unfoldable pub marks_of : List String → List Char
unfolding marks
marks_of [] = []
marks_of (s ∷ more) = marks s ++ marks_of more

trim_left-len : (p : Char → Bool) (s : String) → len (trim_left p s) ≤ len s
unfolding trim_left
trim_left-len p [] = omega arith
trim_left-len p (c ∷ s) = elim (Bool-cases (p c)) [
  | inl e ↦ rw (e) (omega (arith, trim_left-len p s, len-grows c s))
  | inr e ↦ rw (e) (omega arith)
]

drop_last-len : (p : Char → Bool) (c : Char) (s : String) → len (drop_last p c s) ≤ len (c ∷ s)
unfolding drop_last
drop_last-len p c [] = elim (Bool-cases (p c)) [
  | inl e ↦ rw (e) (omega (arith, len-grows c []))
  | inr e ↦ rw (e) (omega arith)
]
drop_last-len p c (d ∷ s) = omega arith

trim_right-len : (p : Char → Bool) (s : String) → len (trim_right p s) ≤ len s
unfolding trim_right
trim_right-len p [] = omega arith
trim_right-len p (c ∷ s) = omega (
  arith,
  trim_right-len p s,
  drop_last-len p c (trim_right p s),
  len.cons c s,
  len.cons c (trim_right p s),
)

-- Trimming makes no text longer.
pub len-trim_space : (s : String) → len (trim_space s) ≤ len s
unfolding trim_space trim_func
len-trim_space s =
    omega (arith, trim_right-len is_space (trim_left is_space s), trim_left-len is_space s)

marks_cons : (c : Char) (s : String) → is_space c ≡ false → marks (c ∷ s) ≡ c ∷ marks s
unfolding marks
marks_cons c s e = rw (e) refl

trim_left-marks : (s : String) → marks (trim_left is_space s) ≡ marks s
unfolding trim_left marks
trim_left-marks [] = refl
trim_left-marks (c ∷ s) = elim (Bool-cases (is_space c)) [
  | inl e ↦ rw (e) (trim_left-marks s)
  | inr e ↦ rw (e) (marks_cons c s e)
]

drop_last-marks : (c : Char) (s : String) → marks (drop_last is_space c s) ≡ marks (c ∷ s)
unfolding drop_last marks
drop_last-marks c [] = elim (Bool-cases (is_space c)) [
  | inl e ↦ rw (e) refl
  | inr e ↦ rw (e) (rw (e) refl)
]
drop_last-marks c (d ∷ s) = refl

trim_right-marks : (s : String) → marks (trim_right is_space s) ≡ marks s
unfolding trim_right marks
trim_right-marks [] = refl
trim_right-marks (c ∷ s) =
    drop_last-marks c (trim_right is_space s)
    ∙ ap (λ m. if is_space c then m else c ∷ m) (trim_right-marks s)

-- Trimming takes only white space away.
pub marks-trim_space : (s : String) → marks (trim_space s) ≡ marks s
unfolding trim_space trim_func
marks-trim_space s = trim_right-marks (trim_left is_space s) ∙ trim_left-marks s
