-- ===== src/Common/Cuts.antt =====
-- The cuts of texts at a number of bytes.
use Prim.Native.Nat.{ℕ, zero, suc, ◌+◌, ◌-◌, ◌≤◌}
use Prim.Native.Char.{Char, len_utf8}
use Prim.Native.String.len
use Prim.Native.String.{String, [], ◌∷◌, len}
use mathlib.Core.Bool.{Bool, true, ◌&&◌}
use mathlib.Core.List.{[], ◌∷◌, ◌++◌}
use mathlib.Core.Path.{◌≡◌, refl, ap}
use mathlib.Core.Logic.{inl, inr}
use native.Mathlib.Omega.{arith}
use tuskbase.Common.Tests.{leb, eqb, Bool-cases}
use tuskbase.Common.Text.{
  is_space, trim_left, trim_right, drop_last, trim_func, trim_space, take_text, drop_text,
}
use tuskbase.Common.Parts.{marks}

-- A text is its first part and what is left behind it.
pub marks-parts : (n : ℕ) (s : String) → marks (take_text n s) ++ marks (drop_text n s) ≡ marks s
unfolding take_text drop_text marks
marks-parts n [] = refl
marks-parts n (c ∷ s) = elim (Bool-cases (leb (len_utf8 c) n)) [
  | inl fits ↦ elim (Bool-cases (is_space c)) [
    | inl e ↦ rw (fits) (rw (e) (marks-parts (n - len_utf8 c) s))
    | inr e ↦ rw (fits) (rw (e) (ap (λ m. c ∷ m) (marks-parts (n - len_utf8 c) s)))
  ]
  | inr over ↦ rw (over) refl
]

pub len-take_text : (n : ℕ) (s : String) → len (take_text n s) ≤ n
unfolding take_text
len-take_text n [] = omega (arith, len.nil)
len-take_text n (c ∷ s) = elim (Bool-cases (leb (len_utf8 c) n)) [
  | inl fits ↦
      let room : len_utf8 c ≤ n = ground arith in
      rw (fits) (
        omega (
          arith,
          room,
          len-take_text (n - len_utf8 c) s,
          len.cons c (take_text (n - len_utf8 c) s),
        ))
  | inr over ↦ rw (over) (omega (arith, len.nil))
]

pub len-parts : (n : ℕ) (s : String) → len (take_text n s) + len (drop_text n s) ≡ len s
unfolding take_text drop_text
len-parts n [] = omega (arith, len.nil)
len-parts n (c ∷ s) = elim (Bool-cases (leb (len_utf8 c) n)) [
  | inl fits ↦ rw (fits) (
      omega (
        arith,
        len-parts (n - len_utf8 c) s,
        len.cons c s,
        len.cons c (take_text (n - len_utf8 c) s),
      ))
  | inr over ↦ rw (over) (omega (arith, len.nil))
]

-- Each character takes one byte: the text is ASCII.
unfoldable pub is_ascii : String → Bool
is_ascii [] = true
is_ascii (c ∷ s) = eqb (len_utf8 c) 1 && is_ascii s

-- No cut splits a character of an ASCII text.
pub take_text-ascii : (n : ℕ) (s : String) → is_ascii s ≡ true → n ≤ len s → len (take_text n s) ≡ n
unfolding take_text is_ascii
take_text-ascii n [] a h = omega (arith, len.nil, h)
take_text-ascii zero (c ∷ s) a h =
    let one : len_utf8 c ≡ 1 = ground arith in rw (one) (omega (arith, len.nil))
take_text-ascii (suc n) (c ∷ s) a h =
    let one : len_utf8 c ≡ 1 = ground arith in
    let more : is_ascii s ≡ true = ground arith in
    let fits : n ≤ len s = omega (arith, h, one, len.cons c s) in
    let rest : len (take_text n s) ≡ n = take_text-ascii n s more fits in
    let room : leb 1 (suc n) ≡ true = ground arith in
    let left : suc n - 1 ≡ n = omega arith in
    rw (one) (rw (room) (rw (left) (omega (arith, rest, one, len.cons c (take_text n s)))))

drop_text-ascii : (n : ℕ) (s : String) → is_ascii s ≡ true → is_ascii (drop_text n s) ≡ true
unfolding drop_text is_ascii
drop_text-ascii n [] a = refl
drop_text-ascii n (c ∷ s) a = elim (Bool-cases (leb (len_utf8 c) n)) [
  | inl fits ↦ rw (fits) (drop_text-ascii (n - len_utf8 c) s (ground arith))
  | inr over ↦ rw (over) a
]

trim_left-ascii :
    (p : Char → Bool) (s : String) → is_ascii s ≡ true → is_ascii (trim_left p s) ≡ true
unfolding trim_left is_ascii
trim_left-ascii p [] a = refl
trim_left-ascii p (c ∷ s) a = elim (Bool-cases (p c)) [
  | inl e ↦ rw (e) (trim_left-ascii p s (ground arith))
  | inr e ↦ rw (e) a
]

drop_last-ascii :
    (p : Char → Bool) (c : Char) (s : String)
    → is_ascii (c ∷ s) ≡ true
    → is_ascii (drop_last p c s) ≡ true
unfolding drop_last is_ascii
drop_last-ascii p c [] a = elim (Bool-cases (p c)) [ inl e ↦ rw (e) refl | inr e ↦ rw (e) a ]
drop_last-ascii p c (d ∷ s) a = a

trim_right-ascii :
    (p : Char → Bool) (s : String) → is_ascii s ≡ true → is_ascii (trim_right p s) ≡ true
unfolding trim_right is_ascii
trim_right-ascii p [] a = refl
trim_right-ascii p (c ∷ s) a =
    let rest : is_ascii (trim_right p s) ≡ true = trim_right-ascii p s (ground arith) in
    drop_last-ascii p c (trim_right p s) (ground arith)

pub trim_space-ascii : (s : String) → is_ascii s ≡ true → is_ascii (trim_space s) ≡ true
unfolding trim_space trim_func
trim_space-ascii s a =
    trim_right-ascii is_space (trim_left is_space s) (trim_left-ascii is_space s a)

pub rest-ascii :
    (n : ℕ) (s : String) → is_ascii s ≡ true → is_ascii (trim_space (drop_text n s)) ≡ true
rest-ascii n s a = trim_space-ascii (drop_text n s) (drop_text-ascii n s a)
