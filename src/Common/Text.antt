-- ===== src/Common/Text.antt =====
-- Go's `strings` package as far as the program uses it, over texts of valid UTF-8.
use Prim.Native.Nat.{ℕ, ◌+◌, ◌-◌}
use Prim.Native.Char.{Char, code, nul, len_utf8}
use Prim.Native.String
use Prim.Native.String.{String, [], ◌∷◌}
use mathlib.Core.Bool.{Bool, true, false, not, ◌&&◌, ◌||◌}
use mathlib.Core.List.{List, [], ◌∷◌}
use text.Mathlib.Text.{◌==◌, starts_with}
use mathlib.Core.Path.{◌≡◌}
use mathlib.Core.Logic.{◌≢◌}
use native.Mathlib.Omega.{arith}
use text.Mathlib.TextEquality.{eq_iff}
use tuskbase.Common.Tests.{leb, ltb, eqb, if◌then◌else◌}

-- `unicode.IsSpace`.
unfoldable pub is_space : Char → Bool
is_space c =
    let n = code c in
    (leb 9 n && leb n 13)
    || eqb n 32
    || eqb n 0x85
    || eqb n 0xa0
    || eqb n 0x1680
    || (leb 0x2000 n && leb n 0x200a)
    || eqb n 0x2028
    || eqb n 0x2029
    || eqb n 0x202f
    || eqb n 0x205f
    || eqb n 0x3000

unfoldable pub trim_left : (Char → Bool) → String → String
trim_left p [] = []
trim_left p (c ∷ s) = let rest = trim_left p s in if p c then rest else c ∷ s

-- A trimmed character goes if nothing is left behind it.
unfoldable pub drop_last : (Char → Bool) → Char → String → String
drop_last p c [] = if p c then [] else c ∷ []
drop_last p c (d ∷ s) = c ∷ d ∷ s

unfoldable pub trim_right : (Char → Bool) → String → String
trim_right p [] = []
trim_right p (c ∷ s) = drop_last p c (trim_right p s)

-- `strings.TrimFunc`
unfoldable pub trim_func : (Char → Bool) → String → String
unfolding trim_left trim_right drop_last
trim_func p s = trim_right p (trim_left p s)

-- `strings.TrimSpace`
unfoldable pub trim_space : String → String
unfolding is_space trim_func
trim_space s = trim_func is_space s

has_char : String → Char → Bool
has_char [] c = false
has_char (d ∷ s) c = eqb (code d) (code c) || has_char s c

-- `strings.Trim(s, cutset)`
unfoldable pub trim : String → String → String
unfolding has_char trim_func
trim s cutset = trim_func (has_char cutset) s

lower_from : String → String → Char → Char
lower_from (u ∷ us) (l ∷ ls) c = if eqb (code u) (code c) then l else lower_from us ls c
lower_from _ _ c = c

-- `unicode.ToLower` where its value is ASCII. The two characters behind `Z` are U+0130 and U+212A;
-- every other character outside ASCII is left as it is.
lower_char : Char → Char
unfolding lower_from
lower_char = lower_from "ABCDEFGHIJKLMNOPQRSTUVWXYZİK" "abcdefghijklmnopqrstuvwxyzik"

-- `strings.ToLower`
unfoldable pub to_lower : String → String
unfolding lower_char
to_lower [] = []
to_lower (c ∷ s) = lower_char c ∷ to_lower s

-- `strings.Contains(s, sub)`
unfoldable pub contains : String → String → Bool
contains [] sub = sub == ""
contains (c ∷ s) sub = starts_with (c ∷ s) sub || contains s sub

-- `strings.Join(parts, sep)`
unfoldable pub join : List String → String → String
join [] sep = ""
join (s ∷ []) sep = s
join (s ∷ t ∷ more) sep = String.◌++◌ s (String.◌++◌ sep (join (t ∷ more) sep))

count_fields : Bool → String → ℕ
count_fields inside [] = 0
count_fields inside (c ∷ s) =
    let space = is_space c in
    (if not space && not inside then 1 else 0) + count_fields (not space) s

-- `len(strings.Fields(s))`
unfoldable pub fields_count : String → ℕ
unfolding count_fields is_space
fields_count s = count_fields false s

add_char : Char → List String → List String
add_char c [] = (c ∷ []) ∷ []
add_char c (s ∷ more) = (c ∷ s) ∷ more

fields_from : Bool → String → List String
unfolding is_space add_char
fields_from inside [] = if inside then "" ∷ [] else []
fields_from inside (c ∷ s) =
    let word = not (is_space c) in
    let rest = fields_from word s in
    if word then add_char c rest else if inside then "" ∷ rest else rest

-- `strings.Fields(s)`
unfoldable pub fields : String → List String
unfolding fields_from
fields s = fields_from false s

-- `strings.TrimRight(s, cutset)`
unfoldable pub trim_end : String → String → String
unfolding trim_right drop_last has_char
trim_end s cutset = trim_right (has_char cutset) s

-- `strings.HasSuffix(s, suffix)`
unfoldable pub ends_with : String → String → Bool
ends_with [] suffix = suffix == ""
ends_with (c ∷ s) suffix = (c ∷ s) == suffix || ends_with s suffix

drop_along : String → String → String
drop_along [] s = s
drop_along (p ∷ ps) [] = []
drop_along (p ∷ ps) (c ∷ s) = drop_along ps s

-- `strings.TrimPrefix(s, prefix)`
unfoldable pub trim_prefix : String → String → String
unfolding drop_along
trim_prefix s prefix = if starts_with s prefix then drop_along prefix s else s

-- `s[:n]`: the characters that lie in the first `n` bytes. A character that a cut would split is
-- left out here.
unfoldable pub take_text : ℕ → String → String
take_text n [] = ""
take_text n (c ∷ s) =
    let rest = take_text (n - len_utf8 c) s in if leb (len_utf8 c) n then c ∷ rest else ""

-- `s[n:]`, where no character is split.
unfoldable pub drop_text : ℕ → String → String
drop_text n [] = ""
drop_text n (c ∷ s) =
    let rest = drop_text (n - len_utf8 c) s in if leb (len_utf8 c) n then rest else c ∷ s

-- `strings.Split(s, sep)` for a `sep` of one character of the set.
unfoldable pub split_at : String → String → List String
unfolding has_char add_char
split_at seps [] = "" ∷ []
split_at seps (c ∷ s) =
    let rest = split_at seps s in if has_char seps c then "" ∷ rest else add_char c rest

infixr 65 ◌⧺◌
-- Texts joined by `+`.
abbrev pub ◌⧺◌ : String → String → String
s ⧺ t = String.◌++◌ s t

abbrev pub nul_text : String
nul_text = nul ∷ []

-- `slices.Contains` and lookups in a `map[string]struct{}`.
unfoldable pub mem_text : String → List String → Bool
mem_text k [] = false
mem_text k (x ∷ xs) = x == k || mem_text k xs

-- `strings.TrimSpace(s) == ""`
unfoldable pub is_blank : String → Bool
unfolding trim_space
is_blank s = trim_space s == ""

-- The order of `sort.Strings`: that of the bytes, which for UTF-8 is that of the characters.
unfoldable pub text_before : String → String → Bool
text_before [] [] = false
text_before [] (d ∷ t) = true
text_before (c ∷ s) [] = false
text_before (c ∷ s) (d ∷ t) =
    let rest = text_before s t in
    if ltb (code c) (code d) then true else if eqb (code c) (code d) then rest else false

-- What a comparison of texts says.
pub text_eq : (a b : String) → (a == b) ≡ true → a ≡ b
text_eq a b h = ground (arith, eq_iff a b)

pub text_ne : (a b : String) → (a == b) ≡ false → a ≢ b
text_ne a b h = ground (arith, eq_iff a b)

-- No text stands twice.
abbrev pub Unrepeated : List String → Type 0
Unrepeated [] = Unit
Unrepeated (x ∷ xs) = (mem_text x xs ≡ false) × Unrepeated xs
