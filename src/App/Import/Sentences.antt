-- ===== src/App/Import/Sentences.antt =====
-- The texts of a document as internal/app/importer.go cuts them up: its sentences, its paragraphs and
-- its status.
use Prim.Native.Char.{Char, code}
use Prim.Native.String.{[], ◌∷◌, len}
use text.Mathlib.Text.{starts_with}
use tuskbase.Common.{
  String, Bool, true, false, not, ◌&&◌, ◌||◌, ◌==◌, ◌⧺◌, leb, eqb, if◌then◌else◌, Option, none,
  some, List, [], ◌∷◌, ◌++◌, any, trim_space, trim, trim_end, trim_prefix, take_text, to_lower,
  contains, ends_with, fields, fields_count, join, split_at,
}

unfoldable pub normalize_snippet : String → String
unfolding fields join trim trim_space take_text
normalize_snippet value =
    let v = trim (join (fields (trim_space value)) " ") "`*_ " in
    if leb (len v) 500 then v else trim_space (take_text 500 v)

unfoldable pub ensure_sentence : String → String
unfolding trim_space ends_with
ensure_sentence value =
    let v = trim_space value in
    if v == "" || ends_with v "." || ends_with v "!" || ends_with v "?" then v else v ⧺ "."

unfoldable pub title_from_snippet : String → String
unfolding trim_space trim_end take_text
title_from_snippet snippet =
    let v = trim_end (trim_space snippet) "." in
    if leb (len v) 80 then v else trim_space (take_text 80 v) ⧺ "..."

unfoldable pub clean_default : String → String → String
unfolding trim_space
clean_default value fallback = let v = trim_space value in if v == "" then fallback else v

-- `\s` of a regular expression.
unfoldable pub is_re_space : Char → Bool
is_re_space c = let n = code c in eqb n 32 || (leb 9 n && leb n 10) || (leb 12 n && leb n 13)

unfoldable pub is_digit : Char → Bool
is_digit c = let n = code c in leb b'0' n && leb n b'9'

unfoldable pub skip_re_space : String → String
unfolding is_re_space
skip_re_space [] = []
skip_re_space (c ∷ s) = let rest = skip_re_space s in if is_re_space c then rest else c ∷ s

unfoldable pub starts_re_space : String → Bool
unfolding is_re_space
starts_re_space [] = false
starts_re_space (c ∷ s) = is_re_space c

-- The text behind `\d*\.\s+`, if it starts so.
unfoldable pub after_number : String → Option String
unfolding is_digit starts_re_space skip_re_space
after_number [] = none
after_number (c ∷ s) =
    let rest = after_number s in
    if is_digit c
    then rest
    else if eqb (code c) b'.' && starts_re_space s
    then some (skip_re_space s)
    else none

-- `^\d+\.\s+` replaced by nothing.
unfoldable pub strip_number : String → String
unfolding after_number
strip_number [] = []
strip_number (c ∷ s) =
    if is_digit c then elim (after_number s) [ none ↦ c ∷ s | some t ↦ t ] else c ∷ s

unfoldable pub add_to_first : Char → List String → List String
add_to_first c [] = (c ∷ []) ∷ []
add_to_first c (s ∷ more) = (c ∷ s) ∷ more

-- The split at `\.\s+` and `;\s+`. The flag says whether the text before ends in such a separator.
unfoldable pub cut_sentences : Bool → String → List String
unfolding is_re_space starts_re_space add_to_first
cut_sentences behind [] = "" ∷ []
cut_sentences behind (c ∷ s) =
    let dropped = behind && is_re_space c in
    let cut = not dropped && (eqb (code c) b'.' || eqb (code c) b';') && starts_re_space s in
    let rest = cut_sentences (dropped || cut) s in
    if dropped then rest else if cut then "" ∷ rest else add_to_first c rest

unfoldable pub trim_each : List String → List String
unfolding trim_space
trim_each [] = []
trim_each (s ∷ more) = trim_space s ∷ trim_each more

unfoldable pub split_sentences : String → List String
unfolding trim_space trim_each cut_sentences
split_sentences given =
    let line = trim_space given in
    if leb (len line) 220 then line ∷ [] else trim_each (cut_sentences false line)

unfoldable pub clean_line : String → String
unfolding trim_space trim_prefix strip_number
clean_line line = trim_space (strip_number (trim_prefix (trim_prefix (trim_space line) "- ") "* "))

-- `len(strings.Fields(part)) >= 3`
unfoldable pub long_parts : List String → List String
unfolding fields_count
long_parts [] = []
long_parts (s ∷ more) =
    let rest = long_parts more in if leb 3 (fields_count s) then s ∷ rest else rest

unfoldable pub sentences_of : List String → List String
unfolding clean_line long_parts split_sentences
sentences_of [] = []
sentences_of (given ∷ lines) =
    let line = clean_line given in
    let rest = sentences_of lines in
    if line == "" || starts_with line "#" || starts_with line "|"
    then rest
    else long_parts (split_sentences line) ++ rest

unfoldable pub candidate_sentences : String → List String
unfolding sentences_of split_at
candidate_sentences content = sentences_of (split_at "\n" content)

abbrev pub needles : List String
needles =
    "we use " ∷ "we choose " ∷ "we chose " ∷ "we require " ∷ "we avoid " ∷ "we do not "
    ∷ "must use " ∷ "must not " ∷ "do not " ∷ "avoid " ∷ "required to " ∷ "prefer " ∷ []

unfoldable pub decision_language : String → Bool
unfolding to_lower contains trim_space
decision_language sentence =
    let lower = to_lower sentence in
    any (λ needle. contains lower needle || starts_with lower (trim_space needle)) needles

-- The rest of the line behind `status :`, if a text starts so.
unfoldable pub first_line : String → String
first_line [] = []
first_line (c ∷ s) = let rest = first_line s in if eqb (code c) 10 then [] else c ∷ rest

unfoldable pub status_value : String → Option String
unfolding skip_re_space first_line
status_value [] = none
status_value (c ∷ s) = if eqb (code c) b':' then some (first_line (skip_re_space s)) else none

unfoldable pub status_here : String → Option String
unfolding skip_re_space to_lower trim_prefix status_value
status_here text =
    let t = skip_re_space text in
    if starts_with (to_lower t) "status" then status_value (skip_re_space (after_word t)) else none
  where
    after_word : String → String
    after_word (a ∷ b ∷ c ∷ d ∷ e ∷ f ∷ s) = s
    after_word s = s

-- The first line that starts with `status :`. The flag says whether a line starts here.
unfoldable pub find_status : Bool → String → String
unfolding status_here
find_status at_start [] = ""
find_status at_start (c ∷ s) =
    let rest = find_status (eqb (code c) 10) s in
    elim (if at_start then status_here (c ∷ s) else none) [ some v ↦ v | none ↦ rest ]

unfoldable pub adr_status : String → String
unfolding find_status trim_space
adr_status content = trim_space (find_status true content)

-- The paragraphs of a text: `strings.Split(content, "\n\n")`. The flag says whether the first line
-- break of a separator was read.
unfoldable pub paragraphs_from : Bool → String → List String
unfolding add_to_first
paragraphs_from broken [] = if broken then "\n" ∷ [] else "" ∷ []
paragraphs_from broken (c ∷ s) =
    let line_break = eqb (code c) 10 in
    let rest = paragraphs_from (line_break && not broken) s in
    if line_break
    then if broken then "" ∷ rest else rest
    else if broken
    then add_to_first "\n" (add_to_first c rest)
    else add_to_first c rest

unfoldable pub first_paragraph : List String → String
unfolding normalize_snippet
first_paragraph [] = ""
first_paragraph (given ∷ more) =
    let part = normalize_snippet given in
    let rest = first_paragraph more in if part == "" || starts_with part "#" then rest else part

unfoldable pub first_meaningful_paragraph : String → String
unfolding first_paragraph paragraphs_from
first_meaningful_paragraph content = first_paragraph (paragraphs_from false content)

unfoldable pub decision_sentence : List String → String
unfolding to_lower contains ensure_sentence normalize_snippet
decision_sentence [] = ""
decision_sentence (sentence ∷ more) =
    let lower = to_lower sentence in
    let rest = decision_sentence more in
    if contains lower "we choose" || contains lower "we decided" || contains lower "decision:"
    then ensure_sentence (normalize_snippet sentence)
    else rest

unfoldable pub extract_decision_sentence : String → String
unfolding decision_sentence candidate_sentences
extract_decision_sentence content = decision_sentence (candidate_sentences content)
