-- ===== src/App/Attach/Documents/Chunks.antt =====
-- The chunks of a document in internal/app/service.go.
use mathlib.Core.List.{append-nil}
use Prim.Native.Char.{len_utf8}
use Prim.Native.String.len
use text.Mathlib.Text.{starts_with}
use Prim.Native.String.{[], ◌∷◌, len}
use tuskbase.Common.{
  ℕ, zero, suc, ◌+◌, ◌/◌, ◌≤◌, ◌<◌, String, false, ◌==◌, Bool-cases, leb, eqb, if◌then◌else◌,
  Option, none, some, List, [], ◌∷◌, ◌++◌, All, trim_space, take_text, drop_text, ◌≡◌, refl, sym,
  ap, ◌∙◌, inl, inr, ◌⊎◌, arith, eq_iff, marks, marks_of, len-trim_space, marks-trim_space,
  marks-parts, len-take_text, len-parts, is_ascii, take_text-ascii, trim_space-ascii, rest-ascii,
}
use tuskbase.App.Attach.Documents.{
  last_index, place_from, chunk_cut, Chunking, chunks, splits_character, with_first, cut_chunks,
  chunk_text,
}

-- A place, if there is one, is no later than a bound.
abbrev Within : Option ℕ → ℕ → Type 0
Within none n = Unit
Within (some i) n = i ≤ n

last_index-Within : (sep s : String) → Within (last_index sep s) (len s)
unfolding last_index
last_index-Within sep [] = tt
last_index-Within sep (c ∷ s) = go (last_index sep s) (last_index-Within sep s)
  where
    go :
        (o : Option ℕ)
        → Within o (len s)
        → Within
            (elim o [
              | some i ↦ some (len_utf8 c + i)
              | none ↦ if starts_with (c ∷ s) sep then some 0 else none
            ])
            (len (c ∷ s))
    go (some i) h = omega (arith, h, len.cons c s)
    go none h = elim (Bool-cases (starts_with (c ∷ s) sep)) [
      | inl e ↦ rw (e) (omega arith)
      | inr e ↦ rw (e) tt
    ]

place_from-between :
    (least most : ℕ) (place : Option ℕ) (otherwise : ℕ)
    → Within place most
    → least ≤ otherwise
    → otherwise ≤ most
    → (least ≤ place_from least place otherwise) × (place_from least place otherwise ≤ most)
unfolding place_from
place_from-between least most none otherwise w a b = (a, b)
place_from-between least most (some i) otherwise w a b = (ground arith, ground arith)

last_index-max :
    (sep : String) (max : ℕ) (s : String) → Within (last_index sep (take_text max s)) max
last_index-max sep max s =
    go (last_index sep (take_text max s)) (last_index-Within sep (take_text max s))
  where
    go : (o : Option ℕ) → Within o (len (take_text max s)) → Within o max
    go none h = tt
    go (some i) h = omega (arith, h, len-take_text max s)

-- A cut is in the second half of the limit.
chunk_cut-between :
    (max : ℕ) (text : String) → (max / 2 ≤ chunk_cut max text) × (chunk_cut max text ≤ max)
unfolding chunk_cut
chunk_cut-between max text =
    let line = last_index "\n" (take_text max text) in
    let (a, b) =
      place_from-between (max / 2) max line max (last_index-max "\n" max text) (omega arith)
        (omega arith) in
    place_from-between (max / 2) max (last_index "\n\n" (take_text max text)) _
      (last_index-max "\n\n" max text) a b

-- Either the chunks of a text, none longer than the limit, with all of its characters that are not
-- white space; or a cut in the middle of a character of a text that is not ASCII.
abbrev pub Chunked : ℕ → String → Chunking → Type 0
Chunked max text result =
    ((cs : List String) × (result ≡ chunks cs)
      × (marks_of cs ≡ marks text)
      × All (λ c. len c ≤ max) cs)
    ⊎ ((result ≡ splits_character) × (is_ascii text ≡ false))

cut_chunks-Chunked :
    (fuel max : ℕ) (text : String)
    → 2 ≤ max
    → len text < fuel
    → Chunked max text (cut_chunks fuel max text)
unfolding cut_chunks marks_of with_first
cut_chunks-Chunked zero max text big enough = absurd (omega (arith, enough))
cut_chunks-Chunked (suc fuel) max text big enough = elim (Bool-cases (leb (len text) max)) [
  | inl short ↦
      rw (short, cut_chunks) (inl (text ∷ [], refl, append-nil (marks text), (ground arith, tt)))
  | inr long ↦
      let cut : ℕ = chunk_cut max text in
      let rest : String = drop_text cut text in
      let (least, most) = chunk_cut-between max text in
      let over : max < len text = ground arith in
      elim (Bool-cases (eqb (len (take_text cut text)) cut)) [
        | inr split ↦
            rw (long, split, cut_chunks)
              (inr (refl, not_ascii text cut (omega (arith, over, most)) split))
        | inl whole ↦
            let size : len (take_text cut text) ≡ cut = ground arith in
            let less : len (trim_space rest) < fuel =
              omega (arith, big, least, enough, size, len-parts cut text, len-trim_space rest) in
            elim (cut_chunks-Chunked fuel max (trim_space rest) big less) [
              | inl (cs, made, kept, small) ↦
                  rw (long, whole, made, cut_chunks)
                    (inl (
                      trim_space (take_text cut text) ∷ cs,
                      refl,
                      ap (λ m. m ++ marks_of cs) (marks-trim_space (take_text cut text))
                          ∙ ap (λ m. marks (take_text cut text) ++ m) (kept ∙ marks-trim_space rest)
                          ∙ marks-parts cut text,
                      (omega (arith, most, size, len-trim_space (take_text cut text)), small),
                    ))
              | inr (stopped, foreign) ↦
                  rw (long, whole, stopped, cut_chunks) (inr (refl, still_not text cut foreign))
            ]
      ]
]
  where
    not_ascii :
        (t : String) (n : ℕ) → n ≤ len t → eqb (len (take_text n t)) n ≡ false → is_ascii t ≡ false
    not_ascii t n h e = elim (Bool-cases (is_ascii t)) [
      | inl a ↦ let size = take_text-ascii n t a h in absurd (ground arith)
      | inr a ↦ a
    ]

    still_not :
        (t : String) (n : ℕ) → is_ascii (trim_space (drop_text n t)) ≡ false → is_ascii t ≡ false
    still_not t n e = elim (Bool-cases (is_ascii t)) [
      | inl a ↦ let b = rest-ascii n t a in cc
      | inr a ↦ a
    ]

-- With a limit of two or more, the loop over a text ends in one of two ways. It gives chunks, none
-- of them longer in bytes than the limit, and no character of the text that is not white space is
-- lost, doubled or moved by the cuts. Or a cut falls in the middle of a character, which happens to
-- no ASCII text.
pub chunk_text-Chunked :
    (text : String) (max : ℕ) → 2 ≤ max → Chunked max text (chunk_text text max)
unfolding chunk_text marks_of
chunk_text-Chunked text max big = elim (Bool-cases (trim_space text == "")) [
  | inl blank ↦ rw (blank) (
      inl (
        "" ∷ [],
        refl,
        ap marks (sym ((eq_iff (trim_space text) "").0 blank)) ∙ marks-trim_space text,
        (omega (arith, len.nil), tt),
      ))
  | inr words ↦
      let found =
        cut_chunks-Chunked (suc (len (trim_space text))) max (trim_space text) big (omega arith) in
      elim found [
        | inl (cs, made, kept, small) ↦
            rw (words) (inl (cs, made, kept ∙ marks-trim_space text, small))
        | inr (stopped, foreign) ↦ rw (words) (inr (stopped, trimmed text foreign))
      ]
]
  where
    trimmed : (t : String) → is_ascii (trim_space t) ≡ false → is_ascii t ≡ false
    trimmed t e = elim (Bool-cases (is_ascii t)) [
      | inl a ↦ let b = trim_space-ascii t a in cc
      | inr a ↦ a
    ]
