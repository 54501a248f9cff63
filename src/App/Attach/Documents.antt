-- ===== src/App/Attach/Documents.antt =====
-- The documents of a repository in internal/app/service.go: their titles and their chunks.
pub mod Chunks
use Prim.Native.Char.{Char, code, len_utf8}
use Prim.Native.String.{[], ◌∷◌, len}
use text.Mathlib.Text.{starts_with}
use tuskbase.Common.{
  ℕ, zero, suc, ◌+◌, ◌/◌, String, Bool, true, false, ◌==◌, ltb, leb, eqb, if◌then◌else◌, Option,
  none, some, List, [], ◌∷◌, trim_space, take_text, drop_text, split_at, mem_text,
}

unfoldable pub should_skip_dir : String → Bool
unfolding mem_text
should_skip_dir name = mem_text name (
    ".git" ∷ ".local" ∷ "node_modules" ∷ "vendor" ∷ "dist" ∷ "build" ∷ "out" ∷ "target" ∷ ".next"
    ∷ [])

-- `strings.TrimLeft(line, "#")`
unfoldable pub skip_hashes : String → String
skip_hashes [] = []
skip_hashes (c ∷ s) = let rest = skip_hashes s in if eqb (code c) b'#' then rest else c ∷ s

unfoldable pub title_of_lines : String → List String → String
unfolding trim_space skip_hashes
title_of_lines rel [] = rel
title_of_lines rel (given ∷ lines) =
    let line = trim_space given in
    let rest = title_of_lines rel lines in
    if starts_with line "#" then trim_space (skip_hashes line) else rest

unfoldable pub document_title : String → String → String
unfolding title_of_lines split_at
document_title rel text = title_of_lines rel (split_at "\n" text)

-- `strings.LastIndex`, of a text that is not empty; `none` stands for -1. Places are counted in bytes.
unfoldable pub last_index : String → String → Option ℕ
last_index sep [] = none
last_index sep (c ∷ s) = elim (last_index sep s) [
  | some i ↦ some (len_utf8 c + i)
  | none ↦ if starts_with (c ∷ s) sep then some 0 else none
]

-- A place, unless it is before the least one.
unfoldable pub place_from : ℕ → Option ℕ → ℕ → ℕ
place_from least none otherwise = otherwise
place_from least (some i) otherwise = if ltb i least then otherwise else i

-- Where a text is cut: at its last empty line, or at its last line break, or at the limit. A
-- character that the limit splits is no line break.
unfoldable pub chunk_cut : ℕ → String → ℕ
unfolding last_index place_from take_text
chunk_cut max text =
    let head = take_text max text in
    place_from (max / 2) (last_index "\n\n" head) (place_from (max / 2) (last_index "\n" head) max)

-- The chunks of a text. A cut in the middle of a character gives bytes that are no text: the code
-- goes on with them, and the model ends there.
pub data Chunking : Type 0 where
  chunks : List String → Chunking
  splits_character : Chunking
  out_of_fuel : Chunking

unfoldable pub with_first : String → Chunking → Chunking
with_first s (chunks more) = chunks (s ∷ more)
with_first s splits_character = splits_character
with_first s out_of_fuel = out_of_fuel

-- The loop, with fuel. A cut is between two characters if all its bytes make whole ones.
unfoldable pub cut_chunks : ℕ → ℕ → String → Chunking
unfolding chunk_cut trim_space take_text drop_text with_first
cut_chunks zero max text = out_of_fuel
cut_chunks (suc fuel) max text = elim (leb (len text) max) [
  | true ↦ chunks (text ∷ [])
  | false ↦
      let cut = chunk_cut max text in
      let rest = cut_chunks fuel max (trim_space (drop_text cut text)) in
      if eqb (len (take_text cut text)) cut
      then with_first (trim_space (take_text cut text)) rest
      else splits_character
]

-- An empty text is one empty chunk, as in the code.
unfoldable pub chunk_text : String → ℕ → Chunking
unfolding cut_chunks trim_space
chunk_text given max =
    let text = trim_space given in
    if text == "" then chunks ("" ∷ []) else cut_chunks (suc (len text)) max text
