-- ===== src/App/Import/Extract/Rules.antt =====
-- The candidates that the rules of internal/app/importer.go find in a document.
use tuskbase.Common.{
  String, false, List, [], ◌∷◌, length, mem_text, Unrepeated, to_lower, ◌≤◌, ◌<◌, ◌≡◌,
}
use tuskbase.App.Import.Extract.{ExtractedCandidate, rule_limit}

module _ {F : Type 0} where
  -- The snippets of candidates in small letters.
  unfoldable pub snippet_keys : List (ExtractedCandidate F) → List String
  unfolding to_lower
  snippet_keys [] = []
  snippet_keys (c ∷ cs) = to_lower c.source_snippet ∷ snippet_keys cs

  -- At most 25 candidates, and no snippet twice.
  abbrev pub Distinct : List (ExtractedCandidate F) → Type 0
  Distinct cs = (length cs ≤ rule_limit) × Unrepeated (snippet_keys cs)

  -- What the loop keeps: room for one more, and each snippet taken has been noted.
  record Taken (seen : List String) (out : List (ExtractedCandidate F)) : Type 0 where
    room : length out < rule_limit
    fresh : Unrepeated (snippet_keys out)
    noted : (t : String) → mem_text t seen ≡ false → mem_text t (snippet_keys out) ≡ false
