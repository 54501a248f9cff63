-- ===== src/App/Import/Extract.antt =====
-- The extraction of decision candidates from a document in internal/app/importer.go.
pub mod Rules
use Prim.Native.Char.{Char, code}
use Prim.Native.String.{[], ◌∷◌, len}
use text.Mathlib.Text.{starts_with}
use tuskbase.Common.{
  ℕ, String, Bool, true, false, not, ◌&&◌, ◌||◌, ◌==◌, ◌⧺◌, leb, eqb, if◌then◌else◌, Option, none,
  some, List, [], ◌∷◌, ◌++◌, any, length, trim_space, trim, trim_end, trim_prefix, take_text,
  to_lower, contains, ends_with, fields, fields_count, join, split_at, is_blank, mem_text, Float64,
  hundredths,
}
use tuskbase.App.Import.Sentences.{
  normalize_snippet, ensure_sentence, title_from_snippet, candidate_sentences, decision_language,
  adr_status, first_meaningful_paragraph, extract_decision_sentence,
}

-- What is read of a document.
pub record ImportDocument : Type 0 where
  pub workspace_id : String
  pub path : String
  pub title : String
  pub content : String
  pub chunk_index : ℕ

pub record ExtractedCandidate (F : Type 0) : Type 0 where
  pub type : String
  pub title : String
  pub outcome : String
  pub rationale : String
  pub confidence : F
  pub source_snippet : String
  pub detector : String

-- What the importer takes from outside: `filepath.ToSlash(filepath.Clean(path))`,
-- `filepath.ToSlash(path)`, the base of a path without its extension, SHA-256 in hexadecimal, and the
-- JSON text of a string.
pub record Importing : Type 0 where
  pub clean_path : String → String
  pub to_slash : String → String
  pub base_stem : String → String
  pub sha256_hex : String → String
  pub json_text : String → String

abbrev pub rule_detector : String
rule_detector = "rule:v1"

abbrev pub adr_detector : String
adr_detector = "adr:v1"

unfoldable pub import_candidate_type : String → String → String
unfolding to_lower contains
import_candidate_type path snippet =
    let lower = to_lower (path ⧺ " " ⧺ snippet) in
    if contains lower "security" || contains lower "auth"
    then "security"
    else if contains lower "deploy" || contains lower "docker"
    then "deployment"
    else if contains lower "workflow" || contains lower "agent" || contains lower "rules"
    then "workflow"
    else "architecture"

unfoldable pub looks_like_adr : ImportDocument → Bool
unfolding to_lower contains
looks_like_adr doc =
    let text = to_lower (doc.title ⧺ "\n" ⧺ doc.content) in
    contains text "architecture decision record" || contains text "\nstatus:"

unfoldable pub is_adr_path : Importing → String → Bool
unfolding to_lower contains
is_adr_path files path =
    let lower = to_lower (files.to_slash path) in
    starts_with lower "adrs/" || contains lower "/adr/"

unfoldable pub is_import_source_path : Importing → String → Bool
unfolding to_lower trim_prefix ends_with contains
is_import_source_path files given =
    let lower = to_lower (trim_prefix (files.clean_path given) "./") in
    mem_text lower
      ("readme.md" ∷ "agents.md" ∷ "claude.md" ∷ ".github/copilot-instructions.md" ∷ [])
    || (starts_with lower "docs/" && ends_with lower ".md")
    || (starts_with lower "adrs/" && ends_with lower ".md")
    || starts_with lower ".cursor/rules"
    || starts_with lower ".windsurf/rules"
    || (not (contains lower "/") && ends_with lower ".md")

-- A status that says neither `accept` nor `approved` is not taken.
unfoldable pub is_open_status : String → Bool
unfolding to_lower contains
is_open_status status =
    not (status == "")
    && not (contains (to_lower status) "accept")
    && not (contains (to_lower status) "approved")

unfoldable pub adr_title : Importing → ImportDocument → String
unfolding trim_space
adr_title files doc =
    let title = trim_space doc.title in if title == "" then files.base_stem doc.path else title

unfoldable pub adr_outcome : String → String → String
adr_outcome sentence title = if sentence == "" then "Follow " ⧺ title ⧺ "." else sentence

-- The three tests that leave a sentence out.
unfoldable pub is_left_out : List String → String → Bool
unfolding decision_language normalize_snippet to_lower
is_left_out seen sentence =
    let snippet = normalize_snippet sentence in
    not (decision_language sentence) || snippet == "" || mem_text (to_lower snippet) seen

abbrev pub rule_limit : ℕ
rule_limit = 25

module _ {F : Type 0} ⦃fl : Float64 F⦄ where
  unfoldable pub confidence_for_source : Importing → String → F
  unfolding to_lower
  confidence_for_source files path =
      let lower = to_lower (files.to_slash path) in
      if starts_with lower ".cursor/rules"
        || starts_with lower ".windsurf/rules"
        || lower == "agents.md"
        || lower == "claude.md"
      then hundredths 70
      else if starts_with lower "adrs/"
      then hundredths 72
      else hundredths 64

  unfoldable pub extract_adr_candidate : Importing → ImportDocument → Option (ExtractedCandidate F)
  unfolding adr_status is_open_status first_meaningful_paragraph extract_decision_sentence adr_title
      adr_outcome
  extract_adr_candidate files doc =
      let title = adr_title files doc in
      let snippet = first_meaningful_paragraph doc.content in
      if is_open_status (adr_status doc.content) || snippet == ""
      then none
      else some (record {
        type = "architecture";
        title = title;
        outcome = adr_outcome (extract_decision_sentence doc.content) title;
        rationale =
            "Imported from an ADR-like document. Review before relying on it as canonical memory.";
        confidence = hundredths 72;
        source_snippet = snippet;
        detector = adr_detector;
      })

  unfoldable pub rule_candidate : Importing → ImportDocument → String → ExtractedCandidate F
  unfolding import_candidate_type title_from_snippet ensure_sentence confidence_for_source
  rule_candidate files doc snippet = record {
    type = import_candidate_type doc.path snippet;
    title = title_from_snippet snippet;
    outcome = ensure_sentence snippet;
    rationale =
        "Imported from explicit repo documentation or agent rules. Review before relying on it as canonical memory.";
    confidence = confidence_for_source files doc.path;
    source_snippet = snippet;
    detector = rule_detector;
  }

  -- The loop over the sentences; `seen` has the snippets taken so far in small letters.
  unfoldable pub collect_rules :
      Importing
      → ImportDocument
      → List String
      → List String
      → List (ExtractedCandidate F)
      → List (ExtractedCandidate F)
  unfolding is_left_out rule_candidate normalize_snippet to_lower
  collect_rules files doc [] seen out = out
  collect_rules files doc (s ∷ sentences) seen out = elim (is_left_out seen s) [
    | true ↦ collect_rules files doc sentences seen out
    | false ↦
        let snippet = normalize_snippet s in
        let next = out ++ rule_candidate files doc snippet ∷ [] in
        elim (leb rule_limit (length next)) [
          | true ↦ next
          | false ↦ collect_rules files doc sentences (to_lower snippet ∷ seen) next
        ]
  ]

  unfoldable pub extract_rule_candidates : Importing → ImportDocument → List (ExtractedCandidate F)
  unfolding collect_rules candidate_sentences
  extract_rule_candidates files doc =
      collect_rules files doc (candidate_sentences doc.content) [] []

  -- Without the cancellation of the context.
  unfoldable pub extract_candidates : Importing → ImportDocument → List (ExtractedCandidate F)
  unfolding is_adr_path looks_like_adr extract_adr_candidate extract_rule_candidates
  extract_candidates files doc =
      let rules = extract_rule_candidates files doc in
      if is_blank doc.content
      then []
      else if is_adr_path files doc.path || looks_like_adr doc
      then elim (extract_adr_candidate files doc) [ some c ↦ c ∷ [] | none ↦ rules ]
      else rules
