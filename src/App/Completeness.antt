-- ===== src/App/Completeness.antt =====
-- `scoreCompleteness` of internal/app/service.go.
use tuskbase.Common.{
  ℕ, String, Bool, not, ◌==◌, ◌&&◌, ◌||◌, List, [], ◌∷◌, ◌++◌, length, eqb, leb, ltb, if◌then◌else◌,
  is_blank, fields_count, Float64, lt, le, add, hundredths,
}
use tuskbase.Domain.Types.{Decision}
use tuskbase.App.Service.{clamp, round2}

abbrev is_empty : {A : Type 0} → List A → Bool
is_empty xs = eqb (length xs) 0

warn_if : Bool → String → List String
warn_if test text = if test then text ∷ [] else []

module _ {F : Type 0} ⦃fl : Float64 F⦄ where
  -- `score += n / 100` under a test.
  abbrev pub bump_if : Bool → ℕ → F → F
  bump_if test n score = if test then add score (hundredths n) else score

  -- The sum of the weights of what is present.
  unfoldable pub raw_score : Decision F → F
  raw_score d =
      let words = fields_count d.rationale in
      let named =
        bump_if (not (is_blank d.type) && not (is_blank d.title) && not (is_blank d.outcome)) 20
          (hundredths 0) in
      let reasoned =
        if leb 20 words
        then add named (hundredths 25)
        else if ltb 0 words
        then add named (hundredths 12)
        else named in
      let compared = bump_if (not (is_empty d.alternatives)) 15 reasoned in
      let supported = bump_if (not (is_empty d.evidence)) 20 compared in
      let confident =
        bump_if (lt (hundredths 0) d.confidence && le d.confidence (hundredths 100)) 10 supported in
      bump_if
        (not (d.precedent_ref == "")
          || not (d.supersedes_id == "")
          || not (is_empty d.relationships))
        10 confident

  unfoldable pub quality_warnings : Decision F → F → List String
  unfolding warn_if
  quality_warnings d score =
      let words = fields_count d.rationale in
      (if leb 20 words
        then []
        else if ltb 0 words
        then "Rationale is present but thin; future agents may not understand the tradeoff." ∷ []
        else "Rationale is missing; include the reasoning behind the decision." ∷ [])
      ++ (warn_if (is_empty d.alternatives)
            "Alternatives are missing; record at least one rejected option when possible."
          ++ (warn_if (is_empty d.evidence)
                "Evidence is missing; link code, docs, tests, issues, or snippets that support the decision."
              ++ (warn_if (le (hundredths 90) d.confidence && is_empty d.evidence && ltb words 20)
                    "High confidence without evidence or substantial rationale is weak precedent."
                  ++ warn_if (lt score (hundredths 55))
                      "Decision was stored with low completeness; enrich it before treating it as strong precedent.")))

  unfoldable pub score_completeness : Decision F → F × List String
  unfolding raw_score quality_warnings
  score_completeness d = let score = clamp (raw_score d) in (round2 score, quality_warnings d score)
