-- ===== src/App/Briefing/Advice.antt =====
-- The states and the actions that a briefing reports: internal/app/service.go. They read only the
-- number of documents, the completeness of the active decisions and the number of open conflicts.
pub mod Agreement
use tuskbase.Common.{
  ℕ, String, Bool, ◌&&◌, ltb, eqb, if◌then◌else◌, List, [], ◌∷◌, ◌++◌, length, any, count_if, ◌⧺◌,
  decimal, Float64, lt, hundredths,
}

pub record ContextDegraded : Type 0 where
  pub code : String
  pub severity : String
  pub detail : String

-- `if test { states = append(states, state) }`
abbrev pub when : {A : Type 0} → Bool → A → List A
when test a = if test then a ∷ [] else []

module _ {F : Type 0} ⦃fl : Float64 F⦄ where
  unfoldable pub is_thin : F → Bool
  is_thin score = lt (hundredths 0) score && lt score (hundredths 55)

  unfoldable pub has_low_completeness : List F → Bool
  unfolding is_thin
  has_low_completeness scores = any is_thin scores

  unfoldable pub context_degraded_states : ℕ → List F → ℕ → List ContextDegraded
  unfolding is_thin
  context_degraded_states docs scores conflicts =
      let thin = count_if is_thin scores in
      when (eqb docs 0) (record {
        code = "repo_docs_missing";
        severity = "warning";
        detail = "No repo documents are attached for this workspace.";
      })
      ++ when (eqb (length scores) 0) (record {
        code = "no_active_decisions";
        severity = "info";
        detail = "No active decisions are recorded for this workspace.";
      })
      ++ when (ltb 0 conflicts) (record {
        code = "open_conflicts";
        severity = "warning";
        detail =
            decimal conflicts
            ⧺ " open conflict(s) need review before relying on affected decisions.";
      })
      ++ when (ltb 0 thin) (record {
        code = "low_completeness";
        severity = "info";
        detail = decimal thin ⧺ " active decision(s) have low completeness.";
      })

  unfoldable pub context_recommended_next_actions : ℕ → List F → ℕ → List String
  unfolding has_low_completeness
  context_recommended_next_actions docs scores conflicts =
      when (eqb docs 0) "Run tuskbase_attach for this repo before relying on repo document context."
      ++ when (ltb 0 conflicts) "Review open conflicts before relying on affected decisions."
      ++ (if eqb (length scores) 0
          then "Use tuskbase_remember after the work to record durable decisions worth preserving."
          else "Use tuskbase_lookup with the task-specific question before editing, then cite the lookup receipt when reporting what context you used.")
        ∷ when (has_low_completeness scores)
            "Enrich low-completeness active decisions with rationale, evidence, alternatives, claims, or supersedes links before treating them as strong precedent."
      ++ "Use tuskbase_preflight before meaningful plans and report whether the plan follows, extends, duplicates, supersedes, or conflicts."
        ∷ "Use tuskbase_remember only for completed decisions with rationale, evidence, alternatives, claims, and supersedes links."
        ∷ []
