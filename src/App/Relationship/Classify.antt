-- ===== src/App/Relationship/Classify.antt =====
-- `classifyDecisionRelation` and `classifyProposal` of internal/app/relationship.go.
pub mod Cases
pub mod Effects
use tuskbase.Common.{
  ℕ, String, Bool, not, ◌&&◌, ◌==◌, if◌then◌else◌, Option, none, some, List, [], ◌∷◌, ◌++◌, Result,
  ok, err, error_text, to_lower, trim_space, is_blank, join, quote, ◌⧺◌, Float64, same, lt, le, add,
  mul, neg, hundredths,
}
use tuskbase.Domain.Parse.{
  RelationshipType, follows, extends, duplicates, supersedes, conflicts, reconciles,
}
use tuskbase.Domain.Types.{Decision}
use tuskbase.Ports.{
  RelationshipSignal, RelationshipValidator, RelationshipValidationRequest,
  RelationshipValidationResult,
}
use tuskbase.App.Tokens.{important_subject_tokens}
use tuskbase.App.Service.{Service, clamp, round2}
use tuskbase.App.Relationship.Spans.{
  AssertionSpan, assertion_spans, decision_assertion_text, shared_subject, subject_phrase,
  supersede_cue, reconcile_cue, RelationMatch, token_overlap, no_match, compare_assertions,
}

pub record DecisionProposalRelation (F : Type 0) : Type 0 where
  pub decision_id : String
  pub type : RelationshipType
  pub confidence : F
  pub reason : String
  pub subject : String
  pub evidence : List (RelationshipSignal F)

-- What a classification says besides its evidence.
pub record Verdict (F : Type 0) : Type 0 where
  pub type : RelationshipType
  pub confidence : F
  pub reason : String

module _ {F : Type 0} ⦃fl : Float64 F⦄ where
  abbrev better : RelationMatch F → RelationMatch F → RelationMatch F
  better best found = if lt best.score found.score then found else best

  best_with : AssertionSpan → List AssertionSpan → RelationMatch F → RelationMatch F
  best_with p [] best = best
  best_with p (d ∷ ds) best = best_with p ds (better best (compare_assertions p d))

  unfoldable pub best_of :
      List AssertionSpan → List AssertionSpan → RelationMatch F → RelationMatch F
  unfolding best_with
  best_of [] ds best = best
  best_of (p ∷ ps) ds best = best_of ps ds (best_with p ds best)

  -- The best pair of assertions, or the overlap of the whole texts where no pair shares a subject.
  unfoldable pub best_match : String → Decision F → RelationMatch F
  unfolding best_of compare_assertions token_overlap shared_subject
  best_match proposal d =
      let text = decision_assertion_text d in
      let best = best_of (assertion_spans proposal) (assertion_spans text) no_match in
      if same best.score (hundredths 0)
      then record no_match {
        score = token_overlap proposal text;
        subject =
            shared_subject (important_subject_tokens proposal) (important_subject_tokens text);
      }
      else best

  signal : String → String → F → RelationshipSignal F
  signal name detail weight = record { name = name; detail = detail; weight = weight }

  signal_if : Bool → RelationshipSignal F → List (RelationshipSignal F)
  signal_if test s = if test then s ∷ [] else []

  match_evidence : RelationMatch F → List (RelationshipSignal F)
  unfolding signal signal_if
  match_evidence best =
      signal "subject_overlap" ("Shared subject terms: " ⧺ join best.subject ", ") best.score
      ∷ (signal_if best.opposing_stance (
            signal "opposing_stance"
              "The proposal and active decision use opposing action cues for the same subject."
              (hundredths 35))
          ++ signal_if best.scope_diverges (
              signal "scope_distinction"
                "Shared terms appear in different scopes or different selected mechanisms, reducing conflict confidence."
                (neg (hundredths 30))))

  -- `clamp(base/100 + score*slope/100)`
  scaled : ℕ → ℕ → F → F
  scaled base slope score = clamp (add (hundredths base) (mul score (hundredths slope)))

  -- The switch, on the proposal in lower case.
  unfoldable pub verdict_for : String → RelationMatch F → Decision F → Verdict F
  unfolding scaled
  verdict_for lower best d =
      let at_least = λ (n : ℕ). le (hundredths n) best.score in
      if reconcile_cue lower && at_least 25
      then record {
        type = reconciles;
        confidence = scaled 55 35 best.score;
        reason =
            "Proposal appears to reconcile prior direction around "
            ⧺ subject_phrase best.subject d.title
            ⧺ ".";
      }
      else if supersede_cue lower && at_least 35
      then record {
        type = supersedes;
        confidence = scaled 58 35 best.score;
        reason = "Proposal appears to replace or retire active decision " ⧺ quote d.title ⧺ ".";
      }
      else if best.opposing_stance && at_least 50 && not best.scope_diverges
      then record {
        type = conflicts;
        confidence = scaled 68 27 best.score;
        reason =
            "Proposal takes the opposite stance from active decision "
            ⧺ quote d.title
            ⧺ " for "
            ⧺ subject_phrase best.subject "the same subject"
            ⧺ ".";
      }
      else if at_least 78 && best.same_stance
      then record {
        type = duplicates;
        confidence = scaled 55 40 best.score;
        reason = "Proposal substantially restates an active decision.";
      }
      else if at_least 35
      then record {
        type = extends;
        confidence = scaled 35 45 best.score;
        reason =
            "Proposal shares subject matter with an active decision without a deterministic conflict.";
      }
      else record {
        type = follows;
        confidence = hundredths 35;
        reason = "No deterministic conflict found against this active decision.";
      }

  unfoldable pub classify_decision_relation : String → Decision F → DecisionProposalRelation F
  unfolding best_match match_evidence verdict_for
  classify_decision_relation proposal d =
      let best = best_match proposal d in
      let verdict = verdict_for (to_lower proposal) best d in
      record {
        decision_id = d.id;
        type = verdict.type;
        confidence = round2 verdict.confidence;
        reason = verdict.reason;
        subject = join best.subject ", ";
        evidence = match_evidence best;
      }

  adjusted :
      DecisionProposalRelation F → RelationshipValidationResult F → DecisionProposalRelation F
  unfolding signal
  adjusted relation v =
      let confidence =
        if lt (hundredths 0) v.confidence then clamp v.confidence else relation.confidence in
      record relation {
        type = if v.relation == "" then relation.type else v.relation;
        confidence = confidence;
        reason = if is_blank v.reason then relation.reason else trim_space v.reason;
        evidence =
            relation.evidence
            ++ signal "validator"
                "Relationship validator confirmed or adjusted the deterministic classification."
                confidence
              ∷ [];
      }

  unfoldable pub apply_validation :
      DecisionProposalRelation F
      → Result (RelationshipValidationResult F)
      → DecisionProposalRelation F
  unfolding signal adjusted
  apply_validation relation (err e) = record relation {
    evidence =
        relation.evidence ++ signal "validator_unavailable" (error_text e) (hundredths 0) ∷ [];
  }
  apply_validation relation (ok v) = adjusted relation v

module _ {F S : Type 0} ⦃fl : Float64 F⦄ where
  validate_with :
      Option (RelationshipValidator F S)
      → String
      → String
      → Decision F
      → DecisionProposalRelation F
      → S
      → DecisionProposalRelation F × S
  validate_with none workspace_id proposal d relation s = (relation, s)
  validate_with (some validate) workspace_id proposal d relation s =
      let (answer, t) =
        validate
          (record {
            workspace_id = workspace_id;
            proposal = proposal;
            decision = d;
            relation = relation.type;
            evidence = relation.evidence;
          })
          s in
      (apply_validation relation answer, t)

  -- A classification never fails: without a validator, or where it fails, the deterministic one stands.
  unfoldable pub classify_proposal :
      Service F S → String → String → Decision F → S → DecisionProposalRelation F × S
  unfolding validate_with classify_decision_relation apply_validation
  classify_proposal svc workspace_id proposal d s =
      validate_with svc.validator workspace_id proposal d (classify_decision_relation proposal d) s
