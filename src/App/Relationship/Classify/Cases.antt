-- ===== src/App/Relationship/Classify/Cases.antt =====
-- When a proposal conflicts: the switch of internal/app/relationship.go.
use tuskbase.Common.{
  ℕ, String, Bool, OneOf, ◌≡◌, ◌↔◌, true, false, arith, eq_iff, ◌&&◌, to_lower, Float64, le,
  hundredths,
}
use tuskbase.Domain.Parse.{follows, extends, duplicates, supersedes, conflicts, reconciles}
use tuskbase.Domain.Parse.Canonical.{relationship_types}
use tuskbase.Domain.Types.{Decision}
use tuskbase.App.Relationship.Spans.{supersede_cue, reconcile_cue, RelationMatch}
use tuskbase.App.Relationship.Classify.{best_match, verdict_for, classify_decision_relation}

module _ {F : Type 0} ⦃fl : Float64 F⦄ where
  -- The match reaches a score of n/100.
  abbrev pub Reaches : RelationMatch F → ℕ → Type 0
  Reaches best n = le (hundredths n) best.score ≡ true

  verdict_for-conflicts :
      (lower : String) (best : RelationMatch F) (d : Decision F)
      → ((verdict_for lower best d).type ≡ conflicts) ↔ (
          (best.opposing_stance ≡ true)
          × Reaches best 50
          × (best.scope_diverges ≡ false)
          × ((reconcile_cue lower && le (hundredths 25) best.score) ≡ false)
          × ((supersede_cue lower && le (hundredths 35) best.score) ≡ false))
  unfolding verdict_for
  verdict_for-conflicts lower best d = ground (
    arith,
    eq_iff follows conflicts,
    eq_iff extends conflicts,
    eq_iff duplicates conflicts,
    eq_iff supersedes conflicts,
    eq_iff reconciles conflicts,
  )

  -- A proposal conflicts with a decision exactly when their best match takes opposing stances with a
  -- score of at least 0.5 and no divergence of scope, and the proposal is neither a reconciliation
  -- (by a cue, with a score of at least 0.25) nor a supersession (by a cue, with one of 0.35).
  pub classify_decision_relation-conflicts :
      (proposal : String) (d : Decision F)
      → let best = best_match proposal d in
        let lower = to_lower proposal in
        ((classify_decision_relation proposal d).type ≡ conflicts) ↔ (
          (best.opposing_stance ≡ true)
          × Reaches best 50
          × (best.scope_diverges ≡ false)
          × ((reconcile_cue lower && le (hundredths 25) best.score) ≡ false)
          × ((supersede_cue lower && le (hundredths 35) best.score) ≡ false))
  unfolding classify_decision_relation
  classify_decision_relation-conflicts proposal d =
      verdict_for-conflicts (to_lower proposal) (best_match proposal d) d

  abbrev pub cued : (String → Bool) → ℕ → String → RelationMatch F → Bool
  cued cue n lower best = cue lower && le (hundredths n) best.score

  verdict_for-cues :
      (lower : String) (best : RelationMatch F) (d : Decision F)
      → OneOf relationship_types (verdict_for lower best d).type
        × (((verdict_for lower best d).type ≡ reconciles)
            ↔ (cued reconcile_cue 25 lower best ≡ true))
        × (((verdict_for lower best d).type ≡ supersedes) ↔ (
            (cued reconcile_cue 25 lower best ≡ false) × (cued supersede_cue 35 lower best ≡ true)))
  unfolding verdict_for
  verdict_for-cues lower best d = ground (
    arith,
    eq_iff follows reconciles,
    eq_iff extends reconciles,
    eq_iff duplicates reconciles,
    eq_iff supersedes reconciles,
    eq_iff conflicts reconciles,
    eq_iff follows supersedes,
    eq_iff extends supersedes,
    eq_iff duplicates supersedes,
    eq_iff conflicts supersedes,
  )

  -- A proposal gets one of the six relationship types. It reconciles with a decision exactly when it
  -- has a reconciling cue and their best match a score of at least 0.25; it supersedes the decision
  -- exactly when it does not reconcile, has a superseding cue, and the score is at least 0.35.
  pub classify_decision_relation-cues :
      (proposal : String) (d : Decision F)
      → let best = best_match proposal d in
        let lower = to_lower proposal in
        let type = (classify_decision_relation proposal d).type in
        OneOf relationship_types type
        × ((type ≡ reconciles) ↔ (cued reconcile_cue 25 lower best ≡ true))
        × ((type ≡ supersedes) ↔ (
            (cued reconcile_cue 25 lower best ≡ false) × (cued supersede_cue 35 lower best ≡ true)))
  unfolding classify_decision_relation
  classify_decision_relation-cues proposal d =
      verdict_for-cues (to_lower proposal) (best_match proposal d) d
