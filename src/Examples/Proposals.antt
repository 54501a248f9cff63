-- ===== src/Examples/Proposals.antt =====
-- Runs of the comparison of a proposal with decisions.
use tuskbase.App.Auth.{
  actor_is_empty, actors_match, apply_principal_actor, can_read, can_write, require_read,
  require_write,
}
use tuskbase.App.Lookup.{lookup, decisions_for_results}
use tuskbase.App.Preflight.{preflight, PreflightInput, PreflightOutput, relate_each}
use tuskbase.App.Relationship.Classify.{
  classify_proposal, DecisionProposalRelation, classify_decision_relation, best_match,
}
use tuskbase.App.Relationship.Spans.{
  assertion_spans, decision_assertion_text, subject_phrase, supersede_cue, reconcile_cue,
}
use tuskbase.App.Remember.{relationship_reason, save_conflicts}
use tuskbase.App.Service.{
  is_decision_bound_result, clamp, round2, severity_for_confidence, default_limit, bounded_limit,
}
use tuskbase.App.Tokens.{important_subject_tokens, object_tokens, scope_tokens}
use tuskbase.Common.{
  is_blank, mem_text, contains, error_text, join, quote, sort_stable, split_at, trim, Result, ℕ,
  String, ◌≡◌, refl, List, [], ◌∷◌, ◌++◌, Accepted, count_if, length, ◌↔◌, true, false, All, OneOf,
  to_lower, le, hundredths, ◌&&◌, pure-eq-ok,
}
use tuskbase.Domain.Parse.{
  parse_actor_kind, parse_conflict_severity, parse_conflict_status, parse_decision_status,
  conflicts, reconciles, supersedes,
}
use tuskbase.Domain.Types.{is_active, Decision, Conflict}
use tuskbase.Domain.Validate.{validate_conflict}
use tuskbase.Examples.World.{
  hundredth_float, World, world, log, world-ConflictLog, writer, outcome, outcome_lem, kafka, hit,
}
use tuskbase.App.Relationship.Classify.Cases.{
  cued, classify_decision_relation-cues, Reaches, classify_decision_relation-conflicts,
}
use tuskbase.App.Lookup.Candidates.{RecentAreOwn, IsGood, decisions_for_results-IsGood}
use tuskbase.App.Preflight.Flags.{is_conflict, flagged, against, ids, relate_each-flagged}
use tuskbase.App.Preflight.Counts.{preflight-counts}
use tuskbase.Domain.Parse.Canonical.{relationship_types}
use mathlib.Core.Path.{subst}

abbrev plan : String
plan = "never use kafka for billing events"

classify_decision_relation-conflicts_example :
    let best = best_match plan kafka in
    let lower = to_lower plan in
    ((classify_decision_relation plan kafka).type ≡ conflicts) ↔ (
      (best.opposing_stance ≡ true)
      × Reaches best 50
      × (best.scope_diverges ≡ false)
      × ((reconcile_cue lower && le (hundredths 25) best.score) ≡ false)
      × ((supersede_cue lower && le (hundredths 35) best.score) ≡ false))
classify_decision_relation-conflicts_example = classify_decision_relation-conflicts plan kafka

world-RecentAreOwn : RecentAreOwn world
world-RecentAreOwn w n s t ds h =
    subst (λ l. All (λ (d : Decision ℕ). d.workspace_id ≡ w) l)
      (pure-eq-ok (record kafka { workspace_id = w } ∷ []) ds s t h).0 (refl, tt)

abbrev candidates : Result (List (Decision ℕ)) × World
candidates = decisions_for_results world "w" (hit ∷ []) 2 []

candidates-ok : Accepted candidates.0
unfolding actor_is_empty actors_match apply_principal_actor bounded_limit decisions_for_results
    is_active is_blank is_decision_bound_result mem_text parse_actor_kind to_lower
candidates-ok = tt

decisions_for_results-IsGood_example :
    IsGood "w" (bounded_limit 2 default_limit) (outcome candidates candidates-ok).0
decisions_for_results-IsGood_example =
    decisions_for_results-IsGood world "w" (hit ∷ []) 2 [] (outcome candidates candidates-ok).0
      (outcome candidates candidates-ok).1 world-RecentAreOwn (outcome_lem candidates candidates-ok)

classify_decision_relation-cues_example :
    let best = best_match plan kafka in
    let lower = to_lower plan in
    let type = (classify_decision_relation plan kafka).type in
    OneOf relationship_types type
    × ((type ≡ reconciles) ↔ (cued reconcile_cue 25 lower best ≡ true))
    × ((type ≡ supersedes)
        ↔ ((cued reconcile_cue 25 lower best ≡ false) × (cued supersede_cue 35 lower best ≡ true)))
classify_decision_relation-cues_example = classify_decision_relation-cues plan kafka

abbrev related : Result (List (DecisionProposalRelation ℕ) × List (Conflict ℕ)) × World
related = relate_each world "w" plan (kafka ∷ []) []

related-ok : Accepted related.0
unfolding assertion_spans clamp classify_proposal contains decision_assertion_text error_text
    important_subject_tokens is_blank join mem_text object_tokens parse_conflict_severity
    parse_conflict_status parse_decision_status quote reconcile_cue relate_each relationship_reason
    round2 save_conflicts scope_tokens severity_for_confidence sort_stable split_at subject_phrase
    supersede_cue to_lower trim validate_conflict
related-ok = tt

relate_each-flagged_example :
    let (relations, opened) = (outcome related related-ok).0 in
    (ids relations ≡ "d1" ∷ [])
    × (against opened ≡ flagged relations)
    × (log (outcome related related-ok).1 ≡ log [] ++ opened)
relate_each-flagged_example =
    relate_each-flagged world log world-ConflictLog "w" plan (kafka ∷ []) []
      (outcome related related-ok).0.0 (outcome related related-ok).0.1
      (outcome related related-ok).1 (outcome_lem related related-ok)

abbrev asked : PreflightInput
asked = record { workspace_id = "w"; proposal = plan; limit = 2 }

abbrev flown : Result (PreflightOutput ℕ) × World
flown = preflight world writer asked []

flown-ok : Accepted flown.0
unfolding actor_is_empty actors_match apply_principal_actor assertion_spans bounded_limit can_read
    can_write clamp classify_proposal contains decision_assertion_text decisions_for_results
    error_text important_subject_tokens is_active is_blank is_decision_bound_result join lookup
    mem_text object_tokens parse_actor_kind parse_conflict_severity parse_conflict_status
    parse_decision_status preflight quote reconcile_cue relationship_reason require_read
    require_write round2 save_conflicts scope_tokens severity_for_confidence sort_stable split_at
    subject_phrase supersede_cue to_lower trim validate_conflict
flown-ok = tt

preflight-counts_example :
    let out = (outcome flown flown-ok).0 in
    length out.conflicts ≡ count_if is_conflict out.relationships
preflight-counts_example =
    preflight-counts world writer asked [] (outcome flown flown-ok).0 (outcome flown flown-ok).1
      (outcome_lem flown flown-ok)
