-- ===== src/Examples/Workflows.antt =====
-- Runs of the workflows.
use tuskbase.App.Attach.{attach}
use tuskbase.App.Auth.{
  actor_is_empty, actors_match, apply_principal_actor, can_read, can_write, require_read,
  require_write,
}
use tuskbase.App.Briefing.{context}
use tuskbase.App.Briefing.Advice.{context_degraded_states, context_recommended_next_actions}
use tuskbase.App.Briefing.Documents.{summarize_documents, unique_document_count}
use tuskbase.App.Briefing.Trail.{context_supersessions}
use tuskbase.App.Completeness.{score_completeness}
use tuskbase.App.Lookup.{decisions_for_results, lookup, open_conflicts, recent, candidate_decisions}
use tuskbase.App.Preflight.{preflight}
use tuskbase.App.Relationship.Classify.{classify_proposal}
use tuskbase.App.Relationship.Spans.{
  assertion_spans, decision_assertion_text, reconcile_cue, subject_phrase, supersede_cue,
}
use tuskbase.App.Remember.{relationship_reason, save_conflicts, remember}
use tuskbase.App.Remember.Draft.{has_relationship}
use tuskbase.App.Service.{
  bounded_limit, clamp, context_limit, is_decision_bound_result, round2, severity_for_confidence,
}
use tuskbase.App.Tokens.{important_subject_tokens, object_tokens, scope_tokens, words}
use tuskbase.App.Workflows.Assess.{assess, AssessInput, AssessOutput}
use tuskbase.App.Workflows.Check.{check, CheckInput, CheckOutput}
use tuskbase.App.Workflows.Finish.{finish_change, FinishChangeInput, FinishChangeOutput}
use tuskbase.App.Workflows.Prepare.{prepare_change, PrepareChangeInput, PrepareChangeOutput}
use tuskbase.App.Workflows.Query.{decision_query, QueryInput}
use tuskbase.Common.{
  contains, decimal, error_text, is_blank, join, mem_text, quote, sort_stable, split_at, to_lower,
  trim, fields_count, Result, ℕ, ◌≡◌, refl, some, [], ◌∷◌, ok, Accepted, pos, ◌⊎◌, All, trim_space,
}
use tuskbase.Domain.Parse.{
  parse_actor_kind, parse_conflict_severity, parse_conflict_status, parse_decision_status,
  parse_relationship_type,
}
use tuskbase.Domain.Types.{is_active}
use tuskbase.Domain.Validate.{
  validate_conflict, validate_workspace, validate_assessment, validate_alternative,
  validate_decision, validate_relationship,
}
use tuskbase.Examples.World.{
  hundredth_float, World, world, repository, writer, reader, outcome, outcome_lem, agent,
}
use tuskbase.App.Workflows.Prepare.Verdicts.{NeedsPlan, Proceeds, Conflicts, prepare_change-cases}
use tuskbase.App.Workflows.Check.Verdicts.{Consistent, check-Consistent}
use tuskbase.App.Workflows.Assess.Outcomes.{Assesses, assess-Assesses}
use tuskbase.App.Workflows.Finish.Outcomes.{Skipped, Remembers, HasPath, finish_change-cases}
use tuskbase.Ports.{DecisionQuery}

abbrev change : PrepareChangeInput
change = record {
  repo_path = "/repo";
  display_name = "";
  task = "billing";
  plan = "never use kafka for billing events";
  limit = 3;
}

abbrev prepared : Result (PrepareChangeOutput ℕ) × World
prepared = prepare_change world repository writer change []

prepared-ok : Accepted prepared.0
unfolding actor_is_empty actors_match apply_principal_actor assertion_spans attach bounded_limit
    can_read can_write clamp classify_proposal contains context context_degraded_states
    context_limit context_recommended_next_actions context_supersessions decimal
    decision_assertion_text decisions_for_results error_text has_relationship
    important_subject_tokens is_active is_blank is_decision_bound_result join lookup mem_text
    object_tokens open_conflicts parse_actor_kind parse_conflict_severity parse_conflict_status
    parse_decision_status preflight prepare_change quote recent reconcile_cue relationship_reason
    require_read require_write round2 save_conflicts scope_tokens severity_for_confidence
    sort_stable split_at subject_phrase summarize_documents supersede_cue to_lower trim
    unique_document_count validate_conflict validate_workspace
prepared-ok = tt

prepare_change-cases_example :
    let out = (outcome prepared prepared-ok).0 in
    NeedsPlan (trim_space change.plan) out
    ⊎ Proceeds (trim_space change.plan) out
    ⊎ Conflicts (trim_space change.plan) out
prepare_change-cases_example =
    prepare_change-cases world repository writer change [] (outcome prepared prepared-ok).0
      (outcome prepared prepared-ok).1 (outcome_lem prepared prepared-ok)

abbrev proposal : CheckInput
proposal = record { workspace_id = "w"; proposal = "never use kafka for billing events"; limit = 0 }

abbrev checked : Result (CheckOutput ℕ) × World
checked = check world reader proposal []

checked-ok : Accepted checked.0
unfolding actor_is_empty actors_match apply_principal_actor assertion_spans bounded_limit can_read
    candidate_decisions check clamp classify_proposal contains decision_assertion_text error_text
    important_subject_tokens is_active is_blank is_decision_bound_result join mem_text object_tokens
    parse_actor_kind quote reconcile_cue require_read round2 scope_tokens severity_for_confidence
    sort_stable split_at subject_phrase supersede_cue to_lower trim
checked-ok = tt

check-Consistent_example : Consistent (outcome checked checked-ok).0
check-Consistent_example =
    check-Consistent world reader proposal [] (outcome checked checked-ok).0
      (outcome checked checked-ok).1 (outcome_lem checked checked-ok)

abbrev praise : AssessInput
praise = record {
  workspace_id = "w";
  decision_id = "d1";
  actor = record { kind = ""; name = "" };
  signal = "useful";
  score = pos 4;
  summary = "";
  metadata = [];
}

abbrev assessed : Result (AssessOutput ℕ) × World
assessed = assess world writer praise []

assessed-ok : Accepted assessed.0
unfolding actor_is_empty actors_match apply_principal_actor assess can_write is_blank
    parse_actor_kind require_write to_lower validate_assessment
assessed-ok = tt

assess-Assesses_example :
    Assesses world writer praise []
      (outcome assessed assessed-ok).0
      (outcome assessed assessed-ok).1
assess-Assesses_example =
    assess-Assesses world writer praise [] (outcome assessed assessed-ok).0
      (outcome assessed assessed-ok).1 (outcome_lem assessed assessed-ok)

abbrev ended : FinishChangeInput ℕ
ended = record {
  workspace_id = "w";
  summary = "Done.";
  changed_files =
      record { path = " main.go "; summary = "" } ∷ record { path = " "; summary = "none" } ∷ [];
  tests = record { command = "go test"; status = "ok"; output = "" } ∷ [];
  decision = some (record {
    workspace_id = "";
    actor = agent;
    type = "architecture";
    title = "Keep Kafka";
    outcome = "Keep Kafka";
    rationale = "";
    confidence = 80;
    status = "";
    valid_from = 0;
    alternatives = [];
    claims = [];
    evidence = [];
    relationships = [];
    precedent_ref = "";
    supersedes_id = "";
    metadata = [];
  });
}

abbrev finished : Result (FinishChangeOutput ℕ) × World
finished = finish_change world writer ended []

finished-ok : Accepted finished.0
unfolding actor_is_empty actors_match apply_principal_actor can_read can_write clamp error_text
    fields_count finish_change is_blank parse_actor_kind parse_conflict_severity
    parse_conflict_status parse_decision_status parse_relationship_type quote relationship_reason
    remember require_read require_write round2 score_completeness severity_for_confidence to_lower
    validate_alternative validate_conflict validate_decision validate_relationship words
finished-ok = tt

finish_change-cases_example :
    let out = (outcome finished finished-ok).0 in
    (Skipped ended out ⊎ Remembers world writer ended out (outcome finished finished-ok).1)
    × All HasPath out.changed_files
finish_change-cases_example =
    finish_change-cases world writer ended [] (outcome finished finished-ok).0
      (outcome finished finished-ok).1 (outcome_lem finished finished-ok)

abbrev question : QueryInput ℕ
question = record {
  workspace_id = "w";
  text = "kafka";
  type = "";
  status = " ";
  relationship_to = "";
  relationship_type = "Supersedes";
  min_confidence = 0;
  limit = 5000;
}

abbrev asked : DecisionQuery ℕ
asked = record {
  workspace_id = "w";
  text = "kafka";
  type = "";
  status = "";
  relationship_to = "";
  relationship_type = "supersedes";
  min_confidence = 0;
  limit = 1000;
}

asked-ok : decision_query question ≡ ok asked
unfolding bounded_limit decision_query is_blank parse_decision_status parse_relationship_type
    to_lower
asked-ok = refl
