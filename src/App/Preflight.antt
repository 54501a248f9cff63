-- ===== src/App/Preflight.antt =====
-- `Preflight` of internal/app/service.go.
pub mod Flags
pub mod Counts
use tuskbase.Common.{
  ℕ, String, Bool, ◌==◌, if◌then◌else◌, List, [], ◌∷◌, ◌++◌, sort_stable, trim_space, is_blank, ok,
  message, fail_if, none, Exec, pure, lift, call, ◌>>=◌, ◌>>◌, Float64, lt,
}
use tuskbase.Domain.Parse.{conflicts, conflict_open}
use tuskbase.Domain.Types.{Time, Decision, Conflict}
use tuskbase.Domain.Validate.{validate_conflict}
use tuskbase.App.Auth.{Context, require_write}
use tuskbase.App.Service.{Service, severity_for_confidence}
use tuskbase.App.Relationship.Classify.{DecisionProposalRelation, classify_proposal}
use tuskbase.App.Lookup.{LookupOutput, lookup, decisions_for_results}

pub record PreflightInput : Type 0 where
  pub workspace_id : String
  pub proposal : String
  pub limit : ℕ

pub record PreflightOutput (F : Type 0) : Type 0 where
  pub lookup : LookupOutput F
  pub relationships : List (DecisionProposalRelation F)
  pub conflicts : List (Conflict F)

module _ {F : Type 0} ⦃fl : Float64 F⦄ where
  unfoldable pub more_confident : DecisionProposalRelation F → DecisionProposalRelation F → Bool
  more_confident a b = lt b.confidence a.confidence

  proposal_conflict :
      String → String → Decision F → DecisionProposalRelation F → String → Time → Conflict F
  proposal_conflict workspace_id proposal d relation id now = record {
    id = id;
    workspace_id = workspace_id;
    decision_id = "";
    proposal = trim_space proposal;
    conflicting_with_id = d.id;
    summary = relation.reason;
    severity = severity_for_confidence relation.confidence;
    confidence = relation.confidence;
    status = conflict_open;
    created_at = now;
    resolved_at = none;
  }

module _ {F S : Type 0} ⦃fl : Float64 F⦄ (svc : Service F S) where
  save_proposal_conflict :
      String → String → Decision F → DecisionProposalRelation F → Exec S (List (Conflict F))
  unfolding proposal_conflict
  save_proposal_conflict workspace_id proposal d relation = do
    id ← call svc.ids
    now ← call svc.clock
    let conflict = proposal_conflict workspace_id proposal d relation id now
    lift (validate_conflict conflict)
    svc.store.save_conflict conflict
    pure (conflict ∷ [])

  -- The relations of the proposal to each decision, and the conflicts that were saved for them.
  unfoldable pub relate_each :
      String
      → String
      → List (Decision F)
      → Exec S (List (DecisionProposalRelation F) × List (Conflict F))
  unfolding save_proposal_conflict
  relate_each workspace_id proposal [] = pure ([], [])
  relate_each workspace_id proposal (d ∷ ds) = do
    relation ← call (classify_proposal svc workspace_id proposal d)
    opened ←
        (if relation.type == conflicts
          then save_proposal_conflict workspace_id proposal d relation
          else pure [])
    (relations, more) ← relate_each workspace_id proposal ds
    pure (relation ∷ relations, opened ++ more)

  unfoldable pub preflight : Context → PreflightInput → Exec S (PreflightOutput F)
  unfolding relate_each more_confident
  preflight ctx input = do
    lift (require_write ctx)
    let workspace_id = trim_space input.workspace_id
    lift (fail_if (is_blank input.proposal) (message "proposal is required") (ok tt))
    found ←
        lookup svc ctx
          (record { workspace_id = workspace_id; query = input.proposal; limit = input.limit })
    decisions ← decisions_for_results svc workspace_id found.results input.limit
    (relations, opened) ← relate_each workspace_id input.proposal decisions
    pure (record {
      lookup = found;
      relationships = sort_stable more_confident relations;
      conflicts = opened;
    })
