-- ===== src/App/Workflows/Check.antt =====
-- `Check` of internal/app/workflows.go.
pub mod Verdicts
use tuskbase.Common.{
  ℕ, String, Bool, true, false, not, ◌==◌, eqb, if◌then◌else◌, List, [], ◌∷◌, ◌++◌, length,
  trim_space, Exec, pure, lift, call, ◌>>=◌, ◌>>◌, Float64,
}
use tuskbase.Domain.Parse.{ConflictSeverity, conflicts}
use tuskbase.Domain.Types.{Time, Decision}
use tuskbase.App.Auth.{Context, require_read}
use tuskbase.App.Service.{Service, severity_for_confidence}
use tuskbase.App.Lookup.{required, candidate_decisions}
use tuskbase.App.Relationship.Classify.{DecisionProposalRelation, classify_proposal}

pub record CheckInput : Type 0 where
  pub workspace_id : String
  pub proposal : String
  pub limit : ℕ

pub record ConflictPreview (F : Type 0) : Type 0 where
  pub decision_id : String
  pub title : String
  pub summary : String
  pub severity : ConflictSeverity
  pub confidence : F

pub record CheckOutput (F : Type 0) : Type 0 where
  pub relationships : List (DecisionProposalRelation F)
  pub conflicts : List (ConflictPreview F)
  pub can_proceed : Bool
  pub next_actions : List String
  pub checked_at : Time

module _ {F : Type 0} ⦃fl : Float64 F⦄ where
  unfoldable pub preview : Decision F → DecisionProposalRelation F → ConflictPreview F
  preview d relation = record {
    decision_id = d.id;
    title = d.title;
    summary = relation.reason;
    severity = severity_for_confidence relation.confidence;
    confidence = relation.confidence;
  }

  unfoldable pub add_relation :
      Decision F → DecisionProposalRelation F → CheckOutput F → CheckOutput F
  unfolding preview
  add_relation d relation out =
      let related = record out { relationships = out.relationships ++ relation ∷ [] } in
      if relation.type == conflicts
      then (record related {
        can_proceed = false;
        conflicts = out.conflicts ++ preview d relation ∷ [];
      })
      else related

  unfoldable pub advise : CheckOutput F → CheckOutput F
  advise out = record out {
    next_actions =
        (if out.can_proceed
          then []
          else "Resolve or reconcile conflicting active decisions before proceeding." ∷ [])
        ++ (if eqb (length out.relationships) 0
            then "No active decision candidates were found; use tuskbase_lookup for broader repo context if the task is not purely mechanical."
              ∷ []
            else []);
  }

module _ {F S : Type 0} ⦃fl : Float64 F⦄ (svc : Service F S) where
  unfoldable pub check_decisions :
      String → String → List (Decision F) → CheckOutput F → S → CheckOutput F × S
  unfolding add_relation
  check_decisions workspace_id proposal [] out s = (out, s)
  check_decisions workspace_id proposal (d ∷ ds) out s =
      let (relation, t) = classify_proposal svc workspace_id proposal d s in
      check_decisions workspace_id proposal ds (add_relation d relation out) t

  unfoldable pub check : Context → CheckInput → Exec S (CheckOutput F)
  unfolding check_decisions advise
  check ctx input = do
    lift (require_read ctx)
    let workspace_id = trim_space input.workspace_id
    let proposal = trim_space input.proposal
    lift (required workspace_id "workspace_id is required")
    lift (required proposal "proposal is required")
    svc.store.get_workspace workspace_id
    decisions ← candidate_decisions svc workspace_id proposal input.limit
    now ← call svc.clock
    let start : CheckOutput F = record {
      relationships = [];
      conflicts = [];
      can_proceed = true;
      next_actions = [];
      checked_at = now;
    }
    out ← call (check_decisions workspace_id proposal decisions start)
    pure (advise out)
