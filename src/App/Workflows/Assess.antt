-- ===== src/App/Workflows/Assess.antt =====
-- `Assess` of internal/app/workflows.go.
pub mod Outcomes
use tuskbase.Common.{
  String, ℤ, not, ◌==◌, trim_space, ok, message, fail_if, Exec, pure, lift, call, ◌>>=◌, ◌>>◌,
}
use tuskbase.Domain.Types.{Time, Metadata, Actor, Decision, Assessment}
use tuskbase.Domain.Validate.{validate_assessment}
use tuskbase.App.Auth.{Context, require_write, apply_principal_actor}
use tuskbase.App.Service.{Service}
use tuskbase.App.Lookup.{required}

pub record AssessInput : Type 0 where
  pub workspace_id : String
  pub decision_id : String
  pub actor : Actor
  pub signal : String
  pub score : ℤ
  pub summary : String
  pub metadata : Metadata

pub record AssessOutput (F : Type 0) : Type 0 where
  pub assessment : Assessment
  pub decision : Decision F

module _ {F S : Type 0} (svc : Service F S) where
  -- The decision that is assessed, which has to be one of the workspace.
  unfoldable pub own_decision : String → String → Exec S (Decision F)
  own_decision workspace_id decision_id = do
    d ← svc.store.get_decision decision_id
    lift (
        fail_if (not (d.workspace_id == workspace_id))
          (message "decision does not belong to workspace") (ok tt))
    pure d

  unfoldable pub save_assessed : Assessment → Decision F → Exec S (AssessOutput F)
  save_assessed a d = do
    lift (validate_assessment a)
    svc.store.save_assessment a
    pure (record { assessment = a; decision = d })

  unfoldable pub assess : Context → AssessInput → Exec S (AssessOutput F)
  unfolding own_decision save_assessed
  assess ctx input = do
    lift (require_write ctx)
    actor ← lift (apply_principal_actor ctx input.actor)
    let workspace_id = trim_space input.workspace_id
    let decision_id = trim_space input.decision_id
    lift (required workspace_id "workspace_id is required")
    lift (required decision_id "decision_id is required")
    d ← own_decision workspace_id decision_id
    id ← call svc.ids
    now ← call svc.clock
    let a : Assessment = record {
      id = id;
      workspace_id = workspace_id;
      decision_id = decision_id;
      actor = actor;
      signal = trim_space input.signal;
      score = input.score;
      summary = trim_space input.summary;
      metadata = input.metadata;
      created_at = now;
    }
    save_assessed a d
