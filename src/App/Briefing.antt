-- ===== src/App/Briefing.antt =====
-- `Context` of internal/app/service.go: the briefing of a workspace.
pub mod Documents
pub mod Trail
pub mod Advice
use tuskbase.Common.{
  ℕ, String, ◌==◌, none, Option, if◌then◌else◌, List, map, length, trim_space, ok, message, fail_if,
  Exec, pure, lift, call, ◌>>=◌, ◌>>◌, Float64,
}
use tuskbase.Domain.Parse.{ConflictSeverity}
use tuskbase.Domain.Types.{Time, RepoDocument, Workspace, Decision, Conflict}
use tuskbase.App.Auth.{Context, require_read}
use tuskbase.App.Service.{Service, context_document_scan_limit, context_limit}
use tuskbase.App.Lookup.{required}
use tuskbase.App.Briefing.Documents.{ContextDocument, summarize_documents, unique_document_count}
use tuskbase.App.Briefing.Trail.{ContextSupersession, context_supersessions}
use tuskbase.App.Briefing.Advice.{
  ContextDegraded, context_degraded_states, context_recommended_next_actions,
}

pub record ContextInput : Type 0 where
  pub workspace_id : String
  pub limit : ℕ

pub record ContextWorkspace : Type 0 where
  pub id : String
  pub repo_root : String
  pub display_name : String
  pub repo_fingerprint : String
  pub detected_doc_count : ℕ
  pub repo_documents : List ContextDocument
  pub updated_at : Time

pub record ContextDecision (F : Type 0) : Type 0 where
  pub id : String
  pub type : String
  pub title : String
  pub outcome : String
  pub confidence : F
  pub completeness_score : F
  pub claim_count : ℕ
  pub evidence_count : ℕ
  pub supersedes_id : String
  pub valid_from : Time

pub record ContextConflict (F : Type 0) : Type 0 where
  pub id : String
  pub decision_id : String
  pub proposal : String
  pub conflicting_with_id : String
  pub summary : String
  pub severity : ConflictSeverity
  pub confidence : F
  pub created_at : Time

pub record ContextOutput (F : Type 0) : Type 0 where
  pub workspace : ContextWorkspace
  pub active_decisions : List (ContextDecision F)
  pub open_conflicts : List (ContextConflict F)
  pub recent_supersessions : List ContextSupersession
  pub degraded_states : List ContextDegraded
  pub recommended_next_actions : List String
  pub generated_at : Time

context_workspace : Workspace → List RepoDocument → ℕ → ContextWorkspace
context_workspace workspace docs limit = record {
  id = workspace.id;
  repo_root = workspace.repo_root;
  display_name = workspace.display_name;
  repo_fingerprint = workspace.repo_fingerprint;
  detected_doc_count = unique_document_count docs;
  repo_documents = summarize_documents docs limit;
  updated_at = workspace.updated_at;
}

module _ {F : Type 0} where
  context_decision : Decision F → ContextDecision F
  context_decision d = record {
    id = d.id;
    type = d.type;
    title = d.title;
    outcome = d.outcome;
    confidence = d.confidence;
    completeness_score = d.completeness_score;
    claim_count = length d.claims;
    evidence_count = length d.evidence;
    supersedes_id = d.supersedes_id;
    valid_from = d.valid_from;
  }

  context_conflict : Conflict F → ContextConflict F
  context_conflict c = record {
    id = c.id;
    decision_id = c.decision_id;
    proposal = c.proposal;
    conflicting_with_id = c.conflicting_with_id;
    summary = c.summary;
    severity = c.severity;
    confidence = c.confidence;
    created_at = c.created_at;
  }

module _ {F S : Type 0} ⦃fl : Float64 F⦄ (svc : Service F S) where
  unfoldable pub context : Context → ContextInput → Exec S (ContextOutput F)
  unfolding context_workspace context_decision context_conflict
  context ctx input = do
    lift (require_read ctx)
    let workspace_id = trim_space input.workspace_id
    lift (required workspace_id "workspace_id is required")
    let limit = context_limit input.limit
    workspace ← svc.store.get_workspace workspace_id
    docs ← svc.store.list_workspace_documents workspace_id context_document_scan_limit
    decisions ← svc.store.recent_decisions workspace_id limit
    conflicts ← svc.store.list_open_conflicts workspace_id
    trail ← call (context_supersessions svc.store limit decisions)
    now ← call svc.clock
    let count = unique_document_count docs
    let scores = map (λ (d : Decision F). d.completeness_score) decisions
    pure (record {
      workspace = context_workspace workspace docs limit;
      active_decisions = map context_decision decisions;
      open_conflicts = map context_conflict conflicts;
      recent_supersessions = trail;
      degraded_states = context_degraded_states count scores (length conflicts);
      recommended_next_actions = context_recommended_next_actions count scores (length conflicts);
      generated_at = now;
    })
