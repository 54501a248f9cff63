-- ===== src/Ports.antt =====
-- The boundaries of the application: internal/ports/ports.go and the `Store` interface of
-- internal/app/service.go. `S` is the state of what lies behind them. A limit is a number, since
-- every test of one is `limit <= 0` or `limit > n`: a negative limit behaves as 0.
use tuskbase.Common.{ℕ, String, Bool, List, Option, Exec}
use tuskbase.Domain.Parse.{RelationshipType, ConflictStatus, DecisionStatus, CandidateStatus}
use tuskbase.Domain.Types.{
  Time, RepoDocument, Workspace, Decision, DecisionCandidate, LookupReceipt, Assessment, Conflict,
  ConflictResolution,
}

pub record DecisionQuery (F : Type 0) : Type 0 where
  pub workspace_id : String
  pub text : String
  pub type : String
  pub status : DecisionStatus
  pub relationship_to : String
  pub relationship_type : RelationshipType
  pub min_confidence : F
  pub limit : ℕ

pub record DecisionCandidateQuery : Type 0 where
  pub workspace_id : String
  pub status : CandidateStatus
  pub all_statuses : Bool
  pub limit : ℕ

pub record DecisionCandidateStatusUpdate : Type 0 where
  pub id : String
  pub workspace_id : String
  pub status : CandidateStatus
  pub accepted_decision_id : String
  pub rejection_summary : String
  pub updated_at : Time

pub record AssessmentQuery : Type 0 where
  pub workspace_id : String
  pub decision_id : String
  pub limit : ℕ

pub record ConflictQuery : Type 0 where
  pub workspace_id : String
  pub status : ConflictStatus
  pub limit : ℕ

pub record RelationshipSignal (F : Type 0) : Type 0 where
  pub name : String
  pub detail : String
  pub weight : F

pub record RelationshipValidationRequest (F : Type 0) : Type 0 where
  pub workspace_id : String
  pub proposal : String
  pub decision : Decision F
  pub relation : RelationshipType
  pub evidence : List (RelationshipSignal F)

pub record RelationshipValidationResult (F : Type 0) : Type 0 where
  pub relation : RelationshipType
  pub confidence : F
  pub reason : String

pub record SearchQuery : Type 0 where
  pub workspace_id : String
  pub query : String
  pub limit : ℕ

pub record SearchResult (F : Type 0) : Type 0 where
  pub kind : String
  pub entity_id : String
  pub workspace_id : String
  pub title : String
  pub path : String
  pub snippet : String
  pub score : F

pub record VectorRecord (V : Type 0) : Type 0 where
  pub workspace_id : String
  pub kind : String
  pub entity_id : String
  pub title : String
  pub path : String
  pub text : String
  pub vector : Option V

pub record VectorQuery (V : Type 0) : Type 0 where
  pub workspace_id : String
  pub vector : V
  pub limit : ℕ

module _ (F S : Type 0) where
  pub record Store : Type 0 where
    pub upsert_workspace : Workspace → Exec S Workspace
    pub get_workspace : String → Exec S Workspace
    pub save_decision : Decision F → Exec S (Unit {0})
    pub get_decision : String → Exec S (Decision F)
    pub recent_decisions : String → ℕ → Exec S (List (Decision F))
    pub query_decisions : DecisionQuery F → Exec S (List (Decision F))
    pub upsert_decision_candidate : DecisionCandidate F → Exec S (DecisionCandidate F)
    pub get_decision_candidate : String → Exec S (DecisionCandidate F)
    pub list_decision_candidates : DecisionCandidateQuery → Exec S (List (DecisionCandidate F))
    pub update_decision_candidate_status :
        DecisionCandidateStatusUpdate → Exec S (DecisionCandidate F)
    pub replace_workspace_documents : String → List RepoDocument → Exec S (Unit {0})
    pub list_workspace_documents : String → ℕ → Exec S (List RepoDocument)
    pub save_lookup_receipt : LookupReceipt F → Exec S (Unit {0})
    pub save_assessment : Assessment → Exec S (Unit {0})
    pub list_assessments : AssessmentQuery → Exec S (List Assessment)
    pub save_conflict : Conflict F → Exec S (Unit {0})
    pub get_conflict : String → Exec S (Conflict F)
    pub list_open_conflicts : String → Exec S (List (Conflict F))
    pub list_conflicts : ConflictQuery → Exec S (List (Conflict F))
    pub resolve_conflict : String → ConflictStatus → Time → ConflictResolution → Exec S (Conflict F)

  pub record SearchIndex : Type 0 where
    pub index_decision : Decision F → Exec S (Unit {0})
    pub index_document : RepoDocument → Exec S (Unit {0})
    pub search : SearchQuery → Exec S (List (SearchResult F))

  pub record VectorStore (V : Type 0) : Type 0 where
    pub upsert_vector : VectorRecord V → Exec S (Unit {0})
    pub search_vector : VectorQuery V → Exec S (List (SearchResult F))

  abbrev pub RelationshipValidator : Type 0
  RelationshipValidator = RelationshipValidationRequest F → Exec S (RelationshipValidationResult F)

-- `Embed` turns a text into a vector.
abbrev pub EmbeddingProvider : Type 0 → Type 0 → Type 0
EmbeddingProvider S V = String → Exec S V

-- `NewID` and `Now` cannot fail.
abbrev pub IdGenerator : Type 0 → Type 0
IdGenerator S = S → String × S

abbrev pub Clock : Type 0 → Type 0
Clock S = S → Time × S
