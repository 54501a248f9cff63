-- ===== src/Domain/Types.antt =====
-- The records of internal/domain/types.go. `F` stands for `float64`; a time is a number of ticks
-- since the zero time, and `Metadata` holds each value as its JSON text.
use tuskbase.Common.{ℕ, String, ℤ, Bool, true, false, List, Option, none, some}
use tuskbase.Domain.Parse.{
  ActorKind, RelationshipType, ConflictSeverity, ConflictStatus, DecisionStatus, CandidateStatus,
}

abbrev pub Time : Type 0
Time = ℕ

abbrev pub Metadata : Type 0
Metadata = List (String × String)

pub record Actor : Type 0 where
  pub kind : ActorKind
  pub name : String

pub record RepoDocument : Type 0 where
  pub id : String
  pub workspace_id : String
  pub path : String
  pub title : String
  pub content : String
  pub chunk_index : ℕ
  pub created_at : Time
  pub updated_at : Time

pub record Workspace : Type 0 where
  pub id : String
  pub repo_root : String
  pub display_name : String
  pub repo_fingerprint : String
  pub detected_docs : List RepoDocument
  pub created_at : Time
  pub updated_at : Time

pub record Alternative : Type 0 where
  pub id : String
  pub decision_id : String
  pub title : String
  pub outcome : String
  pub reason : String

pub record Claim : Type 0 where
  pub id : String
  pub decision_id : String
  pub text : String

pub record Evidence : Type 0 where
  pub id : String
  pub decision_id : String
  pub kind : String
  pub uri : String
  pub title : String
  pub snippet : String
  pub metadata : Metadata

pub record DecisionRelationship (F : Type 0) : Type 0 where
  pub id : String
  pub workspace_id : String
  pub from_decision_id : String
  pub to_decision_id : String
  pub type : RelationshipType
  pub confidence : F
  pub reason : String

pub record Decision (F : Type 0) : Type 0 where
  pub id : String
  pub workspace_id : String
  pub actor : Actor
  pub type : String
  pub title : String
  pub outcome : String
  pub rationale : String
  pub confidence : F
  pub status : DecisionStatus
  pub valid_from : Time
  pub valid_to : Option Time
  pub transaction_time : Time
  pub alternatives : List Alternative
  pub claims : List Claim
  pub evidence : List Evidence
  pub relationships : List (DecisionRelationship F)
  pub precedent_ref : String
  pub supersedes_id : String
  pub completeness_score : F
  pub metadata : Metadata
  pub created_at : Time
  pub updated_at : Time

unfoldable pub is_active : {F : Type 0} → Decision F → Bool
is_active d = elim d.valid_to [ none ↦ true | some t ↦ false ]

pub record DecisionCandidate (F : Type 0) : Type 0 where
  pub id : String
  pub workspace_id : String
  pub type : String
  pub title : String
  pub outcome : String
  pub rationale : String
  pub confidence : F
  pub source_path : String
  pub source_title : String
  pub source_snippet : String
  pub source_hash : String
  pub detector : String
  pub status : CandidateStatus
  pub accepted_decision_id : String
  pub rejection_summary : String
  pub created_at : Time
  pub updated_at : Time

pub record LookupReceiptResult (F : Type 0) : Type 0 where
  pub kind : String
  pub entity_id : String
  pub workspace_id : String
  pub title : String
  pub path : String
  pub snippet : String
  pub score : F

pub record LookupReceipt (F : Type 0) : Type 0 where
  pub id : String
  pub workspace_id : String
  pub query : String
  pub result_count : ℕ
  pub results : List (LookupReceiptResult F)
  pub created_at : Time

pub record Assessment : Type 0 where
  pub id : String
  pub workspace_id : String
  pub decision_id : String
  pub actor : Actor
  pub signal : String
  pub score : ℤ
  pub summary : String
  pub metadata : Metadata
  pub created_at : Time

pub record Conflict (F : Type 0) : Type 0 where
  pub id : String
  pub workspace_id : String
  pub decision_id : String
  pub proposal : String
  pub conflicting_with_id : String
  pub summary : String
  pub severity : ConflictSeverity
  pub confidence : F
  pub status : ConflictStatus
  pub created_at : Time
  pub resolved_at : Option Time

pub record ConflictResolution : Type 0 where
  pub id : String
  pub workspace_id : String
  pub conflict_id : String
  pub actor : Actor
  pub action : String
  pub summary : String
  pub decision_id : String
  pub created_at : Time
