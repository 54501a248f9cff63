-- ===== src/Sqlite/Writes.antt =====
-- The calls that change the database of internal/adapters/sqlite/store.go, as one type, and
-- sequences of them.
pub mod Atomic
pub mod Keeps
pub mod Preserves
pub mod Invariant
pub mod Retired
use tuskbase.Common.{String, List, [], ◌∷◌, Result, ok, err, Exec, pure, ◌>>=◌, ◌>>◌, Float64}
use tuskbase.Domain.Parse.{ConflictStatus}
use tuskbase.Domain.Types.{
  Time, Workspace, RepoDocument, Decision, DecisionCandidate, LookupReceipt, Assessment, Conflict,
  ConflictResolution,
}
use tuskbase.Ports.{DecisionCandidateStatusUpdate, VectorRecord}
use tuskbase.Sqlite.Tables.{Db}
use tuskbase.Sqlite.Workspaces.{upsert_workspace}
use tuskbase.Sqlite.Decisions.{save_decision}
use tuskbase.Sqlite.Candidates.{upsert_decision_candidate, update_decision_candidate_status}
use tuskbase.Sqlite.Documents.{replace_workspace_documents, save_lookup_receipt, save_assessment}
use tuskbase.Sqlite.Conflicts.{save_conflict, resolve_conflict}
use tuskbase.Sqlite.Index.{index_decision, index_document}
use tuskbase.Sqlite.Vectors.{upsert_vector}

pub data Write (F G : Type 0) : Type 0 where
  upserts_workspace : Workspace → Write F G
  saves_decision : Decision F → Write F G
  upserts_candidate : DecisionCandidate F → Write F G
  updates_status : DecisionCandidateStatusUpdate → Write F G
  replaces_documents : String → List RepoDocument → Write F G
  saves_receipt : LookupReceipt F → Write F G
  saves_assessment : Assessment → Write F G
  saves_conflict : Conflict F → Write F G
  resolves_conflict : String → ConflictStatus → Time → ConflictResolution → Write F G
  indexes_decision : Decision F → Write F G
  indexes_document : RepoDocument → Write F G
  upserts_vector : VectorRecord (List G) → Write F G

-- A call whose answer is not read.
abbrev pub unread : {S A : Type 0} → Exec S A → Exec S (Unit {0})
unread m = m >> pure tt

module _ {F G : Type 0} ⦃fl : Float64 F⦄ where
  unfoldable pub perform : Write F G → Exec (Db F G) (Unit {0})
  perform (upserts_workspace w) = unread (upsert_workspace w)
  perform (saves_decision d) = save_decision d
  perform (upserts_candidate c) = unread (upsert_decision_candidate c)
  perform (updates_status u) = unread (update_decision_candidate_status u)
  perform (replaces_documents w docs) = replace_workspace_documents w docs
  perform (saves_receipt r) = save_lookup_receipt r
  perform (saves_assessment a) = save_assessment a
  perform (saves_conflict c) = save_conflict c
  perform (resolves_conflict id status at r) = unread (resolve_conflict id status at r)
  perform (indexes_decision d) = index_decision d
  perform (indexes_document d) = index_document d
  perform (upserts_vector r) = upsert_vector r

  -- The database after a sequence of calls, some of which may have failed.
  unfoldable pub replay : List (Write F G) → Db F G → Db F G
  unfolding perform
  replay [] s = s
  replay (w ∷ ws) s = replay ws (perform w s).1
