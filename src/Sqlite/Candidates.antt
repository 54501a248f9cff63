-- ===== src/Sqlite/Candidates.antt =====
-- The decision candidates of internal/adapters/sqlite/store.go and candidate_sql.go.
pub mod Reviews
use tuskbase.Common.{
  ℕ, String, Bool, not, ◌&&◌, ◌||◌, ◌==◌, if◌then◌else◌, List, [], ◌∷◌, ◌++◌, take, any, select,
  trim_space, Result, ok, err, fail_if, Exec, pure, lift, ◌>>=◌, ◌>>◌, Float64,
}
use tuskbase.Domain.Parse.{CandidateStatus, candidate_pending, parse_decision_candidate_status}
use tuskbase.Domain.Types.{Time, DecisionCandidate}
use tuskbase.Domain.Validate.{validate_candidate}
use tuskbase.Ports.{DecisionCandidateQuery, DecisionCandidateStatusUpdate}
use tuskbase.Sqlite.Tables.{
  Db, Engine, first, update, insert, with_key, one_row, map_result, reading, statement, format_time,
  references_workspace, foreign_key_failed, no_rows, latest_first, row_limit,
}

module _ {F : Type 0} where
  -- `WHERE workspace_id = ? AND source_hash = ?`, and the `UNIQUE` of the table.
  unfoldable pub same_source : String → String → DecisionCandidate F → Bool
  same_source workspace_id hash r = r.workspace_id == workspace_id && r.source_hash == hash

  unfoldable pub candidate_row : Time → DecisionCandidate F → DecisionCandidate F
  unfolding format_time
  candidate_row now c = record c {
    created_at = format_time now c.created_at;
    updated_at = format_time now c.updated_at;
  }

  -- `DO UPDATE SET`
  unfoldable pub renew_candidate : DecisionCandidate F → DecisionCandidate F → DecisionCandidate F
  renew_candidate excluded r = record r {
    type = excluded.type;
    title = excluded.title;
    outcome = excluded.outcome;
    rationale = excluded.rationale;
    confidence = excluded.confidence;
    source_path = excluded.source_path;
    source_title = excluded.source_title;
    source_snippet = excluded.source_snippet;
    detector = excluded.detector;
    updated_at = excluded.updated_at;
  }

  -- `INSERT … ON CONFLICT(workspace_id, source_hash) DO UPDATE`: the conflict is looked for first,
  -- and the primary key is checked where a row is added.
  unfoldable pub put_candidate :
      DecisionCandidate F → List (DecisionCandidate F) → Result (List (DecisionCandidate F))
  unfolding same_source renew_candidate update insert
  put_candidate row rows =
      if any (same_source row.workspace_id row.source_hash) rows
      then ok (update (same_source row.workspace_id row.source_hash) (renew_candidate row) rows)
      else insert (λ r. r.id) row rows

  unfoldable pub pending_by_default : DecisionCandidate F → DecisionCandidate F
  pending_by_default c = record c {
    status = if c.status == "" then candidate_pending else c.status;
  }

  unfoldable pub updated_row : DecisionCandidateStatusUpdate → DecisionCandidate F → Bool
  updated_row u r = r.id == trim_space u.id && r.workspace_id == trim_space u.workspace_id

  -- `updateDecisionCandidateStatusSQL`
  unfoldable pub set_candidate_status :
      Time
      → CandidateStatus
      → DecisionCandidateStatusUpdate
      → DecisionCandidate F
      → DecisionCandidate F
  unfolding format_time
  set_candidate_status now status u r = record r {
    status = status;
    accepted_decision_id = trim_space u.accepted_decision_id;
    rejection_summary = trim_space u.rejection_summary;
    updated_at = format_time now u.updated_at;
  }

  -- The clauses of the `WHERE`: a query without a status asks for the pending ones.
  unfoldable pub listed_candidate : DecisionCandidateQuery → DecisionCandidate F → Bool
  listed_candidate q r =
      let status = if q.status == "" then candidate_pending else q.status in
      r.workspace_id == q.workspace_id && (q.all_statuses || r.status == status)

module _ {F G : Type 0} where
  unfoldable pub find_candidate : String → Db F G → Result (DecisionCandidate F)
  unfolding first
  find_candidate id db = one_row (first (with_key (λ r. r.id) id) db.decision_candidates)

  unfoldable pub get_decision_candidate : String → Exec (Db F G) (DecisionCandidate F)
  unfolding find_candidate
  get_decision_candidate id = reading (find_candidate id)

  unfoldable pub find_by_source_hash : String → String → Db F G → Result (DecisionCandidate F)
  unfolding first same_source
  find_by_source_hash workspace_id hash db =
      one_row (first (same_source workspace_id hash) db.decision_candidates)

  unfoldable pub write_candidate : DecisionCandidate F → Db F G → Result (Db F G)
  unfolding candidate_row put_candidate
  write_candidate c db = fail_if (not (references_workspace db c.workspace_id)) foreign_key_failed (
      map_result (λ rows. record db { decision_candidates = rows })
        (put_candidate (candidate_row db.now c) db.decision_candidates))

  unfoldable pub write_candidate_status :
      CandidateStatus → DecisionCandidateStatusUpdate → Db F G → Result (Db F G)
  unfolding updated_row set_candidate_status update
  write_candidate_status status u db =
      fail_if (not (any (updated_row u) db.decision_candidates)) no_rows (
        ok (record db {
          decision_candidates =
              update (updated_row u) (set_candidate_status db.now status u) db.decision_candidates;
        }))

  unfoldable pub update_decision_candidate_status :
      DecisionCandidateStatusUpdate → Exec (Db F G) (DecisionCandidate F)
  unfolding write_candidate_status get_decision_candidate parse_decision_candidate_status
  update_decision_candidate_status u = do
    status ← lift (parse_decision_candidate_status u.status)
    statement (write_candidate_status status u)
    get_decision_candidate u.id

  module _ ⦃fl : Float64 F⦄ where
    unfoldable pub upsert_decision_candidate :
        DecisionCandidate F → Exec (Db F G) (DecisionCandidate F)
    unfolding pending_by_default write_candidate find_by_source_hash validate_candidate
    upsert_decision_candidate given = do
      let c = pending_by_default given
      lift (validate_candidate c)
      statement (write_candidate c)
      reading (find_by_source_hash c.workspace_id c.source_hash)

  module _ (engine : Engine F G) where
    unfoldable pub find_candidates : DecisionCandidateQuery → Db F G → List (DecisionCandidate F)
    unfolding listed_candidate latest_first row_limit
    find_candidates q db = take (row_limit 50 q.limit) (
        latest_first engine (λ r. r.updated_at)
          (select (listed_candidate q) db.decision_candidates))

    unfoldable pub list_decision_candidates :
        DecisionCandidateQuery → Exec (Db F G) (List (DecisionCandidate F))
    unfolding find_candidates
    list_decision_candidates q = reading (λ db. ok (find_candidates q db))
