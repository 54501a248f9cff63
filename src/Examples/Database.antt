-- ===== src/Examples/Database.antt =====
-- A small database, and calls of the SQLite store on it.
use tuskbase.App.Service.{Service}
use tuskbase.App.Service.Ledger.{ConflictLog}
use tuskbase.Sqlite.Adapter.{sqlite_store, sqlite_search}
use tuskbase.Sqlite.Adapter.Ledger.{save_conflict-rows, sqlite_store-ConflictLog}
use tuskbase.App.Remember.{relationship_reason, save_conflicts}
use tuskbase.Domain.Validate.{validate_conflict}
use tuskbase.App.Service.{severity_for_confidence}
use tuskbase.Domain.Parse.{parse_conflict_severity}
use tuskbase.App.Remember.Conflicts.{Opens, save_conflicts-Opens}
use tuskbase.Domain.Parse.{conflicts}
use tuskbase.Domain.Types.{DecisionRelationship}
use tuskbase.Common.{
  ◌++◌, Result, some, is_blank, to_lower, ℕ, String, ◌≡◌, ◌≢◌, refl, none, List, [], ◌∷◌, ok, err,
  Accepted, length, ◌≤◌, arith, true, false, All, map, quote, join, text_ne, ltb,
}
use tuskbase.Domain.Parse.{
  parse_actor_kind, parse_conflict_severity, parse_decision_status, parse_relationship_type,
  parse_conflict_status, parse_decision_candidate_status, candidate_accepted,
}
use tuskbase.Domain.Types.{
  is_active, Decision, Claim, DecisionCandidate, ConflictResolution, Conflict,
}
use tuskbase.Domain.Validate.{validate_alternative, validate_relationship, validate_workspace}
use tuskbase.Sqlite.Candidates.{
  update_decision_candidate_status, upsert_decision_candidate, find_by_source_hash, candidate_row,
  pending_by_default,
}
use tuskbase.Sqlite.Conflicts.{
  save_conflict, resolve_conflict, find_conflict, find_open_conflicts, set_resolved,
  resolved_by_default,
}
use tuskbase.Sqlite.Decisions.{supersede_if_named, save_decision, find_decision, with_defaults}
use tuskbase.Sqlite.Documents.{replace_workspace_documents, save_assessment, save_lookup_receipt}
use tuskbase.Sqlite.Vectors.{upsert_vector, find_vectors}
use tuskbase.Sqlite.Workspaces.{upsert_workspace}
use tuskbase.Examples.World.{hundredth_float, outcome, outcome_lem, agent, kafka, dispute, home}
use tuskbase.Ports.{SearchQuery, VectorQuery}
use tuskbase.Sqlite.Tables.{
  Db, Engine, foreign_key_failed, nullable_time, has_active_decision, no_rows,
}
use tuskbase.Sqlite.Decisions.Reading.{stored_children, save_decision-find_decision}
use tuskbase.Sqlite.Writes.Retired.{
  save_decision-supersedes_once, save_decision-find_open_conflicts,
}
use tuskbase.Sqlite.Candidates.Reviews.{
  SameReview, SameProposal, upsert_decision_candidate-SameReview,
}
use tuskbase.Sqlite.Conflicts.Opened.{Opened, resolve_conflict-Closed}
use tuskbase.Sqlite.Writes.{
  Write, upserts_workspace, saves_decision, saves_conflict, perform, replay,
}
use tuskbase.Sqlite.Writes.Atomic.{perform-Atomic}
use tuskbase.Sqlite.Writes.Keeps.{WellFormed}
use tuskbase.Sqlite.Writes.Invariant.{replay-WellFormed}
use tuskbase.Sqlite.Index.{find_text}
use tuskbase.Sqlite.Vectors.Scope.{InScope, search_limit, searches-InScope}
use tuskbase.Sqlite.Adapter.Served.{on_sqlite, candidate_decisions-on_sqlite}
use tuskbase.App.Lookup.{candidate_decisions}
use tuskbase.App.Lookup.Candidates.{IsGood}
use tuskbase.App.Service.{bounded_limit, default_limit}
use tuskbase.Sqlite.Tokens.{fts_query, search_tokens}
use tuskbase.Sqlite.Tokens.Distinct.{Tokens, fts_query_lem, search_tokens-Tokens}

abbrev blank : Db ℕ ℕ
blank = record {
  now = 7;
  workspaces = [];
  decisions = [];
  decision_candidates = [];
  decision_alternatives = [];
  decision_claims = [];
  decision_evidence = [];
  decision_relationships = [];
  repo_documents = [];
  lookup_receipts = [];
  lookup_receipt_results = [];
  decision_assessments = [];
  conflict_rows = [];
  conflict_resolutions = [];
  search_index = [];
  vector_index = [];
}

-- The first decision, which supersedes none, and one that supersedes it.
abbrev base : Decision ℕ
base = record kafka { supersedes_id = "" }

abbrev note : Claim
note = record { id = "n1"; decision_id = ""; text = "Partitions keep the order." }

abbrev successor : Decision ℕ
successor = record kafka { id = "d2"; supersedes_id = "d1"; created_at = 0; claims = note ∷ [] }

abbrev proposed : DecisionCandidate ℕ
proposed = record {
  id = "k2";
  workspace_id = "w";
  type = "architecture";
  title = "Use Kafka";
  outcome = "use kafka";
  rationale = "";
  confidence = 60;
  source_path = "docs/adr.md";
  source_title = "ADR";
  source_snippet = "We use kafka.";
  source_hash = "h";
  detector = "adr";
  status = "";
  accepted_decision_id = "";
  rejection_summary = "";
  created_at = 0;
  updated_at = 0;
}

-- The candidate of the same source that was accepted before.
abbrev accepted : DecisionCandidate ℕ
accepted = record proposed {
  id = "k1";
  status = candidate_accepted;
  accepted_decision_id = "d1";
  created_at = 3;
  updated_at = 3;
}

abbrev stocked : Db ℕ ℕ
stocked = record blank {
  workspaces = home ∷ [];
  decisions = base ∷ [];
  decision_candidates = accepted ∷ [];
  conflict_rows = dispute ∷ [];
}

abbrev engine : Engine ℕ ℕ
engine = record {
  after = λ t u. ltb u t;
  matches = λ m r. true;
  bm25 = λ m rows r. 0;
  snippet = λ m r. r.body;
  widen = λ g. g;
  sqrt = λ x. x;
}

blank-WellFormed : WellFormed blank
blank-WellFormed = record {
  workspace_keys = tt;
  decision_keys = tt;
  conflict_keys = tt;
  decisions_in = tt;
  conflicts_in = tt;
  assessments_of = tt;
  resolutions_of = tt;
}

abbrev calls : List (Write ℕ ℕ)
calls =
    upserts_workspace home
    ∷ saves_decision base
    ∷ saves_decision base
    ∷ saves_conflict dispute
    ∷ saves_decision successor
    ∷ []

replay-WellFormed_example : WellFormed (replay calls blank)
replay-WellFormed_example = replay-WellFormed calls blank blank-WellFormed

refused : perform (saves_decision base) blank ≡ (err foreign_key_failed, blank)
unfolding is_active is_blank parse_actor_kind parse_conflict_severity parse_decision_status
    parse_relationship_type perform quote replace_workspace_documents resolve_conflict
    save_assessment save_conflict save_decision save_lookup_receipt to_lower
    update_decision_candidate_status upsert_decision_candidate upsert_vector upsert_workspace
    validate_alternative validate_relationship validate_workspace
refused = refl

perform-Atomic_example : blank ≡ blank
perform-Atomic_example =
    perform-Atomic (saves_decision base) tt blank blank foreign_key_failed refused

abbrev succeeded : Db ℕ ℕ
succeeded = (save_decision successor stocked).1

successor-ok : save_decision successor stocked ≡ (ok tt, succeeded)
unfolding is_active is_blank parse_actor_kind parse_decision_status parse_relationship_type quote
    save_decision to_lower validate_alternative validate_relationship
successor-ok = refl

named : successor.supersedes_id ≢ ""
named = text_ne "d1" "" refl

abbrev rival : Decision ℕ
rival = record successor { id = "d3" }

save_decision-supersedes_once_example :
    (has_active_decision stocked "d1" "w" ≡ true)
    × (has_active_decision (replay calls succeeded) "d1" "w" ≡ false)
    × (save_decision rival (replay calls succeeded) ≢ (ok tt, stocked))
save_decision-supersedes_once_example =
    save_decision-supersedes_once successor stocked succeeded calls rival stocked successor-ok named
      refl refl

save_decision-find_decision_example :
    let d = with_defaults 7 successor in
    (find_decision "d2" succeeded
      ≡ ok (stored_children d (record d { valid_to = nullable_time 7 d.valid_to })))
    × ((id : String)
        → id ≢ "d2"
        → id ≢ "d1"
        → find_decision id succeeded ≡ find_decision id stocked)
save_decision-find_decision_example =
    save_decision-find_decision successor stocked succeeded successor-ok (ground arith)

save_decision-find_open_conflicts_example :
    All (Opened stocked "w") (find_open_conflicts engine "w" stocked)
    × All
        (λ (c : Conflict ℕ). c.conflicting_with_id ≢ "d1")
        (find_open_conflicts engine "w" (replay calls succeeded))
save_decision-find_open_conflicts_example =
    save_decision-find_open_conflicts engine successor stocked succeeded stocked "w" calls
      successor-ok named

abbrev settled : ConflictResolution
settled = record {
  id = "r1";
  workspace_id = "w";
  conflict_id = "c1";
  actor = agent;
  action = "resolved";
  summary = "Kafka stays.";
  decision_id = "";
  created_at = 6;
}

settled-ok : Accepted (resolve_conflict "c1" "" 6 settled stocked).0
unfolding is_active is_blank parse_actor_kind parse_conflict_status quote resolve_conflict
    supersede_if_named to_lower
settled-ok = tt

dispute-found : find_conflict "c1" stocked ≡ ok dispute
unfolding find_conflict is_blank
dispute-found = refl

abbrev closed : Conflict ℕ
closed = (outcome (resolve_conflict "c1" "" 6 settled stocked) settled-ok).0

abbrev peace : Db ℕ ℕ
peace = (outcome (resolve_conflict "c1" "" 6 settled stocked) settled-ok).1

resolve_conflict-Closed_example :
    (closed ≡ set_resolved 7 (resolved_by_default "") 6 dispute)
    × (find_conflict "c1" peace ≡ ok closed)
    × (resolved_by_default "" ≢ "open"
        → All (λ (x : Conflict ℕ). x.id ≢ "c1") (find_open_conflicts engine "w" peace))
resolve_conflict-Closed_example =
    resolve_conflict-Closed engine "c1" "" 6 settled stocked dispute closed peace dispute-found refl
      (outcome_lem (resolve_conflict "c1" "" 6 settled stocked) settled-ok)

proposed-ok : Accepted (upsert_decision_candidate proposed stocked).0
unfolding is_active is_blank parse_decision_candidate_status quote supersede_if_named to_lower
    upsert_decision_candidate
proposed-ok = tt

abbrev got : DecisionCandidate ℕ
got = (outcome (upsert_decision_candidate proposed stocked) proposed-ok).0

abbrev imported : Db ℕ ℕ
imported = (outcome (upsert_decision_candidate proposed stocked) proposed-ok).1

upsert_decision_candidate-SameReview_example :
    (find_by_source_hash "w" "h" imported ≡ ok got)
    × ((r : DecisionCandidate ℕ)
        → find_by_source_hash "w" "h" stocked ≡ ok r
        → SameReview got r × SameProposal got proposed)
    × (find_by_source_hash "w" "h" stocked ≡ err no_rows
        → got ≡ candidate_row 7 (pending_by_default proposed))
upsert_decision_candidate-SameReview_example =
    upsert_decision_candidate-SameReview proposed got stocked imported
      (outcome_lem (upsert_decision_candidate proposed stocked) proposed-ok)

abbrev asked : SearchQuery
asked = record { workspace_id = "w"; query = "kafka events"; limit = 3 }

abbrev near : VectorQuery (List ℕ)
near = record { workspace_id = "w"; vector = 1 ∷ []; limit = 0 }

searches-InScope_example :
    (length (find_text engine asked stocked) ≤ search_limit 3)
    × All (InScope stocked "w") (find_text engine asked stocked)
    × (length (find_vectors engine near stocked) ≤ search_limit 0)
    × All (InScope stocked "w") (find_vectors engine near stocked)
searches-InScope_example = searches-InScope engine stocked asked near

candidate_decisions-on_sqlite_example :
    (ds : List (Decision ℕ)) × (candidate_decisions
        (on_sqlite engine (λ s. ("id", s)) (λ s. (7, s)) none)
        "w"
        "kafka"
        3
        stocked
      ≡ (ok ds, stocked))
    × IsGood "w" (bounded_limit 3 default_limit) ds
candidate_decisions-on_sqlite_example =
    candidate_decisions-on_sqlite engine (λ s. ("id", s)) (λ s. (7, s)) none "w" "kafka" 3 stocked

fts_query_lem_example :
    fts_query "Kafka events" ≡ join (map quote (search_tokens "Kafka events")) " OR "
fts_query_lem_example = fts_query_lem "Kafka events"

search_tokens-Tokens_example : Tokens (search_tokens "Kafka events")
search_tokens-Tokens_example = search_tokens-Tokens "Kafka events"

-- A service on the SQLite store.
abbrev served : Service ℕ (Db ℕ ℕ)
served = record {
  store = sqlite_store engine;
  search = sqlite_search engine;
  ids = λ s. ("id", s);
  clock = λ s. (7, s);
  validator = none;
}

none-some : {A : Type 0} {a : A} → none ≡ some a → ⊥
none-some e = cc

sqlite_store-ConflictLog_example : ConflictLog served (λ s. s.conflict_rows)
sqlite_store-ConflictLog_example =
    sqlite_store-ConflictLog engine served refl (λ s. refl) (λ s. refl) (λ s. ground arith)
      (λ v e q s. absurd (none-some e))

served-ConflictLog : ConflictLog served (λ s. s.conflict_rows)
unfolding sqlite_store
served-ConflictLog = record {
  ids_keep = λ s. refl;
  clock_keep = λ s. refl;
  clock_set = λ s. ground arith;
  validator_keep = λ v e q s. absurd (none-some e);
  saved = save_conflict-rows;
}

abbrev against : DecisionRelationship ℕ
against = record {
  id = "r1";
  workspace_id = "w";
  from_decision_id = "d2";
  to_decision_id = "d1";
  type = conflicts;
  confidence = 80;
  reason = "They differ.";
}

abbrev opening : Result (Unit {0}) × Db ℕ ℕ
opening = save_conflicts served 7 successor (against ∷ []) succeeded

opening-ok : Accepted opening.0
unfolding save_conflicts validate_conflict is_blank relationship_reason parse_conflict_severity
    to_lower severity_for_confidence parse_conflict_status sqlite_store save_conflict save_decision
    parse_actor_kind parse_decision_status is_active
opening-ok = tt

-- `Remember` opens conflicts in the SQLite store.
save_conflicts-Opens_example :
    (cs : List (Conflict ℕ)) × ((outcome opening opening-ok).1.conflict_rows
      ≡ succeeded.conflict_rows ++ cs)
    × Opens served 7 successor (against ∷ []) cs
save_conflicts-Opens_example =
    save_conflicts-Opens served (λ s. s.conflict_rows) served-ConflictLog 7 (ground arith) successor
      (against ∷ []) succeeded (outcome opening opening-ok).1 (outcome_lem opening opening-ok)
