-- ===== src/Sqlite/Adapter.antt =====
-- The `Store` of internal/adapters/sqlite/store.go as the ports of the application.
pub mod Served
pub mod Ledger
use tuskbase.Common.{List, Float64}
use tuskbase.Ports.{Store, SearchIndex, VectorStore}
use tuskbase.Sqlite.Tables.{Db, Engine}
use tuskbase.Sqlite.Workspaces.{upsert_workspace, get_workspace}
use tuskbase.Sqlite.Decisions.{save_decision, get_decision}
use tuskbase.Sqlite.Queries.{recent_decisions, query_decisions}
use tuskbase.Sqlite.Candidates.{
  upsert_decision_candidate, get_decision_candidate, list_decision_candidates,
  update_decision_candidate_status,
}
use tuskbase.Sqlite.Documents.{
  replace_workspace_documents, list_workspace_documents, save_lookup_receipt, save_assessment,
  list_assessments,
}
use tuskbase.Sqlite.Conflicts.{
  save_conflict, get_conflict, list_open_conflicts, list_conflicts, resolve_conflict,
}
use tuskbase.Sqlite.Index.{index_decision, index_document, search}
use tuskbase.Sqlite.Vectors.{upsert_vector, search_vector}

module _ {F G : Type 0} (engine : Engine F G) ⦃fl : Float64 F⦄ where
  unfoldable pub sqlite_store : Store F (Db F G)
  sqlite_store = record {
    upsert_workspace = upsert_workspace;
    get_workspace = get_workspace;
    save_decision = save_decision;
    get_decision = get_decision;
    recent_decisions = recent_decisions engine;
    query_decisions = query_decisions engine;
    upsert_decision_candidate = upsert_decision_candidate;
    get_decision_candidate = get_decision_candidate;
    list_decision_candidates = list_decision_candidates engine;
    update_decision_candidate_status = update_decision_candidate_status;
    replace_workspace_documents = replace_workspace_documents;
    list_workspace_documents = list_workspace_documents;
    save_lookup_receipt = save_lookup_receipt;
    save_assessment = save_assessment;
    list_assessments = list_assessments engine;
    save_conflict = save_conflict;
    get_conflict = get_conflict;
    list_open_conflicts = list_open_conflicts engine;
    list_conflicts = list_conflicts engine;
    resolve_conflict = resolve_conflict;
  }

  unfoldable pub sqlite_search : SearchIndex F (Db F G)
  sqlite_search = record {
    index_decision = index_decision;
    index_document = index_document;
    search = search engine;
  }

  unfoldable pub sqlite_vectors : VectorStore F (Db F G) (List G)
  sqlite_vectors = record { upsert_vector = upsert_vector; search_vector = search_vector engine }
