-- ===== src/Sqlite/Documents.antt =====
-- The documents, lookup receipts and assessments of internal/adapters/sqlite/store.go.
use tuskbase.Common.{
  ℕ, suc, String, Bool, not, ◌&&◌, ◌||◌, ◌==◌, leb, ltb, eqb, text_before, if◌then◌else◌, List, [],
  ◌∷◌, ◌++◌, take, any, select, sort_stable, Result, ok, fail_if, Exec, lift, ◌>>◌,
}
use tuskbase.Domain.Types.{Time, RepoDocument, LookupReceipt, LookupReceiptResult, Assessment}
use tuskbase.Domain.Validate.{validate_assessment}
use tuskbase.Ports.{AssessmentQuery}
use tuskbase.Sqlite.Tables.{
  Db, Engine, ReceiptRow, IndexRow, VectorRow, insert, map_result, reading, statement, transaction,
  format_time, references_workspace, references_decision, foreign_key_failed, unique_failed,
  latest_first, row_limit,
}

unfoldable pub document_row : Time → String → RepoDocument → RepoDocument
unfolding format_time
document_row now workspace_id doc = record doc {
  workspace_id = workspace_id;
  created_at = format_time now doc.created_at;
  updated_at = format_time now doc.updated_at;
}

abbrev pub indexed_document : String → IndexRow → Bool
indexed_document workspace_id r = r.workspace_id == workspace_id && r.kind == "document"

abbrev pub vector_document : {G : Type 0} → String → VectorRow G → Bool
vector_document workspace_id r = r.workspace_id == workspace_id && r.kind == "document"

-- `ORDER BY path, chunk_index`
unfoldable pub document_before : RepoDocument → RepoDocument → Bool
unfolding text_before
document_before a b =
    text_before a.path b.path || (a.path == b.path && ltb a.chunk_index b.chunk_index)

unfoldable pub assessment_row : Time → Assessment → Assessment
unfolding format_time
assessment_row now a = record a { created_at = format_time now a.created_at }

unfoldable pub listed_assessment : AssessmentQuery → Assessment → Bool
listed_assessment q a =
    a.workspace_id == q.workspace_id && (q.decision_id == "" || a.decision_id == q.decision_id)

module _ {F : Type 0} where
  -- The row of `lookup_receipts`; the results have a table of their own.
  unfoldable pub receipt_row : Time → LookupReceipt F → LookupReceipt F
  unfolding format_time
  receipt_row now r = record r { results = []; created_at = format_time now r.created_at }

  abbrev pub same_position : String → ℕ → ReceiptRow F → Bool
  same_position id i r = r.receipt_id == id && eqb r.position i

  -- The results from a position on.
  unfoldable pub insert_results :
      String → ℕ → List (LookupReceiptResult F) → List (ReceiptRow F) → Result (List (ReceiptRow F))
  insert_results id i [] rows = ok rows
  insert_results id i (r ∷ rs) rows =
      let row : ReceiptRow F = record { receipt_id = id; position = i; result = r } in
      fail_if (any (same_position id i) rows) unique_failed
        (insert_results id (suc i) rs (rows ++ row ∷ []))

module _ {F G : Type 0} where
  unfoldable pub delete_documents : String → Db F G → Result (Db F G)
  delete_documents workspace_id db = ok (record db {
    repo_documents = select (λ d. not (d.workspace_id == workspace_id)) db.repo_documents;
    search_index = select (λ r. not (indexed_document workspace_id r)) db.search_index;
    vector_index = select (λ r. not (vector_document workspace_id r)) db.vector_index;
  })

  unfoldable pub insert_document : String → RepoDocument → Db F G → Result (Db F G)
  unfolding insert document_row
  insert_document workspace_id doc db =
      fail_if (not (references_workspace db workspace_id)) foreign_key_failed (
        map_result (λ rows. record db { repo_documents = rows })
          (insert (λ d. d.id) (document_row db.now workspace_id doc) db.repo_documents))

  unfoldable pub insert_documents : String → List RepoDocument → Exec (Db F G) (Unit {0})
  unfolding insert_document
  insert_documents workspace_id [] = statement ok
  insert_documents workspace_id (d ∷ ds) =
      statement (insert_document workspace_id d) >> insert_documents workspace_id ds

  unfoldable pub replace_workspace_documents : String → List RepoDocument → Exec (Db F G) (Unit {0})
  unfolding delete_documents insert_documents
  replace_workspace_documents workspace_id docs =
      transaction (statement (delete_documents workspace_id) >> insert_documents workspace_id docs)

  unfoldable pub find_documents : String → ℕ → Db F G → List RepoDocument
  unfolding document_before sort_stable
  find_documents workspace_id limit db =
      take (if leb limit 0 then 1000 else limit) (
        sort_stable document_before
          (select (λ d. d.workspace_id == workspace_id) db.repo_documents))

  unfoldable pub list_workspace_documents : String → ℕ → Exec (Db F G) (List RepoDocument)
  unfolding find_documents
  list_workspace_documents workspace_id limit =
      reading (λ db. ok (find_documents workspace_id limit db))

  unfoldable pub insert_receipt : LookupReceipt F → Db F G → Result (Db F G)
  unfolding insert receipt_row
  insert_receipt r db = fail_if (not (references_workspace db r.workspace_id)) foreign_key_failed (
      map_result (λ rows. record db { lookup_receipts = rows })
        (insert (λ x. x.id) (receipt_row db.now r) db.lookup_receipts))

  unfoldable pub insert_receipt_results : LookupReceipt F → Db F G → Result (Db F G)
  unfolding insert_results
  insert_receipt_results r db =
      map_result (λ rows. record db { lookup_receipt_results = rows })
        (insert_results r.id 0 r.results db.lookup_receipt_results)

  unfoldable pub save_lookup_receipt : LookupReceipt F → Exec (Db F G) (Unit {0})
  unfolding insert_receipt insert_receipt_results
  save_lookup_receipt r =
      transaction (statement (insert_receipt r) >> statement (insert_receipt_results r))

  unfoldable pub insert_assessment : Assessment → Db F G → Result (Db F G)
  unfolding insert assessment_row
  insert_assessment a db =
      fail_if (not (references_workspace db a.workspace_id && references_decision db a.decision_id))
        foreign_key_failed
        (map_result (λ rows. record db { decision_assessments = rows })
          (insert (λ x. x.id) (assessment_row db.now a) db.decision_assessments))

  unfoldable pub save_assessment : Assessment → Exec (Db F G) (Unit {0})
  unfolding insert_assessment validate_assessment
  save_assessment a = lift (validate_assessment a) >> statement (insert_assessment a)

  module _ (engine : Engine F G) where
    unfoldable pub find_assessments : AssessmentQuery → Db F G → List Assessment
    unfolding listed_assessment latest_first row_limit
    find_assessments q db = take (row_limit 50 q.limit) (
        latest_first engine (λ a. a.created_at)
          (select (listed_assessment q) db.decision_assessments))

    unfoldable pub list_assessments : AssessmentQuery → Exec (Db F G) (List Assessment)
    unfolding find_assessments
    list_assessments q = reading (λ db. ok (find_assessments q db))
