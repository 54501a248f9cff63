-- ===== src/Sqlite/Tables.antt =====
-- The tables of internal/adapters/sqlite/schema.sql, and the SQL that store.go uses on them. A table
-- is the list of its rows in the order of their rowids. A time column holds the time whose text it
-- is, 0 for an empty text, and a JSON column the value that it encodes.
pub mod Rows
pub mod Runs
pub mod Keys
use tuskbase.Common.{
  ℕ, String, Bool, ◌&&◌, ◌==◌, Option, none, some, List, [], ◌∷◌, ◌++◌, any, eqb, leb, ltb,
  sort_stable, if◌then◌else◌, Error, Result, ok, err, external, fail_if, Exec,
}
use tuskbase.Domain.Types.{
  Time, RepoDocument, Workspace, Alternative, Claim, Evidence, DecisionRelationship, Decision,
  is_active, DecisionCandidate, LookupReceipt, LookupReceiptResult, Assessment, Conflict,
  ConflictResolution,
}

pub record ReceiptRow (F : Type 0) : Type 0 where
  pub receipt_id : String
  pub position : ℕ
  pub result : LookupReceiptResult F

pub record IndexRow : Type 0 where
  pub workspace_id : String
  pub kind : String
  pub entity_id : String
  pub title : String
  pub path : String
  pub body : String

pub record VectorRow (G : Type 0) : Type 0 where
  pub workspace_id : String
  pub kind : String
  pub entity_id : String
  pub title : String
  pub path : String
  pub body : String
  pub vector : List G

-- `now` is what `time.Now` answers; `G` stands for `float32`. The rows of `decisions` carry their
-- JSON columns in the fields that the columns are read into, those of `lookup_receipts` no results.
pub record Db (F G : Type 0) : Type 0 where
  pub now : Time
  pub workspaces : List Workspace
  pub decisions : List (Decision F)
  pub decision_candidates : List (DecisionCandidate F)
  pub decision_alternatives : List Alternative
  pub decision_claims : List Claim
  pub decision_evidence : List Evidence
  pub decision_relationships : List (DecisionRelationship F)
  pub repo_documents : List RepoDocument
  pub lookup_receipts : List (LookupReceipt F)
  pub lookup_receipt_results : List (ReceiptRow F)
  pub decision_assessments : List Assessment
  pub conflict_rows : List (Conflict F)
  pub conflict_resolutions : List ConflictResolution
  pub search_index : List IndexRow
  pub vector_index : List (VectorRow G)

abbrev pub unique_failed : Error
unique_failed = external "UNIQUE constraint failed"

abbrev pub foreign_key_failed : Error
foreign_key_failed = external "FOREIGN KEY constraint failed"

-- `sql.ErrNoRows`
abbrev pub no_rows : Error
no_rows = external "sql: no rows in result set"

module _ {ℓ} {A : Type ℓ} where
  -- `SELECT … WHERE`, read by `QueryRow`.
  unfoldable pub first : (A → Bool) → List A → Option A
  first p [] = none
  first p (x ∷ xs) = let rest = first p xs in if p x then some x else rest

  -- `UPDATE … SET … WHERE`
  unfoldable pub update : (A → Bool) → (A → A) → List A → List A
  update p f [] = []
  update p f (x ∷ xs) = (if p x then f x else x) ∷ update p f xs

  abbrev pub with_key : (A → String) → String → A → Bool
  with_key key k x = key x == k

  -- `INSERT` into a table with a primary key.
  unfoldable pub insert : (A → String) → A → List A → Result (List A)
  insert key x xs = fail_if (any (with_key key (key x)) xs) unique_failed (ok (xs ++ x ∷ []))

  -- The row of a query for one row.
  abbrev pub one_row : Option A → Result A
  one_row none = err no_rows
  one_row (some x) = ok x

abbrev pub map_result : {A B : Type 0} → (A → B) → Result A → Result B
map_result f (ok a) = ok (f a)
map_result f (err e) = err e

abbrev pub then_result : {A B : Type 0} → Result A → (A → Result B) → Result B
then_result (ok a) f = f a
then_result (err e) f = err e

-- Rows that are inserted one after another.
unfoldable pub insert_all : {A : Type 0} → (A → String) → List A → List A → Result (List A)
unfolding insert
insert_all key [] table = ok table
insert_all key (x ∷ xs) table = elim (insert key x table) [
  | ok more ↦ insert_all key xs more
  | err e ↦ err e
]

-- A statement that fails changes nothing.
abbrev pub executed : {S : Type 0} → Result S → S → Result (Unit {0}) × S
executed (ok t) s = (ok tt, t)
executed (err e) s = (err e, s)

abbrev pub statement : {S : Type 0} → (S → Result S) → Exec S (Unit {0})
statement f s = executed (f s) s

abbrev pub keep_committed : {S A : Type 0} → S → Result A × S → Result A × S
keep_committed s (ok a, t) = (ok a, t)
keep_committed s (err e, t) = (err e, s)

-- `BeginTx`, with `tx.Commit` where the body succeeds and the deferred `tx.Rollback` elsewhere.
abbrev pub transaction : {S A : Type 0} → Exec S A → Exec S A
transaction m s = keep_committed s (m s)

-- A read of the current state.
abbrev pub reading : {S A : Type 0} → (S → Result A) → Exec S A
reading f s = (f s, s)

-- `formatTime`, and `parseTime` of the column.
unfoldable pub format_time : Time → Time → Time
format_time now t = if eqb t 0 then now else t

unfoldable pub nullable_time : Time → Option Time → Option Time
unfolding format_time
nullable_time now none = none
nullable_time now (some t) = if eqb t 0 then none else some (format_time now t)

-- `d.id = … AND d.workspace_id = … AND d.valid_to IS NULL`
unfoldable pub active_row : {F : Type 0} → String → String → Decision F → Bool
unfolding is_active
active_row id workspace_id d = d.id == id && d.workspace_id == workspace_id && is_active d

module _ {F G : Type 0} where
  -- `REFERENCES workspaces(id)`
  abbrev pub references_workspace : Db F G → String → Bool
  references_workspace db id = any (with_key (λ w. w.id) id) db.workspaces

  abbrev pub references_decision : Db F G → String → Bool
  references_decision db id = any (with_key (λ d. d.id) id) db.decisions

  abbrev pub references_conflict : Db F G → String → Bool
  references_conflict db id = any (with_key (λ c. c.id) id) db.conflict_rows

  -- `EXISTS (SELECT 1 FROM decisions d WHERE …)`
  unfoldable pub has_active_decision : Db F G → String → String → Bool
  unfolding active_row
  has_active_decision db id workspace_id = any (active_row id workspace_id) db.decisions

-- What is not SQL on rows. `after` compares the texts of two times, which `ORDER BY` sorts by;
-- `matches`, `bm25` and `snippet` are those of FTS5, of a `MATCH` expression; `widen` converts
-- `float32` to `float64`, and `sqrt` is `math.Sqrt`.
pub record Engine (F G : Type 0) : Type 0 where
  pub after : Time → Time → Bool
  pub matches : String → IndexRow → Bool
  pub bm25 : String → List IndexRow → IndexRow → F
  pub snippet : String → IndexRow → String
  pub widen : G → F
  pub sqrt : F → F

-- `ORDER BY … DESC` of a time. Rows of the same time stay in the order of their rowids.
unfoldable pub latest_first : {F G A : Type 0} → Engine F G → (A → Time) → List A → List A
unfolding sort_stable
latest_first engine time rows = sort_stable (λ r s. engine.after (time r) (time s)) rows

-- `if limit <= 0 { limit = fallback }; if limit > 1000 { limit = 1000 }`
unfoldable pub row_limit : ℕ → ℕ → ℕ
row_limit fallback limit = if leb limit 0 then fallback else if ltb 1000 limit then 1000 else limit
