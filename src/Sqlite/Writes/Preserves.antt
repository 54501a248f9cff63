-- ===== src/Sqlite/Writes/Preserves.antt =====
-- What every sequence of calls on internal/adapters/sqlite keeps, if its statements do.
pub mod Calls
use mathlib.Core.Path.{subst}
use tuskbase.Common.{
  String, not, ◌||◌, is_blank, Bool-cases, List, [], ◌∷◌, Result, ok, err, Exec, pure, lift,
  continue, ◌>>=◌, ◌>>◌, Float64, ◌≡◌, refl, sym, inl, inr,
}
use tuskbase.Domain.Parse.{
  ConflictStatus, CandidateStatus, parse_conflict_status, parse_decision_candidate_status,
}
use tuskbase.Domain.Types.{
  Time, Workspace, Assessment, RepoDocument, Decision, is_active, DecisionCandidate, Conflict,
  ConflictResolution, LookupReceipt,
}
use tuskbase.Domain.Validate.{
  validate_workspace, validate_candidate, validate_assessment, validate_conflict,
  validate_conflict_resolution,
}
use tuskbase.Ports.{DecisionCandidateStatusUpdate, VectorRecord}
use tuskbase.Sqlite.Tables.{
  Db, statement, transaction, reading, executed, keep_committed, references_workspace,
}
use tuskbase.Sqlite.Tables.Runs.{ok-injective, fail_if-eq-ok, map_result-eq-ok}
use tuskbase.Sqlite.Workspaces.{upsert_workspace, write_workspace, kept_creation, find_workspace}
use tuskbase.Sqlite.Decisions.{
  save_decision, write_decision, ready_to_save, with_defaults, supersede_if_named, insert_decision,
}
use tuskbase.Sqlite.Children.{replace_decision_children}
use tuskbase.Sqlite.Candidates.{
  upsert_decision_candidate, pending_by_default, write_candidate, find_by_source_hash,
  put_candidate, candidate_row, update_decision_candidate_status, write_candidate_status,
  get_decision_candidate,
}
use tuskbase.Sqlite.Documents.{
  replace_workspace_documents, delete_documents, insert_documents, insert_document,
  save_lookup_receipt, insert_receipt, insert_receipt_results, save_assessment, insert_assessment,
}
use tuskbase.Sqlite.Conflicts.{
  save_conflict, insert_conflict, resolve_conflict, write_resolution, write_status,
  insert_resolution, resolved_by_default, get_conflict,
}
use tuskbase.Sqlite.Index.{
  index_decision, index_document, delete_index, delete_vectors, insert_index,
}
use tuskbase.Sqlite.Vectors.{upsert_vector, vector_of, is_empty}
use tuskbase.Sqlite.Writes
use tuskbase.Sqlite.Writes.{Write, unread, perform, replay}
use tuskbase.Sqlite.Decisions.Saved.{rewritten}

-- A statement that keeps an invariant.
abbrev pub Keeps : {F G : Type 0} → (Db F G → Type 0) → (Db F G → Result (Db F G)) → Type 0
Keeps {F = F} {G = G} Inv f = (s t : Db F G) → f s ≡ ok t → Inv s → Inv t

-- An invariant of the five tables between which the schema has references, kept by the statements that
-- write them.
pub record Stable {F G : Type 0} (Inv : Db F G → Type 0) : Type 0 where
  pub elsewhere :
      (s t : Db F G)
      → s.workspaces ≡ t.workspaces
      → s.decisions ≡ t.decisions
      → s.decision_assessments ≡ t.decision_assessments
      → s.conflict_rows ≡ t.conflict_rows
      → s.conflict_resolutions ≡ t.conflict_resolutions
      → Inv s
      → Inv t
  pub workspace : (w : Workspace) → Keeps Inv (write_workspace w)
  pub supersession : (d : Decision F) → Keeps Inv (supersede_if_named d)
  pub decision : (d : Decision F) → Keeps Inv (insert_decision d)
  pub assessment : (a : Assessment) → Keeps Inv (insert_assessment a)
  pub conflict : (c : Conflict F) → Keeps Inv (insert_conflict c)
  pub status :
      (id status : String) (at : Time) (r : ConflictResolution)
      → Keeps Inv (write_status id status at r)
  pub resolution : (r : ConflictResolution) → Keeps Inv (insert_resolution r)

module _ {F G : Type 0} (Inv : Db F G → Type 0) where
  -- A call after which the database is well formed where it was before, failures included.
  abbrev pub Preserves : {A : Type 0} → Exec (Db F G) A → Type 0
  Preserves m = (s : Db F G) → Inv s → Inv (m s).1

  pub statement-Preserves : (f : Db F G → Result (Db F G)) → Keeps Inv f → Preserves (statement f)
  statement-Preserves f k s wf = go (f s) refl
    where
      go : (r : Result (Db F G)) → f s ≡ r → Inv (executed r s).1
      go (ok t) e = k s t e wf
      go (err x) e = wf

  pub bind-Preserves :
      {A B : Type 0} (m : Exec (Db F G) A) (f : A → Exec (Db F G) B)
      → Preserves m
      → ((a : A) → Preserves (f a))
      → Preserves (m >>= f)
  bind-Preserves {A} m f p q s wf = go (m s).0 (p s wf)
    where
      go : (r : Result A) → Inv (m s).1 → Inv (continue r f (m s).1).1
      go (ok a) w = q a (m s).1 w
      go (err e) w = w

  pub transaction-Preserves :
      {A : Type 0} (m : Exec (Db F G) A) → Preserves m → Preserves (transaction m)
  transaction-Preserves {A} m p s wf = go (m s).0 (m s).1 (p s wf)
    where
      go : (r : Result A) (t : Db F G) → Inv t → Inv (keep_committed s (r, t)).1
      go (ok a) t w = w
      go (err e) t w = wf

  pub then-Preserves :
      {A B : Type 0} (m : Exec (Db F G) A) (n : Exec (Db F G) B)
      → Preserves m
      → Preserves n
      → Preserves (m >> n)
  then-Preserves m n p q = bind-Preserves m (λ a. n) p (λ a. q)

  pub check-Preserves :
      {A B : Type 0} (r : Result A) (f : A → Exec (Db F G) B)
      → ((a : A) → Preserves (f a))
      → Preserves (lift r >>= f)
  check-Preserves r f q = bind-Preserves (lift r) f (λ s wf. wf) q
