-- ===== src/Sqlite/Writes/Preserves/Calls.antt =====
-- The calls on internal/adapters/sqlite, and what they keep if their statements do.
use mathlib.Core.Path.{subst}
use tuskbase.Common.{
  String, not, ◌||◌, is_blank, Bool-cases, List, [], ◌∷◌, ok, pure, lift, ◌>>=◌, ◌>>◌, Float64,
  refl, sym, inl, inr,
}
use tuskbase.Domain.Parse.{
  ConflictStatus, CandidateStatus, parse_conflict_status, parse_decision_candidate_status,
}
use tuskbase.Domain.Types.{
  Time, RepoDocument, Decision, is_active, DecisionCandidate, Conflict, ConflictResolution,
  LookupReceipt,
}
use tuskbase.Domain.Validate.{
  validate_workspace, validate_candidate, validate_assessment, validate_conflict,
  validate_conflict_resolution,
}
use tuskbase.Ports.{DecisionCandidateStatusUpdate, VectorRecord}
use tuskbase.Sqlite.Tables.{Db, statement, transaction, reading, references_workspace}
use tuskbase.Sqlite.Tables.Runs.{ok-injective, fail_if-eq-ok, map_result-eq-ok}
use tuskbase.Sqlite.Workspaces.{upsert_workspace, write_workspace, kept_creation, find_workspace}
use tuskbase.Sqlite.Decisions.{
  save_decision, write_decision, ready_to_save, with_defaults, supersede_if_named, insert_decision,
}
use tuskbase.Sqlite.Children.{replace_decision_children}
use tuskbase.Sqlite.Candidates.{
  upsert_decision_candidate, pending_by_default, write_candidate, find_by_source_hash,
  put_candidate, candidate_row, update_decision_candidate_status, write_candidate_status,
  get_decision_candidate,
}
use tuskbase.Sqlite.Documents.{
  replace_workspace_documents, delete_documents, insert_documents, insert_document,
  save_lookup_receipt, insert_receipt, insert_receipt_results, save_assessment, insert_assessment,
}
use tuskbase.Sqlite.Conflicts.{
  save_conflict, insert_conflict, resolve_conflict, write_resolution, write_status,
  insert_resolution, resolved_by_default, get_conflict,
}
use tuskbase.Sqlite.Index.{
  index_decision, index_document, delete_index, delete_vectors, insert_index,
}
use tuskbase.Sqlite.Vectors.{upsert_vector, vector_of, is_empty}
use tuskbase.Sqlite.Writes
use tuskbase.Sqlite.Writes.{Write, unread, perform, replay}
use tuskbase.Sqlite.Decisions.Saved.{rewritten}
use tuskbase.Sqlite.Writes.Preserves.{
  Keeps, Stable, Preserves, statement-Preserves, bind-Preserves, transaction-Preserves,
  then-Preserves, check-Preserves,
}

module _ {F G : Type 0} (Inv : Db F G → Type 0) (inv : Stable Inv) where
  replace_decision_children-Keeps : (d : Decision F) → Keeps Inv (replace_decision_children d)
  replace_decision_children-Keeps d s t h wf =
      let same = (rewritten d s t h).rest in
      subst Inv (sym same) (inv.elsewhere s _ refl refl refl refl refl wf)

  -- Statements on the other tables.
  write_candidate-Keeps : (c : DecisionCandidate F) → Keeps Inv (write_candidate c)
  unfolding write_candidate
  write_candidate-Keeps c s t h wf =
      let (_, kept) = fail_if-eq-ok (not (references_workspace s c.workspace_id)) _ _ t h in
      let (rows, _, same) =
        map_result-eq-ok _ (put_candidate (candidate_row s.now c) s.decision_candidates) t kept in
      subst Inv same (inv.elsewhere s _ refl refl refl refl refl wf)

  write_candidate_status-Keeps :
      (status : CandidateStatus) (u : DecisionCandidateStatusUpdate)
      → Keeps Inv (write_candidate_status status u)
  unfolding write_candidate_status
  write_candidate_status-Keeps status u s t h wf =
      let (_, same) = fail_if-eq-ok _ _ _ t h in
      subst Inv (ok-injective _ t same) (inv.elsewhere s _ refl refl refl refl refl wf)

  delete_documents-Keeps : (w : String) → Keeps Inv (delete_documents w)
  unfolding delete_documents
  delete_documents-Keeps w s t h wf =
      subst Inv (ok-injective _ t h) (inv.elsewhere s _ refl refl refl refl refl wf)

  insert_document-Keeps : (w : String) (d : RepoDocument) → Keeps Inv (insert_document w d)
  unfolding insert_document
  insert_document-Keeps w d s t h wf =
      let (_, kept) = fail_if-eq-ok (not (references_workspace s w)) _ _ t h in
      let (rows, _, same) = map_result-eq-ok _ _ t kept in
      subst Inv same (inv.elsewhere s _ refl refl refl refl refl wf)

  insert_documents-Preserves :
      (w : String) (ds : List RepoDocument) → Preserves Inv (insert_documents w ds)
  unfolding insert_documents
  insert_documents-Preserves w [] = λ s wf. wf
  insert_documents-Preserves w (d ∷ ds) =
      then-Preserves Inv (statement (insert_document w d)) (insert_documents w ds)
        (statement-Preserves Inv (insert_document w d) (insert_document-Keeps w d))
        (insert_documents-Preserves w ds)

  insert_receipt-Keeps : (r : LookupReceipt F) → Keeps Inv (insert_receipt r)
  unfolding insert_receipt
  insert_receipt-Keeps r s t h wf =
      let (_, kept) = fail_if-eq-ok (not (references_workspace s r.workspace_id)) _ _ t h in
      let (rows, _, same) = map_result-eq-ok _ _ t kept in
      subst Inv same (inv.elsewhere s _ refl refl refl refl refl wf)

  insert_receipt_results-Keeps : (r : LookupReceipt F) → Keeps Inv (insert_receipt_results r)
  unfolding insert_receipt_results
  insert_receipt_results-Keeps r s t h wf =
      let (rows, _, same) = map_result-eq-ok _ _ t h in
      subst Inv same (inv.elsewhere s _ refl refl refl refl refl wf)

  index_decision-Preserves : (d : Decision F) → Preserves Inv (index_decision d)
  unfolding index_decision delete_index delete_vectors insert_index
  index_decision-Preserves d s wf = elim (Bool-cases (is_active d)) [
    | inl is ↦ rw is (inv.elsewhere s _ refl refl refl refl refl wf)
    | inr not_ ↦ rw not_ (inv.elsewhere s _ refl refl refl refl refl wf)
  ]

  upsert_vector-Preserves : (r : VectorRecord (List G)) → Preserves Inv (upsert_vector r)
  unfolding upsert_vector
  upsert_vector-Preserves r s wf =
      elim (Bool-cases (is_blank r.workspace_id || is_empty (vector_of r.vector))) [
        | inl is ↦ rw is (inv.elsewhere s _ refl refl refl refl refl wf)
        | inr not_ ↦ rw not_ (inv.elsewhere s _ refl refl refl refl refl wf)
      ]

  module _ ⦃fl : Float64 F⦄ where
    save_decision-Preserves : (d : Decision F) → Preserves Inv (save_decision d)
    unfolding save_decision write_decision
    save_decision-Preserves d =
        bind-Preserves Inv (reading (λ db. ok (with_defaults db.now d)))
          (λ x. lift (ready_to_save x) >> transaction (write_decision x)) (λ s wf. wf)
          (λ x.
            check-Preserves Inv (ready_to_save x) (λ y. transaction (write_decision x))
              (λ y. transaction-Preserves Inv (write_decision x) (
                then-Preserves Inv (statement (supersede_if_named x))
                  (statement (insert_decision x) >> statement (replace_decision_children x))
                  (statement-Preserves Inv (supersede_if_named x) (inv.supersession x))
                  (then-Preserves Inv (statement (insert_decision x))
                    (statement (replace_decision_children x))
                    (statement-Preserves Inv (insert_decision x) (inv.decision x))
                    (statement-Preserves Inv (replace_decision_children x)
                      (replace_decision_children-Keeps x))))))

    resolve_conflict-Preserves :
        (id status : String) (at : Time) (r : ConflictResolution)
        → Preserves Inv (resolve_conflict id status at r)
    unfolding resolve_conflict write_resolution get_conflict
    resolve_conflict-Preserves id status at r =
        let st = resolved_by_default status in
        let rest = write_resolution id st at r >> get_conflict id in
        check-Preserves Inv (parse_conflict_status st)
          (λ x. lift (validate_conflict_resolution r) >> rest)
          (λ x.
            check-Preserves Inv (validate_conflict_resolution r) (λ y. rest)
              (λ y.
                then-Preserves Inv (write_resolution id st at r) (get_conflict id)
                  (transaction-Preserves Inv
                    (statement (write_status id st at r) >> statement (insert_resolution r))
                    (then-Preserves Inv (statement (write_status id st at r))
                      (statement (insert_resolution r))
                      (statement-Preserves Inv (write_status id st at r) (inv.status id st at r))
                      (statement-Preserves Inv (insert_resolution r) (inv.resolution r))))
                  (λ s wf. wf)))

    perform-Preserves : (w : Write F G) → Preserves Inv (perform w)
    unfolding perform upsert_workspace upsert_decision_candidate update_decision_candidate_status
        get_decision_candidate replace_workspace_documents save_lookup_receipt save_assessment
        save_conflict index_document insert_index
    perform-Preserves (Writes.upserts_workspace w) =
        then-Preserves Inv (upsert_workspace w) (pure tt)
          (check-Preserves Inv (validate_workspace w)
            (λ x. reading (λ db. ok (kept_creation (find_workspace w.id db) w)) >>= λ v.
              statement (write_workspace v) >> pure v)
            (λ x.
              bind-Preserves Inv (reading (λ db. ok (kept_creation (find_workspace w.id db) w)))
                (λ v. statement (write_workspace v) >> pure v) (λ s wf. wf)
                (λ v.
                  then-Preserves Inv (statement (write_workspace v)) (pure v)
                    (statement-Preserves Inv (write_workspace v) (inv.workspace v)) (λ s wf. wf))))
          (λ s wf. wf)
    perform-Preserves (Writes.saves_decision d) = save_decision-Preserves d
    perform-Preserves (Writes.upserts_candidate c) =
        let p = pending_by_default c in
        let found = reading (find_by_source_hash p.workspace_id p.source_hash) in
        then-Preserves Inv (upsert_decision_candidate c) (pure tt)
          (check-Preserves Inv (validate_candidate p) (λ x. statement (write_candidate p) >> found)
            (λ x.
              then-Preserves Inv (statement (write_candidate p)) found
                (statement-Preserves Inv (write_candidate p) (write_candidate-Keeps p))
                (λ s wf. wf)))
          (λ s wf. wf)
    perform-Preserves (Writes.updates_status u) =
        then-Preserves Inv (update_decision_candidate_status u) (pure tt)
          (check-Preserves Inv (parse_decision_candidate_status u.status)
            (λ st. statement (write_candidate_status st u) >> get_decision_candidate u.id)
            (λ st.
              then-Preserves Inv (statement (write_candidate_status st u))
                (get_decision_candidate u.id)
                (statement-Preserves Inv (write_candidate_status st u)
                  (write_candidate_status-Keeps st u))
                (λ s wf. wf)))
          (λ s wf. wf)
    perform-Preserves (Writes.replaces_documents w docs) =
        transaction-Preserves Inv (statement (delete_documents w) >> insert_documents w docs) (
          then-Preserves Inv (statement (delete_documents w)) (insert_documents w docs)
            (statement-Preserves Inv (delete_documents w) (delete_documents-Keeps w))
            (insert_documents-Preserves w docs))
    perform-Preserves (Writes.saves_receipt r) =
        transaction-Preserves Inv
          (statement (insert_receipt r) >> statement (insert_receipt_results r))
          (then-Preserves Inv (statement (insert_receipt r)) (statement (insert_receipt_results r))
            (statement-Preserves Inv (insert_receipt r) (insert_receipt-Keeps r))
            (statement-Preserves Inv (insert_receipt_results r) (insert_receipt_results-Keeps r)))
    perform-Preserves (Writes.saves_assessment a) =
        check-Preserves Inv (validate_assessment a) (λ x. statement (insert_assessment a))
          (λ x. statement-Preserves Inv (insert_assessment a) (inv.assessment a))
    perform-Preserves (Writes.saves_conflict c) =
        let stored : ConflictStatus → Conflict F = λ status. record c { status = status } in
        check-Preserves Inv (parse_conflict_status c.status)
          (λ status.
            lift (validate_conflict (stored status)) >> statement (insert_conflict (stored status)))
          (λ status.
            check-Preserves Inv (validate_conflict (stored status))
              (λ x. statement (insert_conflict (stored status)))
              (λ x.
                statement-Preserves Inv (insert_conflict (stored status))
                  (inv.conflict (stored status))))
    perform-Preserves (Writes.resolves_conflict id status at r) =
        then-Preserves Inv (resolve_conflict id status at r) (pure tt)
          (resolve_conflict-Preserves id status at r) (λ s wf. wf)
    perform-Preserves (Writes.indexes_decision d) = index_decision-Preserves d
    perform-Preserves (Writes.indexes_document d) =
        λ s wf. inv.elsewhere s _ refl refl refl refl refl wf
    perform-Preserves (Writes.upserts_vector r) = upsert_vector-Preserves r

    pub replay-Preserves : (ws : List (Write F G)) (s : Db F G) → Inv s → Inv (replay ws s)
    unfolding replay
    replay-Preserves [] s wf = wf
    replay-Preserves (w ∷ ws) s wf = replay-Preserves ws (perform w s).1 (perform-Preserves w s wf)
