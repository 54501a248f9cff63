-- ===== src/Sqlite/Writes/Atomic.antt =====
-- Calls of the store of internal/adapters/sqlite that fail.
use mathlib.Core.Path.{subst}
use tuskbase.Common.{
  is_blank, String, List, true, not, Bool-cases, Error, Result, ok, err, Exec, pure, lift, ◌>>=◌,
  ◌>>◌, continue, Accepted, Float64, ◌≡◌, refl, sym, ap, ◌∙◌, inl, inr, any, trim_space, eq_iff,
  arith, ◌||◌,
}
use tuskbase.Domain.Types.{
  Workspace, is_active, Time, Decision, DecisionCandidate, RepoDocument, LookupReceipt, Assessment,
  Conflict, ConflictResolution,
}
use tuskbase.Domain.Parse.{CandidateStatus, parse_conflict_status, parse_decision_candidate_status}
use tuskbase.Domain.Validate.{
  validate_workspace, validate_candidate, validate_assessment, validate_conflict,
  validate_conflict_resolution,
}
use tuskbase.Sqlite.Tables.{
  Db, statement, transaction, reading, executed, keep_committed, update, with_key,
}
use tuskbase.Sqlite.Writes.{
  Write, upserts_workspace, saves_decision, upserts_candidate, updates_status, replaces_documents,
  saves_receipt, saves_assessment, saves_conflict, resolves_conflict, indexes_decision,
  indexes_document, upserts_vector, unread, perform,
}
use tuskbase.Sqlite.Workspaces.{upsert_workspace, write_workspace, kept_creation, find_workspace}
use tuskbase.Sqlite.Index.{
  index_decision, index_document, delete_index, delete_vectors, insert_index,
}
use tuskbase.Sqlite.Vectors.{upsert_vector, vector_of, is_empty}
use tuskbase.Sqlite.Candidates.Reviews.{write_candidate-found}
use tuskbase.Ports.{DecisionCandidateStatusUpdate, VectorRecord}
use tuskbase.Sqlite.Candidates.{
  update_decision_candidate_status, write_candidate_status, updated_row, set_candidate_status,
  get_decision_candidate, find_candidate, upsert_decision_candidate, pending_by_default,
  write_candidate,
}
use tuskbase.Sqlite.Decisions.{save_decision, write_decision, ready_to_save, with_defaults}
use tuskbase.Sqlite.Conflicts.{
  insert_conflict, set_resolved, resolved_by_default, save_conflict, resolve_conflict,
  write_resolution, write_status, insert_resolution, get_conflict, find_conflict, conflict_of,
}
use tuskbase.Sqlite.Documents.{
  replace_workspace_documents, save_lookup_receipt, save_assessment, insert_assessment,
}
use tuskbase.Sqlite.Conflicts.Opened.{insert_resolution-conflict_rows}
use tuskbase.Sqlite.Tables.Rows.{first-any, any-update-keeps, any_mono}
use tuskbase.Sqlite.Tables.Runs.{
  ok-injective, statement-eq-ok, statements-eq-ok, transaction-eq-ok, fail_if-eq-ok,
}

module _ {S A : Type 0} where
  -- A failure leaves the state as it was.
  abbrev pub Atomic : Exec S A → Type 0
  Atomic m = (s t : S) (e : Error) → m s ≡ (err e, t) → t ≡ s

  -- The state is left alone.
  abbrev pub ReadOnly : Exec S A → Type 0
  ReadOnly m = (s : S) → (m s).1 ≡ s

  pub lift-Atomic : (r : Result A) → Atomic (lift {S = S} r)
  lift-Atomic r s t e h = sym (ap (λ p. p.1) h)

  pub transaction-Atomic : (m : Exec S A) → Atomic (transaction m)
  transaction-Atomic m s t e h = go (m s) h
    where
      go : (p : Result A × S) → keep_committed s p ≡ (err e, t) → t ≡ s
      go (ok a, u) q = cc
      go (err f, u) q = sym (ap (λ p. p.1) q)

pub statement-Atomic : {S : Type 0} (f : S → Result S) → Atomic (statement f)
statement-Atomic f s t e h = go (f s) h
  where
    go : (r : Result _) → executed r s ≡ (err e, t) → t ≡ s
    go (ok u) q = cc
    go (err g) q = sym (ap (λ p. p.1) q)

module _ {S A B : Type 0} (m : Exec S A) (f : A → Exec S B) where
  -- A part that only reads before one that is atomic.
  pub bind-Atomic : ReadOnly m → ((a : A) → Atomic (f a)) → Atomic (m >>= f)
  bind-Atomic r g s t e h = go (m s) (r s) h
    where
      go : (p : Result A × S) → p.1 ≡ s → continue p.0 f p.1 ≡ (err e, t) → t ≡ s
      go (ok a, u) same k = g a u t e k ∙ same
      go (err x, u) same k = sym (ap (λ p. p.1) k) ∙ same

  -- A part that is atomic before one that then succeeds.
  pub bind-Atomic-Accepted :
      Atomic m → ((s : S) (a : A) (u : S) → m s ≡ (ok a, u) → Accepted (f a u).0) → Atomic (m >>= f)
  bind-Atomic-Accepted r g s t e h = go (m s) refl h
    where
      refuse : (p : Result B × S) → Accepted p.0 → p ≡ (err e, t) → t ≡ s
      refuse (ok b, u) a q = cc
      refuse (err x, u) a q = absurd a

      go : (p : Result A × S) → m s ≡ p → continue p.0 f p.1 ≡ (err e, t) → t ≡ s
      go (ok a, u) same k = refuse (f a u) (g s a u same) k
      go (err x, u) same k = sym (ap (λ p. p.1) k) ∙ r s u x same

-- A check before a part that is atomic.
pub check-Atomic :
    {S A B : Type 0} (r : Result A) (f : A → Exec S B)
    → ((a : A) → Atomic (f a))
    → Atomic (lift r >>= f)
check-Atomic r f g = bind-Atomic (lift r) f (λ s. refl) g

module _ {F G : Type 0} where
  replace_workspace_documents-Atomic :
      (w : String) (docs : List RepoDocument)
      → Atomic (replace_workspace_documents {F = F} {G = G} w docs)
  unfolding replace_workspace_documents
  replace_workspace_documents-Atomic w docs = transaction-Atomic _

  save_lookup_receipt-Atomic : (r : LookupReceipt F) → Atomic (save_lookup_receipt {G = G} r)
  unfolding save_lookup_receipt
  save_lookup_receipt-Atomic r = transaction-Atomic _

  save_assessment-Atomic : (a : Assessment) → Atomic (save_assessment {F = F} {G = G} a)
  unfolding save_assessment
  save_assessment-Atomic a =
      check-Atomic (validate_assessment a) _ (λ x. statement-Atomic (insert_assessment a))

  write_resolution-Atomic :
      (id status : String) (at : Time) (r : ConflictResolution)
      → Atomic (write_resolution {F = F} {G = G} id status at r)
  unfolding write_resolution
  write_resolution-Atomic id status at r = transaction-Atomic _

  get_conflict-Accepted :
      (id : String) (t : Db F G)
      → any (with_key (λ c. c.id) id) t.conflict_rows ≡ true
      → Accepted (get_conflict id t).0
  unfolding get_conflict find_conflict
  get_conflict-Accepted id t h =
      let (c, found, _) = first-any (with_key (λ c. c.id) id) t.conflict_rows h in rw found tt

  write_status-kept :
      (id status : String) (at : Time) (r : ConflictResolution) (s v : Db F G)
      → write_status id status at r s ≡ ok v
      → any (with_key (λ c. c.id) id) v.conflict_rows ≡ true
  unfolding write_status conflict_of set_resolved
  write_status-kept id status at r s v h =
      let (found, same) = fail_if-eq-ok _ _ _ v h in
      subst (λ (x : Db F G). any (with_key (λ c. c.id) id) x.conflict_rows ≡ true)
        (ok-injective _ v same)
        (any-update-keeps (with_key (λ c. c.id) id) (conflict_of id r.workspace_id) _
            s.conflict_rows (λ c. refl)
          ∙ any_mono (conflict_of id r.workspace_id) (with_key (λ c. c.id) id) s.conflict_rows
              (λ c e. ground arith) (ground arith))

  -- The row that was updated is still there to be read.
  write_resolution-get_conflict :
      (id status : String) (at : Time) (r : ConflictResolution) (s : Db F G) (u : Unit {0})
      (t : Db F G)
      → write_resolution id status at r s ≡ (ok u, t)
      → Accepted (get_conflict id t).0
  unfolding write_resolution
  write_resolution-get_conflict id status at r s u t h =
      let (v, written, resolved) =
        statements-eq-ok (write_status id status at r) (insert_resolution r) s u t (
          transaction-eq-ok
            (statement (write_status id status at r) >> statement (insert_resolution r)) s u t h) in
      get_conflict-Accepted id t (
        subst (λ rows. any (with_key (λ c. c.id) id) rows ≡ true)
          (insert_resolution-conflict_rows r v t resolved)
          (write_status-kept id status at r s v written))

  resolve_conflict-Atomic :
      (id status : String) (at : Time) (r : ConflictResolution)
      → Atomic (resolve_conflict {F = F} {G = G} id status at r)
  unfolding resolve_conflict
  resolve_conflict-Atomic id status at r =
      check-Atomic (parse_conflict_status (resolved_by_default status)) _ (λ x.
        check-Atomic (validate_conflict_resolution r) _ (λ y.
          bind-Atomic-Accepted (write_resolution id (resolved_by_default status) at r) _
            (write_resolution-Atomic id _ at r) (write_resolution-get_conflict id _ at r)))

  module _ ⦃fl : Float64 F⦄ where
    save_decision-Atomic : (d : Decision F) → Atomic (save_decision {G = G} d)
    unfolding save_decision
    save_decision-Atomic d =
        bind-Atomic (reading (λ db. ok (with_defaults db.now d))) _ (λ s. refl)
          (λ x. check-Atomic (ready_to_save x) _ (λ y. transaction-Atomic (write_decision x)))

    save_conflict-Atomic : (c : Conflict F) → Atomic (save_conflict {G = G} c)
    unfolding save_conflict
    save_conflict-Atomic c = check-Atomic (parse_conflict_status c.status) _ (λ x.
        let stored : Conflict F = record c { status = x } in
        check-Atomic (validate_conflict stored) _ (λ y. statement-Atomic (insert_conflict stored)))

    upsert_decision_candidate-Atomic :
        (c : DecisionCandidate F) → Atomic (upsert_decision_candidate {G = G} c)
    unfolding upsert_decision_candidate
    upsert_decision_candidate-Atomic given =
        let c = pending_by_default given in
        check-Atomic (validate_candidate c) _ (λ x.
          bind-Atomic-Accepted (statement (write_candidate c)) _
            (statement-Atomic (write_candidate c))
            (λ s u t h.
              rw (write_candidate-found c s t (statement-eq-ok (write_candidate c) s u t h)) tt))

module _ {F G : Type 0} ⦃fl : Float64 F⦄ where
  -- A candidate whose status is updated is looked for again by the identifier as it was given.
  abbrev pub Addressed : Write F G → Type 0
  Addressed (updates_status u) = trim_space u.id ≡ u.id
  Addressed _ = Unit

  unread-Atomic : {A : Type 0} (m : Exec (Db F G) A) → Atomic m → Atomic (unread m)
  unread-Atomic m h = bind-Atomic-Accepted m (λ a. pure tt) h (λ s a u e. tt)

  upsert_workspace-Atomic : (w : Workspace) → Atomic (upsert_workspace {F = F} {G = G} w)
  unfolding upsert_workspace
  upsert_workspace-Atomic w = check-Atomic (validate_workspace w) _ (λ x.
      bind-Atomic (reading (λ db. ok (kept_creation (find_workspace w.id db) w))) _ (λ s. refl)
        (λ v.
          bind-Atomic-Accepted (statement (write_workspace v)) (λ u. pure v)
            (statement-Atomic (write_workspace v)) (λ s a u e. tt)))

  index_decision-Accepted : (d : Decision F) (s : Db F G) → Accepted (index_decision d s).0
  unfolding index_decision delete_index delete_vectors insert_index
  index_decision-Accepted d s = elim (Bool-cases (is_active d)) [
    | inl is ↦ rw is tt
    | inr not_ ↦ rw not_ tt
  ]

  Accepted-Atomic :
      {A : Type 0} (m : Exec (Db F G) A) → ((s : Db F G) → Accepted (m s).0) → Atomic m
  Accepted-Atomic {A} m h s t e q = go (m s) (h s) q
    where
      go : (p : Result A × Db F G) → Accepted p.0 → p ≡ (err e, t) → t ≡ s
      go (ok a, u) k r = cc
      go (err x, u) k r = absurd k

  index_document-Accepted : (d : RepoDocument) (s : Db F G) → Accepted (index_document d s).0
  unfolding index_document insert_index
  index_document-Accepted d s = tt

  upsert_vector-Accepted : (r : VectorRecord (List G)) (s : Db F G) → Accepted (upsert_vector r s).0
  unfolding upsert_vector
  upsert_vector-Accepted r s =
      elim (Bool-cases (is_blank r.workspace_id || is_empty (vector_of r.vector))) [
        | inl is ↦ rw is tt
        | inr not_ ↦ rw not_ tt
      ]

  -- The candidate whose status was written is there to be read.
  write_candidate_status-Accepted :
      (status : CandidateStatus) (u : DecisionCandidateStatusUpdate) (s t : Db F G)
      → trim_space u.id ≡ u.id
      → write_candidate_status status u s ≡ ok t
      → Accepted (get_decision_candidate u.id t).0
  unfolding write_candidate_status updated_row set_candidate_status get_decision_candidate
      find_candidate
  write_candidate_status-Accepted status u s t a h =
      let here = with_key (λ r. r.id) u.id in
      let (missing, same) =
        fail_if-eq-ok (not (any (updated_row u) s.decision_candidates)) _ _ t h in
      let kept : any here
            (update (updated_row u) (set_candidate_status s.now status u) s.decision_candidates)
          ≡ true =
        any-update-keeps here (updated_row u) (set_candidate_status s.now status u)
          s.decision_candidates (λ r. refl)
        ∙ any_mono (updated_row u) here s.decision_candidates
            (λ r e. ground (arith, eq_iff r.id u.id, eq_iff r.id (trim_space u.id)))
            (ground arith) in
      let (r, found, _) = first-any here t.decision_candidates (
        subst (λ (x : Db F G). any here x.decision_candidates ≡ true) (ok-injective _ t same)
          kept) in
      rw found tt

  update_decision_candidate_status-Atomic :
      (u : DecisionCandidateStatusUpdate)
      → trim_space u.id ≡ u.id
      → Atomic (update_decision_candidate_status {F = F} {G = G} u)
  unfolding update_decision_candidate_status
  update_decision_candidate_status-Atomic u a =
      check-Atomic (parse_decision_candidate_status u.status) _ (λ status.
        bind-Atomic-Accepted (statement (write_candidate_status status u)) _
          (statement-Atomic (write_candidate_status status u))
          (λ s x t h.
            write_candidate_status-Accepted status u s t a
              (statement-eq-ok (write_candidate_status status u) s x t h)))

  -- A call of the store that fails leaves the database as it was. The status of a candidate is the
  -- one exception, and only where the identifier has space around it.
  pub perform-Atomic :
      (w : Write F G) → Addressed w → (s t : Db F G) (e : Error) → perform w s ≡ (err e, t) → t ≡ s
  unfolding perform
  perform-Atomic (upserts_workspace w) a = unread-Atomic _ (upsert_workspace-Atomic w)
  perform-Atomic (saves_decision d) a = save_decision-Atomic d
  perform-Atomic (upserts_candidate c) a = unread-Atomic _ (upsert_decision_candidate-Atomic c)
  perform-Atomic (updates_status u) a =
      unread-Atomic _ (update_decision_candidate_status-Atomic u a)
  perform-Atomic (replaces_documents w docs) a = replace_workspace_documents-Atomic w docs
  perform-Atomic (saves_receipt r) a = save_lookup_receipt-Atomic r
  perform-Atomic (saves_assessment x) a = save_assessment-Atomic x
  perform-Atomic (saves_conflict c) a = save_conflict-Atomic c
  perform-Atomic (resolves_conflict id status at r) a =
      unread-Atomic _ (resolve_conflict-Atomic id status at r)
  perform-Atomic (indexes_decision d) a = Accepted-Atomic _ (index_decision-Accepted d)
  perform-Atomic (indexes_document d) a = Accepted-Atomic _ (index_document-Accepted d)
  perform-Atomic (upserts_vector r) a = Accepted-Atomic _ (upsert_vector-Accepted r)
