-- ===== src/Sqlite/Candidates/Reviews.antt =====
-- What `UpsertDecisionCandidate` of internal/adapters/sqlite/store.go keeps of a candidate that is
-- there already.
use mathlib.Core.Path.{subst}
use tuskbase.Common.{
  Bool, true, not, Bool-cases, List, any, Option, none, some, ok, err, lift-eq-ok, bind-eq-ok,
  Float64, ◌≡◌, refl, sym, ap, ◌∙◌, inl, inr, arith, eq_iff,
}
use tuskbase.Domain.Types.{DecisionCandidate}
use tuskbase.Domain.Validate.{validate_candidate}
use tuskbase.Sqlite.Tables.{Db, first, one_row, statement, no_rows, references_workspace}
use tuskbase.Sqlite.Tables.Rows.{first-any, first-none, first-update, first-append}
use tuskbase.Sqlite.Tables.Runs.{
  ok-injective, statement-eq-ok, fail_if-eq-ok, map_result-eq-ok, insert-eq-ok,
}
use tuskbase.Sqlite.Candidates.{
  same_source, candidate_row, renew_candidate, put_candidate, pending_by_default, write_candidate,
  find_by_source_hash, upsert_decision_candidate,
}

module _ {F : Type 0} where
  -- The row that stands for a source after an upsert.
  abbrev merged : DecisionCandidate F → Option (DecisionCandidate F) → DecisionCandidate F
  merged row none = row
  merged row (some r) = renew_candidate row r

  abbrev source_of : DecisionCandidate F → DecisionCandidate F → Bool
  source_of row = same_source row.workspace_id row.source_hash

  source_of_self : (row : DecisionCandidate F) → source_of row row ≡ true
  unfolding same_source
  source_of_self row =
      ground
        (arith, eq_iff row.workspace_id row.workspace_id, eq_iff row.source_hash row.source_hash)

  source_of-renew_candidate :
      (row x : DecisionCandidate F) → source_of row (renew_candidate row x) ≡ source_of row x
  unfolding same_source renew_candidate
  source_of-renew_candidate row x = refl

  put_candidate-first :
      (row : DecisionCandidate F) (rows more : List (DecisionCandidate F))
      → put_candidate row rows ≡ ok more
      → first (source_of row) more ≡ some (merged row (first (source_of row) rows))
  unfolding put_candidate
  put_candidate-first row rows more h = elim (Bool-cases (any (source_of row) rows)) [
    | inl old ↦
        let (r, found, is) = first-any (source_of row) rows old in
        let same = ok-injective _ more (rw old at h) in
        rw (sym same) (
          rw found (
            first-update (source_of row) (source_of row) (renew_candidate row) rows
              (source_of-renew_candidate row) r found
            ∙ rw is refl))
    | inr new ↦
        let (_, same) = insert-eq-ok (λ r. r.id) row rows more (rw new at h) in
        rw (sym same) (
          rw (first-none (source_of row) rows new)
            (first-append (source_of row) rows row new (source_of_self row)))
  ]

  -- The review of a candidate, and what its source says.
  abbrev pub SameReview : DecisionCandidate F → DecisionCandidate F → Type 0
  SameReview a b =
      (a.id ≡ b.id)
      × (a.status ≡ b.status)
      × (a.accepted_decision_id ≡ b.accepted_decision_id)
      × (a.rejection_summary ≡ b.rejection_summary)
      × (a.created_at ≡ b.created_at)

  abbrev pub SameProposal : DecisionCandidate F → DecisionCandidate F → Type 0
  SameProposal a b =
      (a.type ≡ b.type)
      × (a.title ≡ b.title)
      × (a.outcome ≡ b.outcome)
      × (a.rationale ≡ b.rationale)
      × (a.confidence ≡ b.confidence)
      × (a.source_snippet ≡ b.source_snippet)

  merged-SameReview :
      (row r : DecisionCandidate F) (o : Option (DecisionCandidate F))
      → one_row o ≡ ok r
      → SameReview (merged row o) r × SameProposal (merged row o) row
  unfolding renew_candidate
  merged-SameReview row r none h = cc
  merged-SameReview row r (some x) h =
      subst (λ y. SameReview (renew_candidate row x) y × SameProposal (renew_candidate row x) row)
        (ok-injective x r h) ((refl, refl, refl, refl, refl), (refl, refl, refl, refl, refl, refl))

  merged-new :
      (row : DecisionCandidate F) (o : Option (DecisionCandidate F))
      → one_row o ≡ err no_rows
      → merged row o ≡ row
  merged-new row none h = refl
  merged-new row (some x) h = cc

module _ {F G : Type 0} where
  write_candidate-first :
      (c : DecisionCandidate F) (s t : Db F G)
      → write_candidate c s ≡ ok t
      → first (source_of c) t.decision_candidates
        ≡ some (merged (candidate_row s.now c) (first (source_of c) s.decision_candidates))
  unfolding write_candidate candidate_row
  write_candidate-first c s t h =
      let (_, kept) = fail_if-eq-ok (not (references_workspace s c.workspace_id)) _ _ t h in
      let (rows, put, same) =
        map_result-eq-ok _ (put_candidate (candidate_row s.now c) s.decision_candidates) t kept in
      subst
        (λ (x : Db F G).
          first (source_of c) x.decision_candidates
          ≡ some (merged (candidate_row s.now c) (first (source_of c) s.decision_candidates)))
        same (put_candidate-first (candidate_row s.now c) s.decision_candidates rows put)

  pub write_candidate-found :
      (c : DecisionCandidate F) (s t : Db F G)
      → write_candidate c s ≡ ok t
      → find_by_source_hash c.workspace_id c.source_hash t
        ≡ ok (merged (candidate_row s.now c) (first (source_of c) s.decision_candidates))
  unfolding find_by_source_hash
  write_candidate-found c s t h = rw (write_candidate-first c s t h) refl

  module _ ⦃fl : Float64 F⦄ where
    -- An upsert that succeeds returns the candidate that the store now has for the source. Where it
    -- had one before, that candidate's identifier, review and time of creation are kept and the
    -- proposal is the new one; where it had none, the candidate is the given one, pending where it
    -- has no status, with the current time for the times that are not set.
    pub upsert_decision_candidate-SameReview :
        (c got : DecisionCandidate F) (s t : Db F G)
        → upsert_decision_candidate c s ≡ (ok got, t)
        → (find_by_source_hash c.workspace_id c.source_hash t ≡ ok got)
          × ((r : DecisionCandidate F)
              → find_by_source_hash c.workspace_id c.source_hash s ≡ ok r
              → SameReview got r × SameProposal got c)
          × (find_by_source_hash c.workspace_id c.source_hash s ≡ err no_rows
              → got ≡ candidate_row s.now (pending_by_default c))
    unfolding upsert_decision_candidate pending_by_default find_by_source_hash candidate_row
    upsert_decision_candidate-SameReview c got s t h =
        let p = pending_by_default c in
        let (_, _, written) = lift-eq-ok (validate_candidate p) _ s got t h in
        let (u, v, stored, read) = bind-eq-ok (statement (write_candidate p)) _ s got t written in
        let found =
          write_candidate-found p s v (statement-eq-ok (write_candidate p) s u v stored) in
        let row = candidate_row s.now p in
        let before = first (source_of p) s.decision_candidates in
        let back : find_by_source_hash c.workspace_id c.source_hash v ≡ ok got =
          ap (λ x. x.0) read in
        let is_got : merged row before ≡ got = ok-injective _ got (sym found ∙ back) in
        (
          subst (λ x. find_by_source_hash c.workspace_id c.source_hash x ≡ ok got)
              (ap (λ x. x.1) read) back,
          λ r old.
              subst (λ x. SameReview x r × SameProposal x c) is_got
                (merged-SameReview row r before old),
          λ new. sym is_got ∙ merged-new row before new,
        )
