-- ===== src/Sqlite/Writes/Keeps.antt =====
-- What every call keeps of the database of internal/adapters/sqlite.
use mathlib.Core.Path.{subst}
use tuskbase.Common.{
  String, not, ◌&&◌, ◌==◌, Bool-cases, List, any, Result, ok, ◌≡◌, refl, sym, inl, inr, arith,
}
use tuskbase.Domain.Types.{Time, Workspace, Decision, Assessment, Conflict, ConflictResolution}
use tuskbase.Sqlite.Tables.{
  Db, insert, with_key, references_workspace, references_decision, references_conflict,
}
use tuskbase.Sqlite.Tables.Keys.{
  Keyed, Points, append-Keyed, update-Keyed, append-Points, Points-append, Points-update,
  update-Points,
}
use tuskbase.Sqlite.Tables.Runs.{ok-injective, fail_if-eq-ok, map_result-eq-ok, insert-eq-ok}
use tuskbase.Sqlite.Decisions.{
  superseded_by, close_decision, decision_row, supersede_if_named, insert_decision,
}
use tuskbase.Sqlite.Decisions.Saved.{superseded, inserted}
use tuskbase.Sqlite.Conflicts.{
  conflict_row, insert_conflict, write_status, set_resolved, conflict_of, insert_resolution,
  resolution_row,
}
use tuskbase.Sqlite.Documents.{insert_assessment, assessment_row}
use tuskbase.Sqlite.Workspaces.{write_workspace, put_workspace, renew_workspace, workspace_row}

-- The keys and the references of the schema between workspaces, decisions, assessments, conflicts
-- and resolutions.
pub record Sound {F : Type 0} (ws : List Workspace) (ds : List (Decision F)) (asm : List Assessment)
    (cs : List (Conflict F)) (rs : List ConflictResolution) : Type 0 where
  pub workspace_keys : Keyed (λ w. w.id) ws
  pub decision_keys : Keyed (λ d. d.id) ds
  pub conflict_keys : Keyed (λ c. c.id) cs
  pub decisions_in : Points (λ d. d.workspace_id) (λ w. w.id) ds ws
  pub conflicts_in : Points (λ c. c.workspace_id) (λ w. w.id) cs ws
  pub assessments_of : Points (λ a. a.decision_id) (λ d. d.id) asm ds
  pub resolutions_of : Points (λ r. r.conflict_id) (λ c. c.id) rs cs

module _ {F G : Type 0} where
  abbrev pub WellFormed : Db F G → Type 0
  WellFormed s =
      Sound s.workspaces s.decisions s.decision_assessments s.conflict_rows s.conflict_resolutions

  -- A statement that keeps the database well formed.
  abbrev pub Keeps : (Db F G → Result (Db F G)) → Type 0
  Keeps f = (s t : Db F G) → f s ≡ ok t → WellFormed s → WellFormed t

  pub write_workspace-Keeps : (w : Workspace) → Keeps (write_workspace w)
  unfolding write_workspace put_workspace renew_workspace workspace_row
  write_workspace-Keeps w s t h wf =
      let row = workspace_row s.now w in
      subst WellFormed (ok-injective _ t h)
        (elim (Bool-cases (any (with_key (λ w. w.id) w.id) s.workspaces)) [
          | inl old ↦
              let p = with_key (λ (x : Workspace). x.id) w.id in
              rw old (record {
                workspace_keys =
                    update-Keyed (λ w. w.id) p (renew_workspace row) (λ x. refl) s.workspaces
                      wf.workspace_keys;
                decision_keys = wf.decision_keys;
                conflict_keys = wf.conflict_keys;
                decisions_in =
                    Points-update (λ d. d.workspace_id) (λ w. w.id) p (renew_workspace row)
                      (λ x. refl) s.decisions s.workspaces wf.decisions_in;
                conflicts_in =
                    Points-update (λ c. c.workspace_id) (λ w. w.id) p (renew_workspace row)
                      (λ x. refl) s.conflict_rows s.workspaces wf.conflicts_in;
                assessments_of = wf.assessments_of;
                resolutions_of = wf.resolutions_of;
              })
          | inr new ↦ rw new (record {
            workspace_keys = append-Keyed (λ w. w.id) s.workspaces row new wf.workspace_keys;
            decision_keys = wf.decision_keys;
            conflict_keys = wf.conflict_keys;
            decisions_in =
                Points-append (λ d. d.workspace_id) (λ w. w.id) s.decisions s.workspaces row
                  wf.decisions_in;
            conflicts_in =
                Points-append (λ c. c.workspace_id) (λ w. w.id) s.conflict_rows s.workspaces row
                  wf.conflicts_in;
            assessments_of = wf.assessments_of;
            resolutions_of = wf.resolutions_of;
          })
        ])

  pub supersede_if_named-Keeps : (d : Decision F) → Keeps (supersede_if_named d)
  unfolding close_decision
  supersede_if_named-Keeps d s t h wf =
      let (same, _) = superseded d s t h in
      let f : Decision F → Decision F = close_decision s.now d in
      rw same (elim (Bool-cases (d.supersedes_id == "")) [
        | inl none_named ↦ rw none_named wf
        | inr named ↦ rw named (record {
          workspace_keys = wf.workspace_keys;
          decision_keys =
              update-Keyed (λ d. d.id) (superseded_by d) f (λ x. refl) s.decisions wf.decision_keys;
          conflict_keys = wf.conflict_keys;
          decisions_in =
              update-Points (λ d. d.workspace_id) (λ w. w.id) (superseded_by d) f (λ x. refl)
                s.decisions s.workspaces wf.decisions_in;
          conflicts_in = wf.conflicts_in;
          assessments_of =
              Points-update (λ a. a.decision_id) (λ d. d.id) (superseded_by d) f (λ x. refl)
                s.decision_assessments s.decisions wf.assessments_of;
          resolutions_of = wf.resolutions_of;
        })
      ])

  pub insert_decision-Keeps : (d : Decision F) → Keeps (insert_decision d)
  unfolding insert_decision decision_row
  insert_decision-Keeps d s t h wf =
      let (fresh, same) = inserted d s t h in
      let (missing, _) = fail_if-eq-ok (not (references_workspace s d.workspace_id)) _ _ t h in
      let row = decision_row s.now d in
      rw same (record {
        workspace_keys = wf.workspace_keys;
        decision_keys = append-Keyed (λ d. d.id) s.decisions row fresh wf.decision_keys;
        conflict_keys = wf.conflict_keys;
        decisions_in =
            append-Points (λ d. d.workspace_id) (λ w. w.id) s.decisions s.workspaces row
              (ground arith) wf.decisions_in;
        conflicts_in = wf.conflicts_in;
        assessments_of =
            Points-append (λ a. a.decision_id) (λ d. d.id) s.decision_assessments s.decisions row
              wf.assessments_of;
        resolutions_of = wf.resolutions_of;
      })

  pub insert_assessment-Keeps : (a : Assessment) → Keeps (insert_assessment a)
  unfolding insert_assessment assessment_row
  insert_assessment-Keeps a s t h wf =
      let (missing, kept) =
        fail_if-eq-ok
          (not (references_workspace s a.workspace_id && references_decision s a.decision_id)) _ _ t
          h in
      let (rows, put, same) =
        map_result-eq-ok _ (insert (λ x. x.id) (assessment_row s.now a) s.decision_assessments) t
          kept in
      let (_, last) =
        insert-eq-ok (λ x. x.id) (assessment_row s.now a) s.decision_assessments rows put in
      subst WellFormed same (
        rw (sym last) (record {
          workspace_keys = wf.workspace_keys;
          decision_keys = wf.decision_keys;
          conflict_keys = wf.conflict_keys;
          decisions_in = wf.decisions_in;
          conflicts_in = wf.conflicts_in;
          assessments_of =
              append-Points (λ a. a.decision_id) (λ d. d.id) s.decision_assessments s.decisions
                (assessment_row s.now a) (ground arith) wf.assessments_of;
          resolutions_of = wf.resolutions_of;
        }))

  pub insert_conflict-Keeps : (c : Conflict F) → Keeps (insert_conflict c)
  unfolding insert_conflict conflict_row
  insert_conflict-Keeps c s t h wf =
      let row = conflict_row s.now c in
      let (missing, kept) = fail_if-eq-ok (not (references_workspace s c.workspace_id)) _ _ t h in
      let (rows, put, same) = map_result-eq-ok _ (insert (λ x. x.id) row s.conflict_rows) t kept in
      let (fresh, last) = insert-eq-ok (λ x. x.id) row s.conflict_rows rows put in
      subst WellFormed same (
        rw (sym last) (record {
          workspace_keys = wf.workspace_keys;
          decision_keys = wf.decision_keys;
          conflict_keys = append-Keyed (λ c. c.id) s.conflict_rows row fresh wf.conflict_keys;
          decisions_in = wf.decisions_in;
          conflicts_in =
              append-Points (λ c. c.workspace_id) (λ w. w.id) s.conflict_rows s.workspaces row
                (ground arith) wf.conflicts_in;
          assessments_of = wf.assessments_of;
          resolutions_of =
              Points-append (λ r. r.conflict_id) (λ c. c.id) s.conflict_resolutions s.conflict_rows
                row wf.resolutions_of;
        }))

  pub write_status-Keeps :
      (id status : String) (at : Time) (r : ConflictResolution)
      → Keeps (write_status id status at r)
  unfolding write_status set_resolved
  write_status-Keeps id status at r s t h wf =
      let p = conflict_of id r.workspace_id in
      let f : Conflict F → Conflict F = set_resolved s.now status at in
      let (_, same) = fail_if-eq-ok (not (any p s.conflict_rows)) _ _ t h in
      subst WellFormed (ok-injective _ t same) (record {
        workspace_keys = wf.workspace_keys;
        decision_keys = wf.decision_keys;
        conflict_keys = update-Keyed (λ c. c.id) p f (λ x. refl) s.conflict_rows wf.conflict_keys;
        decisions_in = wf.decisions_in;
        conflicts_in =
            update-Points (λ c. c.workspace_id) (λ w. w.id) p f (λ x. refl) s.conflict_rows
              s.workspaces wf.conflicts_in;
        assessments_of = wf.assessments_of;
        resolutions_of =
            Points-update (λ r. r.conflict_id) (λ c. c.id) p f (λ x. refl) s.conflict_resolutions
              s.conflict_rows wf.resolutions_of;
      })

  pub insert_resolution-Keeps : (r : ConflictResolution) → Keeps (insert_resolution r)
  unfolding insert_resolution resolution_row
  insert_resolution-Keeps r s t h wf =
      let row = resolution_row s.now r in
      let (missing, kept) =
        fail_if-eq-ok
          (not (references_workspace s r.workspace_id && references_conflict s r.conflict_id)) _ _ t
          h in
      let (rows, put, same) =
        map_result-eq-ok _ (insert (λ x. x.id) row s.conflict_resolutions) t kept in
      let (_, last) = insert-eq-ok (λ x. x.id) row s.conflict_resolutions rows put in
      subst WellFormed same (
        rw (sym last) (record {
          workspace_keys = wf.workspace_keys;
          decision_keys = wf.decision_keys;
          conflict_keys = wf.conflict_keys;
          decisions_in = wf.decisions_in;
          conflicts_in = wf.conflicts_in;
          assessments_of = wf.assessments_of;
          resolutions_of =
              append-Points (λ r. r.conflict_id) (λ c. c.id) s.conflict_resolutions s.conflict_rows
                row (ground arith) wf.resolutions_of;
        }))
