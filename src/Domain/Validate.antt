-- ===== src/Domain/Validate.antt =====
-- The `Validate` methods of internal/domain/types.go. A nil error is `ok tt`.
pub mod Soundness
use tuskbase.Common.{
  Bool, ◌&&◌, ◌||◌, ◌==◌, List, [], ◌∷◌, Result, ok, message, fail_if, and_then, is_blank, Float64,
  lt, hundredths, is_negative, exceeds,
}
use tuskbase.Domain.Parse.{
  parse_actor_kind, parse_relationship_type, parse_conflict_severity, parse_conflict_status,
  parse_decision_status, parse_decision_candidate_status, candidate_accepted,
}
use tuskbase.Domain.Types.{
  Actor, Workspace, Alternative, Decision, DecisionRelationship, DecisionCandidate, Assessment,
  Conflict, ConflictResolution,
}

abbrev pub Checked : Type 0
Checked = Result (Unit {0})

-- A loop of checks that returns the first error.
unfoldable pub check_each : {A : Type 0} → (A → Checked) → List A → Checked
check_each check [] = ok tt
check_each check (x ∷ xs) = and_then (check x) (check_each check xs)

unfoldable pub validate_actor : Actor → Checked
validate_actor a = and_then (parse_actor_kind a.kind) (ok tt)

unfoldable pub validate_workspace : Workspace → Checked
validate_workspace w = fail_if (is_blank w.id) (message "workspace id is required") (
    fail_if (is_blank w.repo_root) (message "workspace repo_root is required") (
      fail_if (is_blank w.repo_fingerprint) (message "workspace repo_fingerprint is required")
        (ok tt)))

unfoldable pub validate_alternative : Alternative → Checked
validate_alternative a =
    fail_if (is_blank a.title && is_blank a.outcome)
      (message "alternative title or outcome is required") (ok tt)

unfoldable pub validate_assessment : Assessment → Checked
unfolding validate_actor
validate_assessment a = fail_if (is_blank a.id) (message "assessment id is required") (
    fail_if (is_blank a.workspace_id) (message "assessment workspace_id is required") (
      fail_if (is_blank a.decision_id) (message "assessment decision_id is required") (
        and_then (validate_actor a.actor) (
          fail_if (is_blank a.signal) (message "assessment signal is required") (
            fail_if (is_negative a.score || exceeds 5 a.score)
              (message "assessment score must be between 0 and 5") (ok tt))))))

unfoldable pub validate_conflict_resolution : ConflictResolution → Checked
unfolding validate_actor
validate_conflict_resolution r =
    fail_if (is_blank r.id) (message "conflict resolution id is required") (
      fail_if (is_blank r.workspace_id) (message "conflict resolution workspace_id is required") (
        fail_if (is_blank r.conflict_id) (message "conflict resolution conflict_id is required") (
          and_then (validate_actor r.actor) (
            fail_if (is_blank r.action) (message "conflict resolution action is required") (
              fail_if (is_blank r.summary) (message "conflict resolution summary is required")
                (ok tt))))))

module _ {F : Type 0} ⦃fl : Float64 F⦄ where
  -- `c < 0 || c > 1`
  abbrev pub outside_unit : F → Bool
  outside_unit c = lt c (hundredths 0) || lt (hundredths 100) c

  unfoldable pub validate_relationship : DecisionRelationship F → Checked
  validate_relationship r =
      fail_if (is_blank r.from_decision_id) (message "relationship from_decision_id is required") (
        fail_if (is_blank r.to_decision_id) (message "relationship to_decision_id is required") (
          and_then (parse_relationship_type r.type) (
            fail_if (outside_unit r.confidence)
              (message "relationship confidence must be between 0 and 1") (ok tt))))

  unfoldable pub validate_decision : Decision F → Checked
  unfolding validate_actor check_each
  validate_decision d = fail_if (is_blank d.id) (message "decision id is required") (
      fail_if (is_blank d.workspace_id) (message "decision workspace_id is required") (
        and_then (validate_actor d.actor) (
          fail_if (is_blank d.type) (message "decision type is required") (
            fail_if (is_blank d.title) (message "decision title is required") (
              fail_if (is_blank d.outcome) (message "decision outcome is required") (
                fail_if (outside_unit d.confidence)
                  (message "decision confidence must be between 0 and 1")
                  (and_then (parse_decision_status d.status) (
                    fail_if (outside_unit d.completeness_score)
                      (message "decision completeness_score must be between 0 and 1")
                      (and_then (check_each validate_alternative d.alternatives)
                        (check_each validate_relationship d.relationships))))))))))

  -- The checks of a candidate's source and status.
  validate_source : DecisionCandidate F → Checked
  validate_source c =
      fail_if (is_blank c.source_path) (message "decision candidate source_path is required") (
        fail_if (is_blank c.source_snippet)
          (message "decision candidate source_snippet is required")
          (fail_if (is_blank c.source_hash) (message "decision candidate source_hash is required") (
            fail_if (is_blank c.detector) (message "decision candidate detector is required") (
              and_then (parse_decision_candidate_status c.status) (
                fail_if (c.status == candidate_accepted && is_blank c.accepted_decision_id)
                  (message "accepted decision candidate requires accepted_decision_id") (ok tt))))))

  unfoldable pub validate_candidate : DecisionCandidate F → Checked
  unfolding validate_source
  validate_candidate c = fail_if (is_blank c.id) (message "decision candidate id is required") (
      fail_if (is_blank c.workspace_id) (message "decision candidate workspace_id is required") (
        fail_if (is_blank c.type) (message "decision candidate type is required") (
          fail_if (is_blank c.title) (message "decision candidate title is required") (
            fail_if (is_blank c.outcome) (message "decision candidate outcome is required") (
              fail_if (outside_unit c.confidence)
                (message "decision candidate confidence must be between 0 and 1")
                (validate_source c))))))

  unfoldable pub validate_conflict : Conflict F → Checked
  validate_conflict c = fail_if (is_blank c.id) (message "conflict id is required") (
      fail_if (is_blank c.workspace_id) (message "conflict workspace_id is required") (
        fail_if (is_blank c.conflicting_with_id)
          (message "conflict conflicting_with_id is required")
          (fail_if (is_blank c.summary) (message "conflict summary is required") (
            and_then (parse_conflict_severity c.severity) (
              fail_if (outside_unit c.confidence)
                (message "conflict confidence must be between 0 and 1")
                (and_then (parse_conflict_status c.status) (ok tt)))))))
