-- ===== src/Domain/Parse/Accepts.antt =====
-- Which texts the parsers of internal/domain/types.go accept: up to case and space around them.
use tuskbase.Common.{
  String, ◌≡◌, true, ◌↔◌, ◌⊎◌, arith, eq_iff, trim_space, to_lower, is_blank, OneOf, Accepted,
}
use tuskbase.Domain.Parse.{
  actor_human, actor_agent, actor_system, parse_actor_kind, follows, extends, duplicates,
  supersedes, conflicts, reconciles, parse_relationship_type, severity_low, severity_medium,
  severity_high, severity_critical, parse_conflict_severity, conflict_open, conflict_resolved,
  conflict_dismissed, conflict_deferred, parse_conflict_status, decision_active,
  decision_superseded, decision_deprecated, parse_decision_status,
}
use tuskbase.Domain.Parse.Canonical.{
  actor_kinds, relationship_types, severities, conflict_statuses, decision_statuses,
}

-- The text without the space around it and in lower case.
abbrev pub normal : String → String
normal value = to_lower (trim_space value)

pub parse_actor_kind_iff :
    (value : String) → Accepted (parse_actor_kind value) ↔ OneOf actor_kinds (normal value)
unfolding parse_actor_kind
parse_actor_kind_iff value = ground (
  arith,
  eq_iff (normal value) actor_human,
  eq_iff (normal value) actor_agent,
  eq_iff (normal value) actor_system,
)

pub parse_relationship_type_iff :
    (value : String)
    → Accepted (parse_relationship_type value) ↔ OneOf relationship_types (normal value)
unfolding parse_relationship_type
parse_relationship_type_iff value = ground (
  arith,
  eq_iff (normal value) follows,
  eq_iff (normal value) extends,
  eq_iff (normal value) duplicates,
  eq_iff (normal value) supersedes,
  eq_iff (normal value) conflicts,
  eq_iff (normal value) reconciles,
)

pub parse_conflict_severity_iff :
    (value : String) → Accepted (parse_conflict_severity value) ↔ OneOf severities (normal value)
unfolding parse_conflict_severity
parse_conflict_severity_iff value = ground (
  arith,
  eq_iff (normal value) severity_low,
  eq_iff (normal value) severity_medium,
  eq_iff (normal value) severity_high,
  eq_iff (normal value) severity_critical,
)

-- A conflict status is accepted exactly when it is blank or, without the space around it and in
-- lower case, one of the four constants.
pub parse_conflict_status_iff :
    (value : String)
    → Accepted (parse_conflict_status value)
      ↔ ((is_blank value ≡ true) ⊎ OneOf conflict_statuses (normal value))
unfolding parse_conflict_status
parse_conflict_status_iff value = ground (
  arith,
  eq_iff (normal value) conflict_open,
  eq_iff (normal value) conflict_resolved,
  eq_iff (normal value) conflict_dismissed,
  eq_iff (normal value) conflict_deferred,
)

pub parse_decision_status_iff :
    (value : String)
    → Accepted (parse_decision_status value)
      ↔ ((is_blank value ≡ true) ⊎ OneOf decision_statuses (normal value))
unfolding parse_decision_status
parse_decision_status_iff value = ground (
  arith,
  eq_iff (normal value) decision_active,
  eq_iff (normal value) decision_superseded,
  eq_iff (normal value) decision_deprecated,
)
