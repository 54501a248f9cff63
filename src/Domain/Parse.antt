-- ===== src/Domain/Parse.antt =====
-- The enumerations of internal/domain/types.go and their parsers. In the source each is a string
-- type, and a value that did not pass the parser is kept as it was written.
pub mod Accepts
pub mod Canonical
use tuskbase.Common.{
  String, ◌==◌, if◌then◌else◌, trim_space, to_lower, is_blank, Result, ok, err, invalid,
}

abbrev pub ActorKind : Type 0
ActorKind = String

abbrev pub actor_human : ActorKind
actor_human = "human"

abbrev pub actor_agent : ActorKind
actor_agent = "agent"

abbrev pub actor_system : ActorKind
actor_system = "system"

unfoldable pub parse_actor_kind : String → Result ActorKind
parse_actor_kind value =
    let v = to_lower (trim_space value) in
    if v == actor_human
    then ok actor_human
    else if v == actor_agent
    then ok actor_agent
    else if v == actor_system
    then ok actor_system
    else err (invalid "actor kind" value)

abbrev pub RelationshipType : Type 0
RelationshipType = String

abbrev pub follows : RelationshipType
follows = "follows"

abbrev pub extends : RelationshipType
extends = "extends"

abbrev pub duplicates : RelationshipType
duplicates = "duplicates"

abbrev pub supersedes : RelationshipType
supersedes = "supersedes"

abbrev pub conflicts : RelationshipType
conflicts = "conflicts"

abbrev pub reconciles : RelationshipType
reconciles = "reconciles"

unfoldable pub parse_relationship_type : String → Result RelationshipType
parse_relationship_type value =
    let v = to_lower (trim_space value) in
    if v == follows
    then ok follows
    else if v == extends
    then ok extends
    else if v == duplicates
    then ok duplicates
    else if v == supersedes
    then ok supersedes
    else if v == conflicts
    then ok conflicts
    else if v == reconciles
    then ok reconciles
    else err (invalid "relationship type" value)

abbrev pub ConflictSeverity : Type 0
ConflictSeverity = String

abbrev pub severity_low : ConflictSeverity
severity_low = "low"

abbrev pub severity_medium : ConflictSeverity
severity_medium = "medium"

abbrev pub severity_high : ConflictSeverity
severity_high = "high"

abbrev pub severity_critical : ConflictSeverity
severity_critical = "critical"

unfoldable pub parse_conflict_severity : String → Result ConflictSeverity
parse_conflict_severity value =
    let v = to_lower (trim_space value) in
    if v == severity_low
    then ok severity_low
    else if v == severity_medium
    then ok severity_medium
    else if v == severity_high
    then ok severity_high
    else if v == severity_critical
    then ok severity_critical
    else err (invalid "conflict severity" value)

abbrev pub ConflictStatus : Type 0
ConflictStatus = String

abbrev pub conflict_open : ConflictStatus
conflict_open = "open"

abbrev pub conflict_resolved : ConflictStatus
conflict_resolved = "resolved"

abbrev pub conflict_dismissed : ConflictStatus
conflict_dismissed = "dismissed"

abbrev pub conflict_deferred : ConflictStatus
conflict_deferred = "deferred"

unfoldable pub parse_conflict_status : String → Result ConflictStatus
parse_conflict_status value =
    let v = to_lower (trim_space value) in
    if is_blank value
    then ok conflict_open
    else if v == conflict_open
    then ok conflict_open
    else if v == conflict_resolved
    then ok conflict_resolved
    else if v == conflict_dismissed
    then ok conflict_dismissed
    else if v == conflict_deferred
    then ok conflict_deferred
    else err (invalid "conflict status" value)

abbrev pub DecisionStatus : Type 0
DecisionStatus = String

abbrev pub decision_active : DecisionStatus
decision_active = "active"

abbrev pub decision_superseded : DecisionStatus
decision_superseded = "superseded"

abbrev pub decision_deprecated : DecisionStatus
decision_deprecated = "deprecated"

unfoldable pub parse_decision_status : String → Result DecisionStatus
parse_decision_status value =
    let v = to_lower (trim_space value) in
    if is_blank value
    then ok decision_active
    else if v == decision_active
    then ok decision_active
    else if v == decision_superseded
    then ok decision_superseded
    else if v == decision_deprecated
    then ok decision_deprecated
    else err (invalid "decision status" value)

abbrev pub CandidateStatus : Type 0
CandidateStatus = String

abbrev pub candidate_pending : CandidateStatus
candidate_pending = "pending"

abbrev pub candidate_accepted : CandidateStatus
candidate_accepted = "accepted"

abbrev pub candidate_rejected : CandidateStatus
candidate_rejected = "rejected"

unfoldable pub parse_decision_candidate_status : String → Result CandidateStatus
parse_decision_candidate_status value =
    let v = to_lower (trim_space value) in
    if is_blank value
    then ok candidate_pending
    else if v == candidate_pending
    then ok candidate_pending
    else if v == candidate_accepted
    then ok candidate_accepted
    else if v == candidate_rejected
    then ok candidate_rejected
    else err (invalid "decision candidate status" value)
