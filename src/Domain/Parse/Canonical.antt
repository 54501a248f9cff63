-- ===== src/Domain/Parse/Canonical.antt =====
-- The values that the parsers of internal/domain/types.go return.
use tuskbase.Common.{
  String, ◌≡◌, refl, arith, ok, trim_space, to_lower, is_blank, List, [], ◌∷◌, All, OneOf,
  OneOf-All,
}
use tuskbase.Domain.Parse.{
  parse_actor_kind, actor_human, actor_agent, actor_system, parse_relationship_type, follows,
  extends, duplicates, supersedes, conflicts, reconciles, parse_conflict_severity, severity_low,
  severity_medium, severity_high, severity_critical, parse_conflict_status, conflict_open,
  conflict_resolved, conflict_dismissed, conflict_deferred, parse_decision_status, decision_active,
  decision_superseded, decision_deprecated, parse_decision_candidate_status, candidate_pending,
  candidate_accepted, candidate_rejected,
}

abbrev pub actor_kinds : List String
actor_kinds = actor_human ∷ actor_agent ∷ actor_system ∷ []

parse_actor_kind-OneOf : (value v : String) → parse_actor_kind value ≡ ok v → OneOf actor_kinds v
unfolding parse_actor_kind
parse_actor_kind-OneOf value v h = ground arith

parse_actor_kind_self : All (λ v. parse_actor_kind v ≡ ok v) actor_kinds
unfolding parse_actor_kind to_lower trim_space is_blank
parse_actor_kind_self = (refl, (refl, (refl, tt)))

pub parse_actor_kind-canonical :
    (value v : String)
    → parse_actor_kind value ≡ ok v
    → OneOf actor_kinds v × (parse_actor_kind v ≡ ok v)
parse_actor_kind-canonical value v h =
    let m = parse_actor_kind-OneOf value v h in
    (m, OneOf-All (λ w. parse_actor_kind w ≡ ok w) actor_kinds v m parse_actor_kind_self)

abbrev pub relationship_types : List String
relationship_types = follows ∷ extends ∷ duplicates ∷ supersedes ∷ conflicts ∷ reconciles ∷ []

parse_relationship_type-OneOf :
    (value v : String) → parse_relationship_type value ≡ ok v → OneOf relationship_types v
unfolding parse_relationship_type
parse_relationship_type-OneOf value v h = ground arith

parse_relationship_type_self : All (λ v. parse_relationship_type v ≡ ok v) relationship_types
unfolding parse_relationship_type to_lower trim_space is_blank
parse_relationship_type_self = (refl, (refl, (refl, (refl, (refl, (refl, tt))))))

-- A relationship type that is parsed is one of the six constants, and parses to itself.
pub parse_relationship_type-canonical :
    (value v : String)
    → parse_relationship_type value ≡ ok v
    → OneOf relationship_types v × (parse_relationship_type v ≡ ok v)
parse_relationship_type-canonical value v h =
    let m = parse_relationship_type-OneOf value v h in
    (
      m,
      OneOf-All (λ w. parse_relationship_type w ≡ ok w) relationship_types v m
          parse_relationship_type_self,
    )

abbrev pub severities : List String
severities = severity_low ∷ severity_medium ∷ severity_high ∷ severity_critical ∷ []

parse_conflict_severity-OneOf :
    (value v : String) → parse_conflict_severity value ≡ ok v → OneOf severities v
unfolding parse_conflict_severity
parse_conflict_severity-OneOf value v h = ground arith

parse_conflict_severity_self : All (λ v. parse_conflict_severity v ≡ ok v) severities
unfolding parse_conflict_severity to_lower trim_space is_blank
parse_conflict_severity_self = (refl, (refl, (refl, (refl, tt))))

pub parse_conflict_severity-canonical :
    (value v : String)
    → parse_conflict_severity value ≡ ok v
    → OneOf severities v × (parse_conflict_severity v ≡ ok v)
parse_conflict_severity-canonical value v h =
    let m = parse_conflict_severity-OneOf value v h in
    (
      m,
      OneOf-All (λ w. parse_conflict_severity w ≡ ok w) severities v m parse_conflict_severity_self,
    )

abbrev pub conflict_statuses : List String
conflict_statuses = conflict_open ∷ conflict_resolved ∷ conflict_dismissed ∷ conflict_deferred ∷ []

parse_conflict_status-OneOf :
    (value v : String) → parse_conflict_status value ≡ ok v → OneOf conflict_statuses v
unfolding parse_conflict_status
parse_conflict_status-OneOf value v h = ground arith

parse_conflict_status_self : All (λ v. parse_conflict_status v ≡ ok v) conflict_statuses
unfolding parse_conflict_status to_lower trim_space is_blank
parse_conflict_status_self = (refl, (refl, (refl, (refl, tt))))

pub parse_conflict_status-canonical :
    (value v : String)
    → parse_conflict_status value ≡ ok v
    → OneOf conflict_statuses v × (parse_conflict_status v ≡ ok v)
parse_conflict_status-canonical value v h =
    let m = parse_conflict_status-OneOf value v h in
    (
      m,
      OneOf-All (λ w. parse_conflict_status w ≡ ok w) conflict_statuses v m
          parse_conflict_status_self,
    )

abbrev pub decision_statuses : List String
decision_statuses = decision_active ∷ decision_superseded ∷ decision_deprecated ∷ []

parse_decision_status-OneOf :
    (value v : String) → parse_decision_status value ≡ ok v → OneOf decision_statuses v
unfolding parse_decision_status
parse_decision_status-OneOf value v h = ground arith

parse_decision_status_self : All (λ v. parse_decision_status v ≡ ok v) decision_statuses
unfolding parse_decision_status to_lower trim_space is_blank
parse_decision_status_self = (refl, (refl, (refl, tt)))

pub parse_decision_status-canonical :
    (value v : String)
    → parse_decision_status value ≡ ok v
    → OneOf decision_statuses v × (parse_decision_status v ≡ ok v)
parse_decision_status-canonical value v h =
    let m = parse_decision_status-OneOf value v h in
    (
      m,
      OneOf-All (λ w. parse_decision_status w ≡ ok w) decision_statuses v m
          parse_decision_status_self,
    )

abbrev pub candidate_statuses : List String
candidate_statuses = candidate_pending ∷ candidate_accepted ∷ candidate_rejected ∷ []

parse_decision_candidate_status-OneOf :
    (value v : String) → parse_decision_candidate_status value ≡ ok v → OneOf candidate_statuses v
unfolding parse_decision_candidate_status
parse_decision_candidate_status-OneOf value v h = ground arith

parse_decision_candidate_status_self :
    All (λ v. parse_decision_candidate_status v ≡ ok v) candidate_statuses
unfolding parse_decision_candidate_status to_lower trim_space is_blank
parse_decision_candidate_status_self = (refl, (refl, (refl, tt)))

pub parse_decision_candidate_status-canonical :
    (value v : String)
    → parse_decision_candidate_status value ≡ ok v
    → OneOf candidate_statuses v × (parse_decision_candidate_status v ≡ ok v)
parse_decision_candidate_status-canonical value v h =
    let m = parse_decision_candidate_status-OneOf value v h in
    (
      m,
      OneOf-All (λ w. parse_decision_candidate_status w ≡ ok w) candidate_statuses v m
          parse_decision_candidate_status_self,
    )
