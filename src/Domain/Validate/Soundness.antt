-- ===== src/Domain/Validate/Soundness.antt =====
-- What passes the `Validate` methods of internal/domain/types.go.
use tuskbase.Common.{
  ◌≡◌, ◌↔◌, ◌⊎◌, true, false, arith, ok, List, [], ◌∷◌, All, OneOf, is_blank, Float64, hundredths,
  lt,
}
use tuskbase.Domain.Parse.Accepts.{
  normal, parse_actor_kind_iff, parse_relationship_type_iff, parse_decision_status_iff,
  parse_conflict_severity_iff, parse_conflict_status_iff,
}
use tuskbase.Domain.Parse.Canonical.{
  actor_kinds, relationship_types, severities, conflict_statuses, decision_statuses,
}
use tuskbase.Domain.Types.{Actor, Alternative, Decision, DecisionRelationship, Conflict}
use tuskbase.Domain.Validate.{
  check_each, validate_actor, validate_alternative, validate_relationship, validate_decision,
  validate_conflict,
}

-- A title or an outcome is given.
abbrev pub IsSoundAlternative : Alternative → Type 0
IsSoundAlternative a = (is_blank a.title ≡ false) ⊎ (is_blank a.outcome ≡ false)

alternatives_iff :
    (xs : List Alternative)
    → (check_each validate_alternative xs ≡ ok tt) ↔ All IsSoundAlternative xs
unfolding check_each validate_alternative
alternatives_iff [] = ground arith
alternatives_iff (x ∷ xs) = ground (arith, alternatives_iff xs)

validate_actor_iff : (a : Actor) → (validate_actor a ≡ ok tt) ↔ OneOf actor_kinds (normal a.kind)
unfolding validate_actor
validate_actor_iff a = ground (arith, parse_actor_kind_iff a.kind)

module _ {F : Type 0} ⦃fl : Float64 F⦄ where
  abbrev pub InUnit : F → Type 0
  InUnit c = (lt c (hundredths 0) ≡ false) × (lt (hundredths 100) c ≡ false)

  pub record IsSoundRelationship (r : DecisionRelationship F) : Type 0 where
    pub from : is_blank r.from_decision_id ≡ false
    pub to : is_blank r.to_decision_id ≡ false
    pub type : OneOf relationship_types (normal r.type)
    pub confidence : InUnit r.confidence

  pub validate_relationship_iff :
      (r : DecisionRelationship F) → (validate_relationship r ≡ ok tt) ↔ IsSoundRelationship r
  unfolding validate_relationship
  validate_relationship_iff r = ground (arith, parse_relationship_type_iff r.type)

  pub record IsSoundDecision (d : Decision F) : Type 0 where
    pub id : is_blank d.id ≡ false
    pub workspace_id : is_blank d.workspace_id ≡ false
    pub actor : OneOf actor_kinds (normal d.actor.kind)
    pub type : is_blank d.type ≡ false
    pub title : is_blank d.title ≡ false
    pub outcome : is_blank d.outcome ≡ false
    pub confidence : InUnit d.confidence
    pub status : (is_blank d.status ≡ true) ⊎ OneOf decision_statuses (normal d.status)
    pub completeness : InUnit d.completeness_score
    pub alternatives : All IsSoundAlternative d.alternatives
    pub relationships : All IsSoundRelationship d.relationships

  relationships_iff :
      (xs : List (DecisionRelationship F))
      → (check_each validate_relationship xs ≡ ok tt) ↔ All IsSoundRelationship xs
  unfolding check_each
  relationships_iff [] = ground arith
  relationships_iff (x ∷ xs) = ground (arith, relationships_iff xs, validate_relationship_iff x)

  -- A decision passes `Validate` exactly when it is sound: its required texts are not blank, its
  -- actor kind, status and relationship types are known up to case and space, its numbers lie in
  -- [0, 1] as the tests read it, and each alternative and relationship is sound.
  pub validate_decision_iff : (d : Decision F) → (validate_decision d ≡ ok tt) ↔ IsSoundDecision d
  unfolding validate_decision
  validate_decision_iff d = ground (
    arith,
    validate_actor_iff d.actor,
    parse_decision_status_iff d.status,
    alternatives_iff d.alternatives,
    relationships_iff d.relationships,
  )

  pub record IsSoundConflict (c : Conflict F) : Type 0 where
    pub id : is_blank c.id ≡ false
    pub workspace_id : is_blank c.workspace_id ≡ false
    pub conflicting_with_id : is_blank c.conflicting_with_id ≡ false
    pub summary : is_blank c.summary ≡ false
    pub severity : OneOf severities (normal c.severity)
    pub confidence : InUnit c.confidence
    pub status : (is_blank c.status ≡ true) ⊎ OneOf conflict_statuses (normal c.status)

  -- A conflict passes `Validate` exactly when its identifier, its workspace, the decision that it
  -- is against and its summary are not blank, its severity and its status are known up to case and
  -- space (the status may be blank), and its confidence lies in [0, 1] as the tests read it.
  pub validate_conflict_iff : (c : Conflict F) → (validate_conflict c ≡ ok tt) ↔ IsSoundConflict c
  unfolding validate_conflict
  validate_conflict_iff c =
      ground (arith, parse_conflict_severity_iff c.severity, parse_conflict_status_iff c.status)
