-- ===== src/App/Relationship/Classify/Effects.antt =====
-- What a classification changes, and what it keeps: internal/app/relationship.go.
use tuskbase.Common.{String, ◌≡◌, refl, none, some, Option, List, Result, ok, err, Float64}
use tuskbase.Domain.Types.{Decision, Conflict}
use tuskbase.Ports.{RelationshipValidator, RelationshipValidationResult}
use tuskbase.App.Service.{Service}
use tuskbase.App.Service.Ledger.{ConflictLog}
use tuskbase.App.Relationship.Classify.{
  DecisionProposalRelation, apply_validation, validate_with, classify_proposal,
}

module _ {F : Type 0} ⦃fl : Float64 F⦄ where
  apply_validation-decision_id :
      (r : DecisionProposalRelation F) (v : Result (RelationshipValidationResult F))
      → (apply_validation r v).decision_id ≡ r.decision_id
  unfolding apply_validation
  apply_validation-decision_id r (ok v) = refl
  apply_validation-decision_id r (err e) = refl

module _ {F S : Type 0} ⦃fl : Float64 F⦄ where
  validate_with-decision_id :
      (v : Option (RelationshipValidator F S)) (w p : String) (d : Decision F)
      (r : DecisionProposalRelation F) (s : S)
      → (validate_with v w p d r s).0.decision_id ≡ r.decision_id
  unfolding validate_with
  validate_with-decision_id none w p d r s = refl
  validate_with-decision_id (some v) w p d r s = apply_validation-decision_id r _

  pub classify_proposal-decision_id :
      (svc : Service F S) (w p : String) (d : Decision F) (s : S)
      → (classify_proposal svc w p d s).0.decision_id ≡ d.id
  unfolding classify_proposal
  classify_proposal-decision_id svc w p d s = validate_with-decision_id svc.validator w p d _ s

  validate_with-log :
      (svc : Service F S) (log : S → List (Conflict F)) (laws : ConflictLog svc log)
      (v : Option (RelationshipValidator F S)) (w p : String) (d : Decision F)
      (r : DecisionProposalRelation F) (s : S)
      → svc.validator ≡ v
      → log (validate_with v w p d r s).1 ≡ log s
  unfolding validate_with
  validate_with-log svc log laws none w p d r s e = refl
  validate_with-log svc log laws (some v) w p d r s e = laws.validator_keep v e _ s

  pub classify_proposal-log :
      (svc : Service F S) (log : S → List (Conflict F)) (laws : ConflictLog svc log) (w p : String)
      (d : Decision F) (s : S)
      → log (classify_proposal svc w p d s).1 ≡ log s
  unfolding classify_proposal
  classify_proposal-log svc log laws w p d s =
      validate_with-log svc log laws svc.validator w p d _ s refl
