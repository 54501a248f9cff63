-- ===== src/App/Remember.antt =====
-- `Remember` of internal/app/service.go. The slices of the input are taken to be the caller's to
-- give away: the writes into their elements are writes into the decision's.
pub mod Draft
pub mod Indexing
pub mod Drafted
pub mod Stored
pub mod Conflicts
pub mod Links
use tuskbase.Common.{
  String, ◌==◌, none, List, [], ◌∷◌, Result, ok, err, Exec, pure, lift, call, ◌>>=◌, ◌>>◌,
  if◌then◌else◌, trim_space, is_blank, error_text, quote, ◌⧺◌, Float64,
}
use tuskbase.Domain.Parse.{conflicts, conflict_open, parse_decision_status}
use tuskbase.Domain.Types.{Time, DecisionRelationship, Decision, Conflict}
use tuskbase.Domain.Validate.{validate_decision, validate_conflict}
use tuskbase.App.Auth.{Context, require_write, apply_principal_actor}
use tuskbase.App.Service.{Service, severity_for_confidence}
use tuskbase.App.Remember.Draft.{RememberInput, draft, complete_draft}

pub record RememberOutput (F : Type 0) : Type 0 where
  pub decision : Decision F
  pub indexing_status : String
  pub indexing_error : String
  pub quality_warnings : List String

unfoldable pub relationship_reason : {F : Type 0} → DecisionRelationship F → Decision F → String
relationship_reason rel d =
    if is_blank rel.reason
    then "Decision "
      ⧺ quote d.title
      ⧺ " conflicts with prior active decision "
      ⧺ rel.to_decision_id
      ⧺ "."
    else trim_space rel.reason

module _ {F S : Type 0} ⦃fl : Float64 F⦄ (svc : Service F S) where
  unfoldable pub open_conflict : Time → Decision F → DecisionRelationship F → String → Conflict F
  open_conflict now d rel id = record {
    id = id;
    workspace_id = d.workspace_id;
    decision_id = d.id;
    proposal = "";
    conflicting_with_id = rel.to_decision_id;
    summary = relationship_reason rel d;
    severity = severity_for_confidence rel.confidence;
    confidence = rel.confidence;
    status = conflict_open;
    created_at = now;
    resolved_at = none;
  }

  save_conflict_of : Time → Decision F → DecisionRelationship F → Exec S (Unit {0})
  unfolding open_conflict
  save_conflict_of now d rel = do
    id ← call svc.ids
    let conflict = open_conflict now d rel id
    lift (validate_conflict conflict)
    svc.store.save_conflict conflict

  -- The loop that opens a conflict for each relationship of type `conflicts`.
  unfoldable pub save_conflicts :
      Time → Decision F → List (DecisionRelationship F) → Exec S (Unit {0})
  unfolding save_conflict_of
  save_conflicts now d [] = pure tt
  save_conflicts now d (rel ∷ rels) =
      let rest = save_conflicts now d rels in
      if rel.type == conflicts then save_conflict_of now d rel >> rest else rest

  retried : RememberOutput F → Result (Unit {0}) → RememberOutput F
  retried out (ok _) = out
  retried out (err e) = record out { indexing_status = "error"; indexing_error = error_text e }

  index_again : Decision F → RememberOutput F → Result (Unit {0}) → S → RememberOutput F × S
  index_again d out (ok _) s = (out, s)
  index_again d out (err e) s =
      let (second, t) = svc.search.index_decision d s in (retried out second, t)

  -- The index gets two attempts, and its failure is a status of the output.
  unfoldable pub index_remembered : RememberOutput F → S → RememberOutput F × S
  unfolding retried index_again
  index_remembered out s =
      let (first, t) = svc.search.index_decision out.decision s in
      index_again out.decision out first t

  -- The decision, its time and its warnings, before anything is checked or stored.
  unfoldable pub build_decision :
      Context → RememberInput F → Exec S (Time × Decision F × List String)
  unfolding draft complete_draft
  build_decision ctx input = do
    lift (require_write ctx)
    actor ← lift (apply_principal_actor ctx input.actor)
    status ← lift (parse_decision_status input.status)
    now ← call svc.clock
    id ← call svc.ids
    let first = draft id actor status now input
    (d, warnings) ← call (complete_draft svc.ids first input.relationships)
    pure (now, d, warnings)

  -- The steps that make the decision durable, before it is indexed.
  unfoldable pub save_built : Time → Decision F → List String → Exec S (RememberOutput F)
  unfolding save_conflicts
  save_built now d warnings = do
    lift (validate_decision d)
    svc.store.get_workspace d.workspace_id
    svc.store.save_decision d
    save_conflicts now d d.relationships
    pure (record {
      decision = d;
      indexing_status = "indexed";
      indexing_error = "";
      quality_warnings = warnings;
    })

  unfoldable pub store_decision : Context → RememberInput F → Exec S (RememberOutput F)
  unfolding build_decision save_built
  store_decision ctx input = do
    (now, d, warnings) ← build_decision ctx input
    save_built now d warnings

  unfoldable pub remember : Context → RememberInput F → Exec S (RememberOutput F)
  unfolding store_decision index_remembered
  remember ctx input = do out ← store_decision ctx input; call (index_remembered out)
