-- ===== src/App/Workflows/Check/Verdicts.antt =====
-- The verdict of `Check`: internal/app/workflows.go.
use mathlib.Core.Path.{subst, ap₂}
use tuskbase.Common.{
  String, true, false, ◌≡◌, refl, sym, ap, ◌∙◌, inl, inr, arith, eqb, length-append, Bool-cases,
  List, [], ◌∷◌, ◌++◌, map, length, trim_space, ok, bind-eq-ok, lift-eq-ok, pure-eq-ok, Float64,
}
use tuskbase.Domain.Types.{Decision}
use tuskbase.App.Auth.{Context, require_read}
use tuskbase.App.Service.{Service}
use tuskbase.App.Lookup.{required, candidate_decisions}
use tuskbase.App.Relationship.Classify.{DecisionProposalRelation, classify_proposal}
use tuskbase.App.Relationship.Classify.Effects.{classify_proposal-decision_id}
use tuskbase.App.Preflight.Flags.{is_conflict, flagged}
use tuskbase.App.Workflows.Check.{
  CheckInput, CheckOutput, ConflictPreview, preview, add_relation, advise, check_decisions, check,
}

module _ {F : Type 0} ⦃fl : Float64 F⦄ where
  abbrev previewed : CheckOutput F → List String
  previewed out = map (λ (c : ConflictPreview F). c.decision_id) out.conflicts

  -- The conflicts are those of the relationships, and the change can proceed exactly without them.
  abbrev pub Consistent : CheckOutput F → Type 0
  Consistent out =
      (previewed out ≡ flagged out.relationships) × (out.can_proceed ≡ eqb (length out.conflicts) 0)

  previewed-append :
      (xs : List (ConflictPreview F)) (y : ConflictPreview F)
      → map (λ (c : ConflictPreview F). c.decision_id) (xs ++ y ∷ [])
        ≡ map (λ (c : ConflictPreview F). c.decision_id) xs ++ y.decision_id ∷ []
  previewed-append [] y = refl
  previewed-append (x ∷ xs) y = ap (λ l. x.decision_id ∷ l) (previewed-append xs y)

  flagged-yes :
      (rs : List (DecisionProposalRelation F)) (r : DecisionProposalRelation F)
      → is_conflict r ≡ true
      → flagged (rs ++ r ∷ []) ≡ flagged rs ++ r.decision_id ∷ []
  flagged-yes [] r is = rw is refl
  flagged-yes (x ∷ xs) r is = elim (Bool-cases (is_conflict x)) [
    | inl is_x ↦ rw is_x (ap (λ l. x.decision_id ∷ l) (flagged-yes xs r is))
    | inr not_x ↦ rw not_x (flagged-yes xs r is)
  ]

  flagged-no :
      (rs : List (DecisionProposalRelation F)) (r : DecisionProposalRelation F)
      → is_conflict r ≡ false
      → flagged (rs ++ r ∷ []) ≡ flagged rs
  flagged-no [] r not_ = rw not_ refl
  flagged-no (x ∷ xs) r not_ = elim (Bool-cases (is_conflict x)) [
    | inl is_x ↦ rw is_x (ap (λ l. x.decision_id ∷ l) (flagged-no xs r not_))
    | inr not_x ↦ rw not_x (flagged-no xs r not_)
  ]

  add_relation-Consistent :
      (d : Decision F) (r : DecisionProposalRelation F) (out : CheckOutput F)
      → r.decision_id ≡ d.id
      → Consistent out
      → Consistent (add_relation d r out)
  unfolding add_relation preview
  add_relation-Consistent d r out own (same, free) = elim (Bool-cases (is_conflict r)) [
    | inl is ↦ rw is (
      previewed-append out.conflicts (preview d r)
          ∙ ap₂ (λ xs id. xs ++ id ∷ []) same (sym own)
          ∙ sym (flagged-yes out.relationships r is),
      ground (arith, length-append out.conflicts (preview d r ∷ [])),
    )
    | inr not_ ↦ rw not_ (same ∙ sym (flagged-no out.relationships r not_), free)
  ]

  pub advise-Consistent : (out : CheckOutput F) → Consistent out → Consistent (advise out)
  unfolding advise
  advise-Consistent out h = h

module _ {F S : Type 0} ⦃fl : Float64 F⦄ (svc : Service F S) where
  check_decisions-Consistent :
      (w p : String) (ds : List (Decision F)) (out : CheckOutput F) (s : S)
      → Consistent out
      → Consistent (check_decisions svc w p ds out s).0
  unfolding check_decisions
  check_decisions-Consistent w p [] out s h = h
  check_decisions-Consistent w p (d ∷ ds) out s h =
      let rel = (classify_proposal svc w p d s).0 in
      check_decisions-Consistent w p ds (add_relation d rel out) (classify_proposal svc w p d s).1
        (add_relation-Consistent d rel out (classify_proposal-decision_id svc w p d s) h)

  -- A check that succeeds lists one conflict for each relationship of type `conflicts`, of the same
  -- decision and in the same order, and says that the change can proceed exactly when it lists
  -- none.
  pub check-Consistent :
      (ctx : Context) (input : CheckInput) (s : S) (out : CheckOutput F) (t : S)
      → check svc ctx input s ≡ (ok out, t)
      → Consistent out
  unfolding check
  check-Consistent ctx input s out t e =
      let w = trim_space input.workspace_id in
      let p = trim_space input.proposal in
      let (_, _, h1) = lift-eq-ok (require_read ctx) _ s out t e in
      let (_, _, h2) = lift-eq-ok (required w "workspace_id is required") _ s out t h1 in
      let (_, _, h3) = lift-eq-ok (required p "proposal is required") _ s out t h2 in
      let (_, s4, _, h4) = bind-eq-ok (svc.store.get_workspace w) _ s out t h3 in
      let (ds, s5, _, h5) = bind-eq-ok (candidate_decisions svc w p input.limit) _ s4 out t h4 in
      let start : CheckOutput F = record {
        relationships = [];
        conflicts = [];
        can_proceed = true;
        next_actions = [];
        checked_at = (svc.clock s5).0;
      } in
      let done = check_decisions svc w p ds start (svc.clock s5).1 in
      let (same, _) = pure-eq-ok (advise done.0) out done.1 t h5 in
      subst Consistent same (
        advise-Consistent done.0
          (check_decisions-Consistent w p ds start (svc.clock s5).1 (refl, refl)))
