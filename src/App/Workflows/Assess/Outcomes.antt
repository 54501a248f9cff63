-- ===== src/App/Workflows/Assess/Outcomes.antt =====
-- What `Assess` stores: internal/app/workflows.go.
use mathlib.Core.Path.{subst, ap₂}
use tuskbase.Common.{
  String, not, ◌==◌, ◌≡◌, sym, ap, ◌∙◌, ok, message, fail_if, trim_space, bind-eq-ok, lift-eq-ok,
  pure-eq-ok,
}
use tuskbase.Domain.Types.{Decision, Assessment}
use tuskbase.Domain.Validate.{validate_assessment}
use tuskbase.App.Auth.{Context, require_write, apply_principal_actor}
use tuskbase.App.Service.{Service}
use tuskbase.App.Lookup.{required}
use tuskbase.App.Workflows.Resolve.Owned.{fail_if-same}
use tuskbase.App.Workflows.Assess.{AssessInput, AssessOutput, own_decision, save_assessed, assess}

module _ {F S : Type 0} (svc : Service F S) where
  own_decision-Owned :
      (w id : String) (s : S) (d : Decision F) (t : S)
      → own_decision svc w id s ≡ (ok d, t)
      → (svc.store.get_decision id s ≡ (ok d, t)) × (d.workspace_id ≡ w)
  unfolding own_decision
  own_decision-Owned w id s c t e =
      let (d, u, got, h1) = bind-eq-ok (svc.store.get_decision id) _ s c t e in
      let (v, own, h2) =
        lift-eq-ok
          (fail_if (not (d.workspace_id == w)) (message "decision does not belong to workspace")
            (ok tt))
          _ u c t h1 in
      let (same, end) = pure-eq-ok d c u t h2 in
      (
        got ∙ ap₂ (λ x y. (ok x, y)) same end,
        ap (λ x. x.workspace_id) (sym same) ∙ fail_if-same d.workspace_id w _ v own,
      )

  -- The assessment is valid, of the decision that was read, in the decision's workspace, by the
  -- actor that the principal allows, and it is what the store saved last.
  abbrev pub Assesses : Context → AssessInput → S → AssessOutput F → S → Type 0
  Assesses ctx input s out t =
      (u : S) × (v : S) × (svc.store.get_decision out.assessment.decision_id s
        ≡ (ok out.decision, u))
      × (out.decision.workspace_id ≡ out.assessment.workspace_id)
      × (apply_principal_actor ctx input.actor ≡ ok out.assessment.actor)
      × (validate_assessment out.assessment ≡ ok tt)
      × (svc.store.save_assessment out.assessment v ≡ (ok tt, t))

  -- An assessment that is made without an error is of a decision that was read and that belongs to
  -- the workspace of the assessment, acts for the actor that the principal allows, passes
  -- `Validate`, and is what the store saved last.
  pub assess-Assesses :
      (ctx : Context) (input : AssessInput) (s : S) (out : AssessOutput F) (t : S)
      → assess svc ctx input s ≡ (ok out, t)
      → Assesses ctx input s out t
  unfolding assess save_assessed
  assess-Assesses ctx input s out t e =
      let w = trim_space input.workspace_id in
      let id = trim_space input.decision_id in
      let (_, _, h1) = lift-eq-ok (require_write ctx) _ s out t e in
      let (actor, allowed, h2) = lift-eq-ok (apply_principal_actor ctx input.actor) _ s out t h1 in
      let (_, _, h3) = lift-eq-ok (required w "workspace_id is required") _ s out t h2 in
      let (_, _, h4) = lift-eq-ok (required id "decision_id is required") _ s out t h3 in
      let (d, u, read, h5) = bind-eq-ok (own_decision svc w id) _ s out t h4 in
      let (got, own) = own_decision-Owned w id s d u read in
      let v = (svc.clock (svc.ids u).1).1 in
      let a : Assessment = record {
        id = (svc.ids u).0;
        workspace_id = w;
        decision_id = id;
        actor = actor;
        signal = trim_space input.signal;
        score = input.score;
        summary = trim_space input.summary;
        metadata = input.metadata;
        created_at = (svc.clock (svc.ids u).1).0;
      } in
      let (_, valid, h6) = lift-eq-ok (validate_assessment a) _ v out t h5 in
      let (_, x, saved, h7) = bind-eq-ok (svc.store.save_assessment a) _ v out t h6 in
      let (same, end) = pure-eq-ok (record { assessment = a; decision = d }) out x t h7 in
      subst (λ o. Assesses ctx input s o t) same
        (
          u,
          v,
          got,
          own,
          allowed,
          valid,
          subst (λ y. svc.store.save_assessment a v ≡ (ok tt, y)) end saved,
        )
