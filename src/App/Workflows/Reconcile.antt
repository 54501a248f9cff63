-- ===== src/App/Workflows/Reconcile.antt =====
-- `Reconcile` of internal/app/workflows.go.
pub mod Targets
pub mod Coverage
use tuskbase.Common.{
  ℕ, String, ◌==◌, eqb, if◌then◌else◌, List, [], ◌∷◌, ◌++◌, length, trim_space, ◌⧺◌, nul_text,
  mem_text, ok, message, fail_if, Exec, pure, lift, ◌>>=◌, ◌>>◌, Float64, hundredths,
}
use tuskbase.Domain.Parse.{reconciles}
use tuskbase.Domain.Types.{
  Metadata, Actor, Alternative, Claim, Evidence, DecisionRelationship, Decision, Conflict,
}
use tuskbase.App.Auth.{Context, require_write, apply_principal_actor}
use tuskbase.App.Service.{Service}
use tuskbase.App.Lookup.{required}
use tuskbase.App.Remember.{RememberOutput, remember}
use tuskbase.App.Remember.Draft.{RememberInput}
use tuskbase.App.Workflows.Resolve.{ResolveConflictInput, own_conflict, resolve_conflict}

pub record ReconcileInput (F : Type 0) : Type 0 where
  pub workspace_id : String
  pub actor : Actor
  pub conflict_ids : List String
  pub type : String
  pub title : String
  pub outcome : String
  pub rationale : String
  pub confidence : F
  pub alternatives : List Alternative
  pub claims : List Claim
  pub evidence : List Evidence
  pub metadata : Metadata

pub record ReconcileOutput (F : Type 0) : Type 0 where
  pub decision : Decision F
  pub conflicts : List (Conflict F)
  pub indexing_status : String
  pub indexing_error : String
  pub quality_warnings : List String

-- The variables of the first loop.
pub record Links (F : Type 0) : Type 0 where
  pub relationships : List (DecisionRelationship F)
  pub seen : List String

abbrev pub target_key : String → String
target_key target = target ⧺ nul_text ⧺ reconciles

module _ {F : Type 0} ⦃fl : Float64 F⦄ where
  unfoldable pub reconciles_link : String → DecisionRelationship F
  reconciles_link target = record {
    id = "";
    workspace_id = "";
    from_decision_id = "";
    to_decision_id = target;
    type = reconciles;
    confidence = hundredths 90;
    reason = "Reconciles an open conflict in the decision trail.";
  }

  unfoldable pub add_target : String → Links F → Links F
  unfolding reconciles_link
  add_target id links =
      let target = trim_space id in
      if target == ""
      then links
      else if mem_text (target_key target) links.seen
      then links
      else record {
        relationships = links.relationships ++ reconciles_link target ∷ [];
        seen = target_key target ∷ links.seen;
      }

  unfoldable pub add_targets : List (Conflict F) → Links F → Links F
  unfolding add_target
  add_targets [] links = links
  add_targets (c ∷ cs) links =
      add_targets cs (add_target c.decision_id (add_target c.conflicting_with_id links))

  unfoldable pub remember_input : ReconcileInput F → List (DecisionRelationship F) → RememberInput F
  remember_input input links =
      let type = trim_space input.type in
      record {
        workspace_id = trim_space input.workspace_id;
        actor = input.actor;
        type = if type == "" then "reconciliation" else type;
        title = input.title;
        outcome = input.outcome;
        rationale = input.rationale;
        confidence = input.confidence;
        status = "";
        valid_from = 0;
        alternatives = input.alternatives;
        claims = input.claims;
        evidence = input.evidence;
        relationships = links;
        precedent_ref = "";
        supersedes_id = "";
        metadata = input.metadata;
      }

  -- The input that resolves a conflict by a decision.
  abbrev pub resolution_of : String → Actor → String → Conflict F → ResolveConflictInput
  resolution_of workspace_id actor decision_id c = record {
    workspace_id = workspace_id;
    conflict_id = c.id;
    actor = actor;
    action = "reconciled";
    status = "";
    summary = "Reconciled by decision " ⧺ decision_id ⧺ ".";
    decision_id = decision_id;
  }

module _ {F S : Type 0} ⦃fl : Float64 F⦄ (svc : Service F S) where
  -- The conflicts of the input, each of the workspace.
  unfoldable pub own_conflicts : String → List String → Exec S (List (Conflict F))
  own_conflicts workspace_id [] = pure []
  own_conflicts workspace_id (id ∷ ids) = do
    c ← own_conflict svc workspace_id (trim_space id)
    cs ← own_conflicts workspace_id ids
    pure (c ∷ cs)

  -- Each conflict is resolved by the decision.
  unfoldable pub resolve_each :
      Context → String → Actor → String → List (Conflict F) → Exec S (List (Conflict F))
  resolve_each ctx workspace_id actor decision_id [] = pure []
  resolve_each ctx workspace_id actor decision_id (c ∷ cs) = do
    out ← resolve_conflict svc ctx (resolution_of workspace_id actor decision_id c)
    more ← resolve_each ctx workspace_id actor decision_id cs
    pure (out.conflict ∷ more)

  unfoldable pub reconcile : Context → ReconcileInput F → Exec S (ReconcileOutput F)
  unfolding own_conflicts resolve_each add_targets remember_input
  reconcile ctx input = do
    lift (require_write ctx)
    lift (apply_principal_actor ctx input.actor)
    lift (fail_if (eqb (length input.conflict_ids) 0) (message "conflict_ids is required") (ok tt))
    let workspace_id = trim_space input.workspace_id
    lift (required workspace_id "workspace_id is required")
    found ← own_conflicts workspace_id input.conflict_ids
    let links = add_targets found (record { relationships = []; seen = [] })
    kept ← remember svc ctx (remember_input input links.relationships)
    resolved ← resolve_each ctx workspace_id input.actor kept.decision.id found
    pure (record {
      decision = kept.decision;
      conflicts = resolved;
      indexing_status = kept.indexing_status;
      indexing_error = kept.indexing_error;
      quality_warnings = kept.quality_warnings;
    })
