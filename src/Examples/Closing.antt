-- ===== src/Examples/Closing.antt =====
-- Conflicts that are resolved and reconciled.
use tuskbase.App.Auth.{
  actor_is_empty, actors_match, apply_principal_actor, can_write, require_write,
}
use tuskbase.App.Completeness.{score_completeness}
use tuskbase.App.Remember.{relationship_reason, remember}
use tuskbase.App.Service.{clamp, round2, severity_for_confidence}
use tuskbase.App.Tokens.{words}
use tuskbase.App.Workflows.Reconcile.{
  reconcile, ReconcileInput, ReconcileOutput, Links, add_targets,
}
use tuskbase.App.Workflows.Resolve.{
  resolve_conflict, conflict_resolution_status, ResolveConflictInput, ResolveConflictOutput,
}
use tuskbase.Common.{
  is_blank, to_lower, error_text, fields_count, mem_text, quote, Result, ℕ, String, ◌≡◌, refl, [],
  ◌∷◌, ok, Accepted, All,
}
use tuskbase.Domain.Parse.{
  parse_actor_kind, parse_conflict_status, parse_decision_status, parse_conflict_severity,
  parse_relationship_type,
}
use tuskbase.Domain.Validate.{
  validate_alternative, validate_conflict, validate_decision, validate_relationship,
}
use tuskbase.Examples.World.{hundredth_float, World, world, writer, outcome, agent, dispute}
use tuskbase.App.Workflows.Reconcile.Coverage.{Covers, relationships-Covers}
use tuskbase.App.Workflows.Reconcile.Targets.{keys, Kept, add_targets-Kept}

abbrev resolution : ResolveConflictInput
resolution = record {
  workspace_id = "w";
  conflict_id = "c1";
  actor = agent;
  action = "Dismissed";
  status = "";
  summary = "";
  decision_id = "";
}

abbrev resolved : Result (ResolveConflictOutput ℕ) × World
resolved = resolve_conflict world writer resolution []

abbrev dismissed : String
dismissed = "dismissed"

dismissal : conflict_resolution_status "" "Dismissed" ≡ ok (dismissed, dismissed)
unfolding conflict_resolution_status is_blank parse_conflict_status parse_decision_status to_lower
dismissal = refl

abbrev start : Links ℕ
start = record { relationships = []; seen = [] }

add_targets-Kept_example : Kept (add_targets (dispute ∷ dispute ∷ []) start)
add_targets-Kept_example = add_targets-Kept (dispute ∷ dispute ∷ []) start (tt, refl, tt)

relationships-Covers_example :
    All
      (Covers (keys (add_targets (dispute ∷ dispute ∷ []) start).relationships []))
      (dispute ∷ dispute ∷ [])
relationships-Covers_example = relationships-Covers (dispute ∷ dispute ∷ []) start (tt, refl, tt)

abbrev peace : ReconcileInput ℕ
peace = record {
  workspace_id = "w";
  actor = agent;
  conflict_ids = "c1" ∷ [];
  type = "";
  title = "Kafka for billing only";
  outcome = "Use Kafka for billing";
  rationale = "";
  confidence = 80;
  alternatives = [];
  claims = [];
  evidence = [];
  metadata = [];
}

abbrev reconciled : Result (ReconcileOutput ℕ) × World
reconciled = reconcile world writer peace []

reconciled-ok : Accepted reconciled.0
unfolding actor_is_empty actors_match apply_principal_actor can_write clamp error_text fields_count
    is_blank mem_text parse_actor_kind parse_conflict_severity parse_conflict_status
    parse_decision_status parse_relationship_type quote reconcile relationship_reason remember
    require_write resolve_conflict round2 score_completeness severity_for_confidence to_lower
    validate_alternative validate_conflict validate_decision validate_relationship words
reconciled-ok = tt
