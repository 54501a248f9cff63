-- ===== src/App/Workflows/Resolve.antt =====
-- `ResolveConflict` of internal/app/workflows.go.
pub mod Statuses
pub mod Owned
use tuskbase.Common.{
  String, not, ◌==◌, ◌||◌, is_blank, if◌then◌else◌, trim_space, to_lower, ◌⧺◌, Result, ok, err,
  message, invalid, fail_if, Exec, pure, lift, call, ◌>>=◌, ◌>>◌,
}
use tuskbase.Domain.Parse.{
  ConflictStatus, conflict_resolved, conflict_dismissed, conflict_deferred, parse_conflict_status,
}
use tuskbase.Domain.Types.{Actor, Conflict, ConflictResolution}
use tuskbase.App.Auth.{Context, require_write, apply_principal_actor}
use tuskbase.App.Service.{Service}
use tuskbase.App.Lookup.{required}

pub record ResolveConflictInput : Type 0 where
  pub workspace_id : String
  pub conflict_id : String
  pub actor : Actor
  pub action : String
  pub status : String
  pub summary : String
  pub decision_id : String

pub record ResolveConflictOutput (F : Type 0) : Type 0 where
  pub conflict : Conflict F
  pub resolution : ConflictResolution

-- The status that an action stands for when no status is given.
unfoldable pub action_status : String → String → Result (ConflictStatus × String)
action_status action written =
    if action == "resolved" || action == "accepted" || action == "reconciled"
    then ok (conflict_resolved, action)
    else if action == "dismissed" || action == "false_positive"
    then ok (conflict_dismissed, action)
    else if action == "deferred"
    then ok (conflict_deferred, action)
    else err (invalid "invalid conflict resolution action" written)

with_action : String → Result ConflictStatus → Result (ConflictStatus × String)
with_action action (ok status) = ok (status, action)
with_action action (err e) = err e

unfoldable pub resolution_action : String → String
resolution_action written =
    let action = to_lower (trim_space written) in if action == "" then "resolved" else action

unfoldable pub conflict_resolution_status : String → String → Result (ConflictStatus × String)
unfolding action_status with_action resolution_action
conflict_resolution_status status_input action_input =
    let action = resolution_action action_input in
    if not (is_blank status_input)
    then with_action action (parse_conflict_status status_input)
    else action_status action action_input

unfoldable pub resolution_summary : String → ConflictStatus → String
resolution_summary summary status =
    let text = trim_space summary in if text == "" then "Conflict marked " ⧺ status ⧺ "." else text

module _ {F S : Type 0} (svc : Service F S) where
  -- The conflict of an identifier, which has to be one of the workspace.
  unfoldable pub own_conflict : String → String → Exec S (Conflict F)
  own_conflict workspace_id conflict_id = do
    c ← svc.store.get_conflict conflict_id
    lift (
        fail_if (not (c.workspace_id == workspace_id))
          (message "conflict does not belong to workspace") (ok tt))
    pure c

  unfoldable pub resolve_conflict :
      Context → ResolveConflictInput → Exec S (ResolveConflictOutput F)
  unfolding own_conflict conflict_resolution_status resolution_summary
  resolve_conflict ctx input = do
    lift (require_write ctx)
    actor ← lift (apply_principal_actor ctx input.actor)
    let workspace_id = trim_space input.workspace_id
    let conflict_id = trim_space input.conflict_id
    lift (required workspace_id "workspace_id is required")
    lift (required conflict_id "conflict_id is required")
    own_conflict workspace_id conflict_id
    (status, action) ← lift (conflict_resolution_status input.status input.action)
    id ← call svc.ids
    now ← call svc.clock
    let resolution : ConflictResolution = record {
      id = id;
      workspace_id = workspace_id;
      conflict_id = conflict_id;
      actor = actor;
      action = action;
      summary = resolution_summary input.summary status;
      decision_id = trim_space input.decision_id;
      created_at = now;
    }
    resolved ← svc.store.resolve_conflict conflict_id status now resolution
    pure (record { conflict = resolved; resolution = resolution })
