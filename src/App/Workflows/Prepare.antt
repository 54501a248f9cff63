-- ===== src/App/Workflows/Prepare.antt =====
-- `PrepareChange` of internal/app/workflows.go.
pub mod Verdicts
use tuskbase.Common.{
  ℕ, String, Bool, true, false, ◌==◌, ltb, Option, none, some, if◌then◌else◌, List, [], ◌∷◌, ◌++◌,
  length, trim_space, Exec, pure, lift, ◌>>=◌, ◌>>◌, Float64,
}
use tuskbase.Domain.Types.{Workspace, Decision, Conflict}
use tuskbase.App.Auth.{Context}
use tuskbase.App.Service.{Service, Repository, default_limit, bounded_limit}
use tuskbase.App.Lookup.{LookupOutput, required, lookup, recent, open_conflicts}
use tuskbase.App.Preflight.{PreflightOutput, preflight}
use tuskbase.App.Attach.{attach}
use tuskbase.App.Briefing.{ContextOutput, context}

pub record PrepareChangeInput : Type 0 where
  pub repo_path : String
  pub display_name : String
  pub task : String
  pub plan : String
  pub limit : ℕ

pub record PrepareChangeOutput (F : Type 0) : Type 0 where
  pub workspace : Workspace
  pub context : ContextOutput F
  pub recent_decisions : List (Decision F)
  pub open_conflicts : List (Conflict F)
  pub lookup : LookupOutput F
  pub preflight : Option (PreflightOutput F)
  pub verdict : String
  pub should_edit : Bool
  pub requires_user_approval : Bool
  pub next_actions : List String

module _ {F : Type 0} where
  -- What a preflight of the plan makes of an output that still needs a plan.
  unfoldable pub judge : PrepareChangeOutput F → PreflightOutput F → PrepareChangeOutput F
  judge out found =
      if ltb 0 (length found.conflicts)
      then (record out {
        preflight = some found;
        verdict = "conflict";
        should_edit = false;
        requires_user_approval = true;
        next_actions =
            "Stop before editing. Ask the user to approve a changed plan, conflict resolution, or reconciliation."
            ∷ "Only call tuskbase_resolve_conflict or tuskbase_reconcile after explicit user approval."
            ∷ [];
      })
      else (record out {
        preflight = some found;
        verdict = "proceed";
        should_edit = true;
        next_actions =
            "Proceed with the planned edits."
            ∷ "After verification, call tuskbase_finish_change and include a durable decision only if one was actually made."
            ∷ (if ltb 0 (length out.open_conflicts)
                then "Existing open conflicts are included as context but are not a hard stop unless this plan conflicts."
                  ∷ []
                else []);
      })

  abbrev pub needs_plan :
      Workspace
      → ContextOutput F
      → List (Decision F)
      → List (Conflict F)
      → LookupOutput F
      → PrepareChangeOutput F
  needs_plan workspace briefing decisions conflicts found = record {
    workspace = workspace;
    context = briefing;
    recent_decisions = decisions;
    open_conflicts = conflicts;
    lookup = found;
    preflight = none;
    verdict = "needs_plan";
    should_edit = false;
    requires_user_approval = false;
    next_actions =
        "Draft a concrete implementation plan, then call tuskbase_prepare_change again with plan before editing."
        ∷ "Do not edit files until prepare_change returns should_edit=true." ∷ [];
  }

module _ {F S : Type 0} ⦃fl : Float64 F⦄ (svc : Service F S) where
  -- The part before the plan is read.
  unfoldable pub gather : Repository → Context → PrepareChangeInput → Exec S (PrepareChangeOutput F)
  gather repo ctx input = do
    let task = trim_space input.task
    lift (required task "task is required")
    attached ←
        attach svc repo ctx
          (record { repo_path = input.repo_path; display_name = input.display_name })
    let id = attached.workspace.id
    let limit = bounded_limit input.limit default_limit
    briefing ← context svc ctx (record { workspace_id = id; limit = limit })
    decisions ← recent svc ctx id limit
    conflicts ← open_conflicts svc ctx id
    found ← lookup svc ctx (record { workspace_id = id; query = task; limit = limit })
    pure (needs_plan attached.workspace briefing decisions conflicts found)

  unfoldable pub judge_plan :
      Context → String → ℕ → PrepareChangeOutput F → Exec S (PrepareChangeOutput F)
  unfolding judge
  judge_plan ctx plan limit out = do
    found ←
        preflight svc ctx
          (record { workspace_id = out.workspace.id; proposal = plan; limit = limit })
    pure (judge out found)

  unfoldable pub prepare_change :
      Repository → Context → PrepareChangeInput → Exec S (PrepareChangeOutput F)
  unfolding gather judge_plan
  prepare_change repo ctx input = do
    out ← gather repo ctx input
    let plan = trim_space input.plan
    if plan == ""
        then pure out
        else judge_plan ctx plan (bounded_limit input.limit default_limit) out
