-- ===== src/App/Workflows/Finish.antt =====
-- `FinishChange` of internal/app/workflows.go.
pub mod Outcomes
use tuskbase.Common.{
  String, ◌==◌, Option, none, some, if◌then◌else◌, List, [], ◌∷◌, trim_space, Result, ok, err,
  message, Exec, pure, lift, ◌>>=◌, ◌>>◌, Float64,
}
use tuskbase.Domain.Types.{Decision}
use tuskbase.App.Auth.{Context, require_read}
use tuskbase.App.Service.{Service}
use tuskbase.App.Lookup.{required}
use tuskbase.App.Remember.{RememberOutput, remember}
use tuskbase.App.Remember.Draft.{RememberInput}

pub record ChangedFileSummary : Type 0 where
  pub path : String
  pub summary : String

pub record TestSummary : Type 0 where
  pub command : String
  pub status : String
  pub output : String

pub record FinishChangeInput (F : Type 0) : Type 0 where
  pub workspace_id : String
  pub summary : String
  pub changed_files : List ChangedFileSummary
  pub tests : List TestSummary
  pub decision : Option (RememberInput F)

pub record FinishChangeOutput (F : Type 0) : Type 0 where
  pub status : String
  pub reason : String
  pub summary : String
  pub changed_files : List ChangedFileSummary
  pub tests : List TestSummary
  pub decision : Option (Decision F)
  pub indexing_status : String
  pub indexing_error : String
  pub quality_warnings : List String

unfoldable pub normalize_changed_files : List ChangedFileSummary → List ChangedFileSummary
normalize_changed_files [] = []
normalize_changed_files (file ∷ files) =
    let path = trim_space file.path in
    let rest = normalize_changed_files files in
    if path == "" then rest else record { path = path; summary = trim_space file.summary } ∷ rest

unfoldable pub normalize_test_summaries : List TestSummary → List TestSummary
normalize_test_summaries [] = []
normalize_test_summaries (test ∷ tests) =
    let command = trim_space test.command in
    let rest = normalize_test_summaries tests in
    if command == ""
    then rest
    else record {
      command = command;
      status = trim_space test.status;
      output = trim_space test.output;
    }
      ∷ rest

module _ {F : Type 0} where
  -- The decision is given the workspace of the change, or has to name it.
  unfoldable pub place_decision : String → RememberInput F → Result (RememberInput F)
  place_decision workspace_id input =
      let own = trim_space input.workspace_id in
      if own == ""
      then ok (record input { workspace_id = workspace_id })
      else if own == workspace_id
      then ok input
      else err (message "decision workspace_id does not match finish workspace_id")

  unfoldable pub remembered : FinishChangeOutput F → RememberOutput F → FinishChangeOutput F
  remembered out kept = record out {
    status = "remembered";
    decision = some kept.decision;
    indexing_status = kept.indexing_status;
    indexing_error = kept.indexing_error;
    quality_warnings = kept.quality_warnings;
  }

  unfoldable pub finish_base : FinishChangeInput F → FinishChangeOutput F
  unfolding normalize_changed_files normalize_test_summaries
  finish_base input = record {
    status = "";
    reason = "";
    summary = trim_space input.summary;
    changed_files = normalize_changed_files input.changed_files;
    tests = normalize_test_summaries input.tests;
    decision = none;
    indexing_status = "";
    indexing_error = "";
    quality_warnings = [];
  }

module _ {F S : Type 0} ⦃fl : Float64 F⦄ (svc : Service F S) where
  unfoldable pub finish_with :
      Context
      → String
      → FinishChangeOutput F
      → Option (RememberInput F)
      → Exec S (FinishChangeOutput F)
  unfolding place_decision remembered
  finish_with ctx workspace_id out none =
      pure (record out { status = "skipped"; reason = "no durable decision supplied" })
  finish_with ctx workspace_id out (some decision) = do
    input ← lift (place_decision workspace_id decision)
    kept ← remember svc ctx input
    pure (remembered out kept)

  unfoldable pub finish_change : Context → FinishChangeInput F → Exec S (FinishChangeOutput F)
  unfolding finish_base finish_with
  finish_change ctx input = do
    lift (require_read ctx)
    let workspace_id = trim_space input.workspace_id
    lift (required workspace_id "workspace_id is required")
    svc.store.get_workspace workspace_id
    finish_with ctx workspace_id (finish_base input) input.decision
