-- ===== src/App/Import/Review.antt =====
-- The review of the candidates, one by one, in internal/app/importer.go.
use tuskbase.Common.{
  String, not, ◌==◌, ◌⧺◌, if◌then◌else◌, length, trim_space, quote, ok, message, fail_if, Exec,
  pure, lift, call, ◌>>=◌, ◌>>◌, Float64,
}
use tuskbase.Domain.Parse.{
  CandidateStatus, candidate_pending, candidate_accepted, candidate_rejected,
}
use tuskbase.Domain.Types.{DecisionCandidate}
use tuskbase.App.Auth.{Context, require_read, require_write}
use tuskbase.App.Service.{Service, bounded_limit}
use tuskbase.App.Lookup.{required}
use tuskbase.App.Remember.{remember}
use tuskbase.App.Import.Extract.{Importing}
use tuskbase.App.Import.Candidates.{
  ImportListInput, ImportListOutput, ImportAcceptOutput, ImportRejectInput, default_import_limit,
  import_list_status, accepted_input, already_accepted, newly_accepted,
}

module _ {F S : Type 0} (svc : Service F S) where
  unfoldable pub import_list : Context → ImportListInput → Exec S (ImportListOutput F)
  unfolding import_list_status bounded_limit require_read
  import_list ctx input = do
    lift (require_read ctx)
    let id = trim_space input.workspace_id
    lift (required id "workspace_id is required")
    svc.store.get_workspace id
    status ← lift (import_list_status input.status)
    candidates ← svc.store.list_decision_candidates (record {
      workspace_id = id;
      status = status.0;
      all_statuses = status.1;
      limit = bounded_limit input.limit default_import_limit;
    })
    pure (record { candidates = candidates; count = length candidates })

  -- The output of `ImportShow` is the candidate alone.
  unfoldable pub import_show : Context → String → Exec S (DecisionCandidate F)
  unfolding require_read
  import_show ctx candidate_id = do
    lift (require_read ctx)
    svc.store.get_decision_candidate (trim_space candidate_id)

  unfoldable pub import_reject : Context → ImportRejectInput → Exec S (DecisionCandidate F)
  unfolding require_write
  import_reject ctx input = do
    lift (require_write ctx)
    c ← svc.store.get_decision_candidate (trim_space input.candidate_id)
    lift (
        fail_if (c.status == candidate_accepted) (message "accepted candidates cannot be rejected")
          (ok tt))
    now ← call svc.clock
    svc.store.update_decision_candidate_status (record {
      id = c.id;
      workspace_id = c.workspace_id;
      status = candidate_rejected;
      accepted_decision_id = "";
      rejection_summary = trim_space input.summary;
      updated_at = now;
    })

module _ {F S : Type 0} ⦃fl : Float64 F⦄ (svc : Service F S) (files : Importing) where
  -- A pending candidate is remembered as a decision and then marked.
  unfoldable pub accept_pending : Context → DecisionCandidate F → Exec S (ImportAcceptOutput F)
  unfolding remember accepted_input newly_accepted
  accept_pending ctx c = do
    remembered ← remember svc ctx (accepted_input files c)
    now ← call svc.clock
    updated ← svc.store.update_decision_candidate_status (record {
      id = c.id;
      workspace_id = c.workspace_id;
      status = candidate_accepted;
      accepted_decision_id = remembered.decision.id;
      rejection_summary = "";
      updated_at = now;
    })
    pure (newly_accepted updated remembered)

  unfoldable pub not_pending : CandidateStatus → String
  unfolding quote
  not_pending status = "candidate status is " ⧺ quote status ⧺ ", want pending"

  unfoldable pub accept_candidate : Context → DecisionCandidate F → Exec S (ImportAcceptOutput F)
  unfolding accept_pending already_accepted not_pending
  accept_candidate ctx c =
      if c.status == candidate_accepted
      then (do d ← svc.store.get_decision c.accepted_decision_id; pure (already_accepted c d))
      else (lift
            (fail_if (not (c.status == candidate_pending)) (message (not_pending c.status)) (ok tt))
          >> accept_pending ctx c)

  unfoldable pub import_accept : Context → String → Exec S (ImportAcceptOutput F)
  unfolding accept_candidate require_write
  import_accept ctx candidate_id = do
    lift (require_write ctx)
    c ← svc.store.get_decision_candidate (trim_space candidate_id)
    accept_candidate ctx c
