-- ===== src/Sqlite/Decisions/Supersession.antt =====
-- Supersession in internal/adapters/sqlite/store.go.
use mathlib.Core.Path.{subst}
use tuskbase.Common.{
  String, Bool, true, false, ◌==◌, any, Result, ok, err, fail_if, and_then, message, Float64, ◌≡◌,
  ◌≢◌, refl, sym, ap, ◌∙◌, arith, eq_iff,
}
use tuskbase.Domain.Types.{Time, Decision, is_active}
use tuskbase.Domain.Validate.{validate_decision}
use tuskbase.Sqlite.Tables.{Db, active_row, has_active_decision}
use tuskbase.Sqlite.Tables.Rows.{any-append, any-update-none}
use tuskbase.Sqlite.Tables.Runs.{fail_if-eq-ok}
use tuskbase.Sqlite.Decisions.{
  superseded_by, close_decision, decision_row, ready_to_save, with_defaults, save_decision,
  default_status, default_decision_times,
}
use tuskbase.Sqlite.Decisions.Saved.{Saved, closed_rows, save_decision-Saved, Saved-decisions}

module _ {F : Type 0} where
  -- The rows that an update of the superseded decision finds are its active ones.
  superseded_by_lem : (d : Decision F) → superseded_by d ≡ active_row d.supersedes_id d.workspace_id
  unfolding superseded_by active_row
  superseded_by_lem d = refl

  pub close_decision-active_row :
      (now : Time) (d r : Decision F) (k w : String)
      → active_row k w (close_decision now d r) ≡ false
  unfolding close_decision active_row is_active
  close_decision-active_row now d r k w = ground arith

  pub decision_row-active_row :
      (now : Time) (d : Decision F) (k w : String)
      → d.id ≢ k
      → active_row k w (decision_row now d) ≡ false
  unfolding decision_row active_row
  decision_row-active_row now d k w n = ground (arith, eq_iff d.id k)

module _ {F G : Type 0} (d : Decision F) (s t : Db F G) (saved : Saved d s t) where
  -- No active row is left of the decision that was superseded.
  pub Saved-has_active_decision :
      d.supersedes_id ≢ ""
      → d.id ≢ d.supersedes_id
      → has_active_decision t d.supersedes_id d.workspace_id ≡ false
  unfolding has_active_decision
  Saved-has_active_decision named other =
      let p : Decision F → Bool = active_row d.supersedes_id d.workspace_id in
      let given : (d.supersedes_id == "") ≡ false = ground (arith, eq_iff d.supersedes_id "") in
      let closed : any p (closed_rows d s) ≡ false = rw given (
        any-update-none p (superseded_by d) (close_decision s.now d) s.decisions
          (λ x e. close_decision-active_row s.now d x d.supersedes_id d.workspace_id)
          (λ x e. subst (λ (f : Decision F → Bool). f x ≡ false) (superseded_by_lem d) e)) in
      rw (Saved-decisions d s t saved) (
        any-append p (closed_rows d s) _
        ∙ rw (closed, decision_row-active_row s.now d d.supersedes_id d.workspace_id other) refl)

module _ {F : Type 0} ⦃fl : Float64 F⦄ where
  -- A decision that is ready to be saved does not supersede itself.
  ready_to_save-other : (d : Decision F) → ready_to_save d ≡ ok tt → d.id ≢ d.supersedes_id
  unfolding ready_to_save
  ready_to_save-other d h = go (validate_decision d) h
    where
      go :
          (r : Result (Unit {0}))
          → and_then {B = Unit {0}} r (
              fail_if
                (d.supersedes_id == d.id)
                (message "decision cannot supersede itself")
                (ok tt))
            ≡ ok tt
          → d.id ≢ d.supersedes_id
      go (ok u) k =
          let (other, _) = fail_if-eq-ok (d.supersedes_id == d.id) _ _ tt k in
          ground (arith, eq_iff d.supersedes_id d.id)
      go (err e) k = cc

module _ {F G : Type 0} ⦃fl : Float64 F⦄ where
  -- A decision that is saved with a decision it supersedes found that one active in its workspace
  -- and left it inactive there.
  pub save_decision-supersedes :
      (given : Decision F) (s t : Db F G)
      → save_decision given s ≡ (ok tt, t)
      → given.supersedes_id ≢ ""
      → (has_active_decision s given.supersedes_id given.workspace_id ≡ true)
        × (has_active_decision t given.supersedes_id given.workspace_id ≡ false)
  unfolding with_defaults default_status default_decision_times has_active_decision
  save_decision-supersedes given s t h named =
      let (ready, saved) = save_decision-Saved given s tt t h in
      let d = with_defaults s.now given in
      (
        subst (λ f. any f s.decisions ≡ true) (superseded_by_lem d) (saved.named named),
        Saved-has_active_decision d s t saved named (ready_to_save-other d ready),
      )

  -- Where a decision is not active in a workspace, none of it is saved that supersedes it.
  pub has_active_decision-refuses :
      (k w : String) (later : Decision F) (u v : Db F G)
      → has_active_decision u k w ≡ false
      → k ≢ ""
      → later.supersedes_id ≡ k
      → later.workspace_id ≡ w
      → save_decision later u ≢ (ok tt, v)
  unfolding with_defaults default_status default_decision_times has_active_decision
  has_active_decision-refuses k w later u v gone named same_id same_workspace h =
      let (_, again) = save_decision-Saved later u tt v h in
      let d = with_defaults u.now later in
      let found : has_active_decision u later.supersedes_id later.workspace_id ≡ true =
        subst (λ f. any f u.decisions ≡ true) (superseded_by_lem d)
          (again.named (λ q. named (sym same_id ∙ q))) in
      let clash : true ≡ false =
        sym found
        ∙ ap (λ i. has_active_decision u i later.workspace_id) same_id
        ∙ ap (λ x. has_active_decision u k x) same_workspace
        ∙ gone in
      cc
