-- ===== src/App/Remember/Stored.antt =====
-- What `Remember` of internal/app/service.go stores.
use tuskbase.Common.{◌≡◌, ok, Float64}
use tuskbase.Domain.Types.{Time, Workspace, Decision}
use tuskbase.Domain.Validate.Soundness.{IsSoundDecision}
use tuskbase.App.Service.{Service}
use tuskbase.App.Remember.{save_conflicts}

module _ {F S : Type 0} ⦃fl : Float64 F⦄ (svc : Service F S) where
  -- The calls behind a stored decision, from the state `s` to the state `t`.
  pub record Stored (now : Time) (d : Decision F) (s t : S) : Type 0 where
    pub workspace : Workspace
    pub before : S
    pub after : S
    pub sound : IsSoundDecision d
    pub attached : svc.store.get_workspace d.workspace_id s ≡ (ok workspace, before)
    pub saved : svc.store.save_decision d before ≡ (ok tt, after)
    pub opened : save_conflicts svc now d d.relationships after ≡ (ok tt, t)
