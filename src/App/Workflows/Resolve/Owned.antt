-- ===== src/App/Workflows/Resolve/Owned.antt =====
-- `ResolveConflict` and the workspace of its conflict: internal/app/workflows.go.
use tuskbase.Common.{
  true, false, is_blank, to_lower, String, not, ◌==◌, ◌≡◌, inl, inr, text_eq, Bool-cases, Error, ok,
  err, fail_if, trim_space, OneOf,
}
use tuskbase.Domain.Parse.{ConflictStatus}
use tuskbase.Domain.Types.{Conflict}
use tuskbase.Domain.Parse.Canonical.{conflict_statuses}
use tuskbase.App.Service.{Service}
use tuskbase.App.Workflows.Resolve.{ResolveConflictInput, ResolveConflictOutput, resolve_conflict}

-- The guard on a workspace lets only that workspace pass.
pub fail_if-same :
    (a b : String) (e : Error) (u : Unit {0}) → fail_if (not (a == b)) e (ok tt) ≡ ok u → a ≡ b
fail_if-same a b e u h = elim (Bool-cases (a == b)) [
  | inl is ↦ text_eq a b is
  | inr not_ ↦ let g : err e ≡ ok u = rw not_ at h in cc
]

module _ {F S : Type 0} (svc : Service F S) where
  -- What a resolution that succeeds has done: it read a conflict of the workspace, and the store
  -- resolved it with a known status and with the resolution that is returned, which names the
  -- workspace and the conflict and has the action of the input.
  abbrev pub Resolves : ResolveConflictInput → S → ResolveConflictOutput F → S → Type 0
  Resolves input s out t =
      (c : Conflict F) × (status : ConflictStatus) × (u : S) × (v : S) × (svc.store.get_conflict
          (trim_space input.conflict_id) s
        ≡ (ok c, u))
      × (c.workspace_id ≡ trim_space input.workspace_id)
      × (svc.store.resolve_conflict (trim_space input.conflict_id) status out.resolution.created_at
            out.resolution v
          ≡ (ok out.conflict, t))
      × OneOf conflict_statuses status
      × (out.resolution.workspace_id ≡ trim_space input.workspace_id)
      × (out.resolution.conflict_id ≡ trim_space input.conflict_id)
      × (is_blank input.action ≡ true → out.resolution.action ≡ "resolved")
      × (is_blank input.action ≡ false → out.resolution.action ≡ to_lower (trim_space input.action))
