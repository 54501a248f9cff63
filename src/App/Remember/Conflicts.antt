-- ===== src/App/Remember/Conflicts.antt =====
-- Which conflicts `Remember` of internal/app/service.go opens.
use mathlib.Core.List.{append_assoc, append-nil}
use tuskbase.Common.{
  refl, String, ◌≡◌, ◌≢◌, sym, ap, ◌∙◌, inl, inr, arith, ◌==◌, eq_iff, Bool-cases, ok, bind-eq-ok,
  lift-eq-ok, pure-eq-ok, List, [], ◌∷◌, ◌++◌, Float64,
}
use tuskbase.Domain.Parse.{conflicts}
use tuskbase.Domain.Types.{Time, Decision, DecisionRelationship, Conflict}
use tuskbase.Domain.Validate.{validate_conflict}
use tuskbase.App.Service.{Service}
use tuskbase.App.Service.Ledger.{ConflictLog}
use tuskbase.App.Remember.{open_conflict, save_conflict_of, save_conflicts}

module _ {F S : Type 0} ⦃fl : Float64 F⦄ (svc : Service F S) where
  -- A new open conflict, in order, for each relationship whose type is spelled `conflicts`.
  pub data Opens (now : Time) (d : Decision F)
      : List (DecisionRelationship F) → List (Conflict F) → Type 0 where
    done : Opens now d [] []
    skip :
        {r : DecisionRelationship F} {rs : List (DecisionRelationship F)} {cs : List (Conflict F)}
        → r.type ≢ conflicts
        → Opens now d rs cs
        → Opens now d (r ∷ rs) cs
    opens :
        {r : DecisionRelationship F} {rs : List (DecisionRelationship F)} {cs : List (Conflict F)}
        (id : String)
        → r.type ≡ conflicts
        → Opens now d rs cs
        → Opens now d (r ∷ rs) (open_conflict svc now d r id ∷ cs)

  module _ (log : S → List (Conflict F)) (laws : ConflictLog svc log) (now : Time) (set : now ≢ 0)
      (d : Decision F) where
    save_conflict_of-log :
        (r : DecisionRelationship F) (s t : S)
        → save_conflict_of svc now d r s ≡ (ok tt, t)
        → log t ≡ log s ++ open_conflict svc now d r (svc.ids s).0 ∷ []
    unfolding save_conflict_of open_conflict
    save_conflict_of-log r s t h =
        let (_, _, h1) = lift-eq-ok (validate_conflict _) _ (svc.ids s).1 tt t h in
        laws.saved (open_conflict svc now d r (svc.ids s).0) (svc.ids s).1 t refl set refl h1
        ∙ ap (λ cs. cs ++ open_conflict svc now d r (svc.ids s).0 ∷ []) (laws.ids_keep s)

    -- Without an error, at a time that is set, the conflict log grows by a new open conflict for each
    -- relationship whose type is spelled `conflicts`, in order, and by nothing else, where the laws of
    -- a conflict log hold: new identifiers leave it alone, and a new conflict that is saved stands at
    -- its end.
    pub save_conflicts-Opens :
        (rels : List (DecisionRelationship F)) (s t : S)
        → save_conflicts svc now d rels s ≡ (ok tt, t)
        → (cs : List (Conflict F)) × (log t ≡ log s ++ cs) × Opens now d rels cs
    unfolding save_conflicts
    save_conflicts-Opens [] s t h =
        let (_, same) = pure-eq-ok tt tt s t h in ([], sym (append-nil _ ∙ ap log same), done)
    save_conflicts-Opens (r ∷ rs) s t h = elim (Bool-cases (r.type == conflicts)) [
      | inl is ↦
          let (_, u, first, rest) =
            bind-eq-ok (save_conflict_of svc now d r) _ s tt t (rw is at h) in
          let (cs, grown, opened) = save_conflicts-Opens rs u t rest in
          (
            open_conflict svc now d r (svc.ids s).0 ∷ cs,
            grown
                ∙ ap (λ l. l ++ cs) (save_conflict_of-log r s u first)
                ∙ append_assoc (log s) (open_conflict svc now d r (svc.ids s).0 ∷ []) cs,
            opens (svc.ids s).0 ((eq_iff r.type conflicts).0 is) opened,
          )
      | inr other ↦
          let (cs, grown, opened) = save_conflicts-Opens rs s t (rw other at h) in
          (cs, grown, skip (λ e. ground (arith, eq_iff r.type conflicts)) opened)
    ]
