-- ===== src/App/Preflight/Flags.antt =====
-- The relationships and the conflicts of a preflight: internal/app/service.go.
use mathlib.Core.List.{append_assoc, append-nil}
use tuskbase.Common.{
  String, Bool, ◌≡◌, refl, sym, ap, ◌∙◌, inl, inr, ◌==◌, if◌then◌else◌, Bool-cases, List, [], ◌∷◌,
  ◌++◌, map, select, ok, bind-eq-ok, lift-eq-ok, pure-eq-ok, Float64,
}
use mathlib.Core.Path.{ap₂}
use tuskbase.Domain.Parse.{conflicts}
use tuskbase.Domain.Types.{Decision, Conflict}
use tuskbase.Domain.Validate.{validate_conflict}
use tuskbase.App.Service.{Service}
use tuskbase.App.Relationship.Classify.{DecisionProposalRelation, classify_proposal}
use tuskbase.App.Relationship.Classify.Effects.{
  classify_proposal-decision_id, classify_proposal-log,
}
use tuskbase.App.Service.Ledger.{ConflictLog}
use tuskbase.App.Preflight.{proposal_conflict, save_proposal_conflict, relate_each}

module _ {F : Type 0} ⦃fl : Float64 F⦄ where
  abbrev pub is_conflict : DecisionProposalRelation F → Bool
  is_conflict r = r.type == conflicts

  -- The decisions that conflict with the proposal, as its relationships say and as conflicts do.
  abbrev pub flagged : List (DecisionProposalRelation F) → List String
  flagged rs = map (λ (r : DecisionProposalRelation F). r.decision_id) (select is_conflict rs)

  abbrev pub against : List (Conflict F) → List String
  against cs = map (λ (c : Conflict F). c.conflicting_with_id) cs

  abbrev pub ids : List (DecisionProposalRelation F) → List String
  ids rs = map (λ (r : DecisionProposalRelation F). r.decision_id) rs

  against-append : (xs ys : List (Conflict F)) → against (xs ++ ys) ≡ against xs ++ against ys
  against-append [] ys = refl
  against-append (x ∷ xs) ys = ap (λ l. x.conflicting_with_id ∷ l) (against-append xs ys)

  flagged-first :
      (r : DecisionProposalRelation F) (id : String) (rs : List (DecisionProposalRelation F))
      → r.decision_id ≡ id
      → (if is_conflict r then id ∷ [] else []) ++ flagged rs ≡ flagged (r ∷ rs)
  flagged-first r id rs e = elim (Bool-cases (is_conflict r)) [
    | inl is ↦ rw is (ap (λ x. x ∷ flagged rs) (sym e))
    | inr not_ ↦ rw not_ refl
  ]

module _ {F S : Type 0} ⦃fl : Float64 F⦄ (svc : Service F S) where
  save_proposal_conflict-against :
      (w p : String) (d : Decision F) (rel : DecisionProposalRelation F) (s : S)
      (opened : List (Conflict F)) (u : S)
      → save_proposal_conflict svc w p d rel s ≡ (ok opened, u)
      → against opened ≡ d.id ∷ []
  unfolding save_proposal_conflict
  save_proposal_conflict-against w p d rel s opened u e =
      let s1 = (svc.ids s).1 in
      let s2 = (svc.clock s1).1 in
      let c = proposal_conflict w p d rel (svc.ids s).0 (svc.clock s1).0 in
      let (_, _, h1) = lift-eq-ok (validate_conflict c) _ s2 opened u e in
      let (_, v, _, h2) = bind-eq-ok (svc.store.save_conflict c) _ s2 opened u h1 in
      let (same, _) = pure-eq-ok (c ∷ []) opened v u h2 in
      ap against (sym same) ∙ (unfold proposal_conflict in refl)

  step-against :
      (w p : String) (d : Decision F) (rel : DecisionProposalRelation F) (s : S)
      (opened : List (Conflict F)) (u : S)
      → (if is_conflict rel then save_proposal_conflict svc w p d rel else (λ x. (ok [], x))) s
        ≡ (ok opened, u)
      → against opened ≡ (if is_conflict rel then d.id ∷ [] else [])
  step-against w p d rel s opened u e = elim (Bool-cases (is_conflict rel)) [
    | inl is ↦ rw is (save_proposal_conflict-against w p d rel s opened u (rw is at e))
    | inr not_ ↦
        let (same, _) = pure-eq-ok [] opened s u (rw not_ at e) in rw not_ (ap against (sym same))
  ]

  -- The relationships are those of the decisions, and the conflicts are against the flagged ones.
  pub relate_each-against :
      (w p : String) (ds : List (Decision F)) (s : S) (rels : List (DecisionProposalRelation F))
      (cs : List (Conflict F)) (t : S)
      → relate_each svc w p ds s ≡ (ok (rels, cs), t)
      → (ids rels ≡ map (λ (d : Decision F). d.id) ds) × (against cs ≡ flagged rels)
  unfolding relate_each
  relate_each-against w p [] s rels cs t e =
      let (same, _) = pure-eq-ok ([], []) (rels, cs) s t e in
      let no_rels = ap (λ p. p.0) same in
      (ap ids (sym no_rels), ap against (sym (ap (λ p. p.1) same)) ∙ ap flagged no_rels)
  relate_each-against w p (d ∷ ds) s rels cs t e =
      let rel = (classify_proposal svc w p d s).0 in
      let s1 = (classify_proposal svc w p d s).1 in
      let (opened, u, first, h1) =
        bind-eq-ok
          (if is_conflict rel then save_proposal_conflict svc w p d rel else (λ x. (ok [], x))) _ s1
          (rels, cs) t e in
      let ((more, more_cs), v, rest, h2) =
        bind-eq-ok (relate_each svc w p ds) _ u (rels, cs) t h1 in
      let (same, _) = pure-eq-ok (rel ∷ more, opened ++ more_cs) (rels, cs) v t h2 in
      let all_rels = ap (λ p. p.0) same in
      let own = classify_proposal-decision_id svc w p d s in
      let (ih_ids, ih_flags) = relate_each-against w p ds u more more_cs v rest in
      (
        ap ids (sym all_rels) ∙ ap₂ (λ x xs. x ∷ xs) own ih_ids,
        ap against (sym (ap (λ p. p.1) same))
            ∙ against-append opened more_cs
            ∙ ap₂ (λ xs ys. xs ++ ys) (step-against w p d rel s1 opened u first) ih_flags
            ∙ flagged-first rel d.id more own
            ∙ ap flagged all_rels,
      )

module _ {F S : Type 0} ⦃fl : Float64 F⦄ (svc : Service F S) (log : S → List (Conflict F))
    (laws : ConflictLog svc log) where
  save_proposal_conflict-log :
      (w p : String) (d : Decision F) (rel : DecisionProposalRelation F) (s : S)
      (opened : List (Conflict F)) (u : S)
      → save_proposal_conflict svc w p d rel s ≡ (ok opened, u)
      → log u ≡ log s ++ opened
  unfolding save_proposal_conflict proposal_conflict
  save_proposal_conflict-log w p d rel s opened u e =
      let s1 = (svc.ids s).1 in
      let s2 = (svc.clock s1).1 in
      let c = proposal_conflict w p d rel (svc.ids s).0 (svc.clock s1).0 in
      let (_, _, h1) = lift-eq-ok (validate_conflict c) _ s2 opened u e in
      let (_, v, kept, h2) = bind-eq-ok (svc.store.save_conflict c) _ s2 opened u h1 in
      let (same, end) = pure-eq-ok (c ∷ []) opened v u h2 in
      ap log (sym end)
      ∙ laws.saved c s2 v refl (laws.clock_set s1) refl kept
      ∙ ap₂ (λ l m. l ++ m) (laws.clock_keep s1 ∙ laws.ids_keep s) same

  step-log :
      (w p : String) (d : Decision F) (rel : DecisionProposalRelation F) (s : S)
      (opened : List (Conflict F)) (u : S)
      → (if is_conflict rel then save_proposal_conflict svc w p d rel else (λ x. (ok [], x))) s
        ≡ (ok opened, u)
      → log u ≡ log s ++ opened
  step-log w p d rel s opened u e = elim (Bool-cases (is_conflict rel)) [
    | inl is ↦ save_proposal_conflict-log w p d rel s opened u (rw is at e)
    | inr not_ ↦
        let (same, end) = pure-eq-ok [] opened s u (rw not_ at e) in
        ap log (sym end) ∙ sym (append-nil (log s)) ∙ ap (λ l. log s ++ l) same
  ]

  relate_each-log :
      (w p : String) (ds : List (Decision F)) (s : S) (rels : List (DecisionProposalRelation F))
      (cs : List (Conflict F)) (t : S)
      → relate_each svc w p ds s ≡ (ok (rels, cs), t)
      → log t ≡ log s ++ cs
  unfolding relate_each
  relate_each-log w p [] s rels cs t e =
      let (same, end) = pure-eq-ok ([], []) (rels, cs) s t e in
      ap log (sym end) ∙ sym (append-nil (log s)) ∙ ap (λ l. log s ++ l) (ap (λ p. p.1) same)
  relate_each-log w p (d ∷ ds) s rels cs t e =
      let rel = (classify_proposal svc w p d s).0 in
      let s1 = (classify_proposal svc w p d s).1 in
      let (opened, u, first, h1) =
        bind-eq-ok
          (if is_conflict rel then save_proposal_conflict svc w p d rel else (λ x. (ok [], x))) _ s1
          (rels, cs) t e in
      let ((more, more_cs), v, rest, h2) =
        bind-eq-ok (relate_each svc w p ds) _ u (rels, cs) t h1 in
      let (same, end) = pure-eq-ok (rel ∷ more, opened ++ more_cs) (rels, cs) v t h2 in
      let before = classify_proposal-log svc log laws w p d s in
      ap log (sym end)
      ∙ relate_each-log w p ds u more more_cs v rest
      ∙ ap (λ l. l ++ more_cs) (step-log w p d rel s1 opened u first ∙ ap (λ l. l ++ opened) before)
      ∙ append_assoc (log s) opened more_cs
      ∙ ap (λ l. log s ++ l) (ap (λ p. p.1) same)

  -- When the loop of a preflight succeeds, its relationships are those of the decisions, in order;
  -- the conflicts that it returns are against exactly the decisions whose relationship is of type
  -- `conflicts`, in that order; and they are what the conflict log grew by, where the laws of a
  -- conflict log hold: new identifiers, the clock and the validator leave the log alone, the clock
  -- shows a time, and a new conflict that is saved stands at its end.
  pub relate_each-flagged :
      (w p : String) (ds : List (Decision F)) (s : S) (rels : List (DecisionProposalRelation F))
      (cs : List (Conflict F)) (t : S)
      → relate_each svc w p ds s ≡ (ok (rels, cs), t)
      → (ids rels ≡ map (λ (d : Decision F). d.id) ds)
        × (against cs ≡ flagged rels)
        × (log t ≡ log s ++ cs)
  relate_each-flagged w p ds s rels cs t e =
      let (own, flags) = relate_each-against svc w p ds s rels cs t e in
      (own, flags, relate_each-log w p ds s rels cs t e)
