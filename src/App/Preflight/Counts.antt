-- ===== src/App/Preflight/Counts.antt =====
-- The output of `Preflight` as a whole: internal/app/service.go.
use tuskbase.Common.{
  Bool, ◌+◌, ◌≡◌, refl, sym, ap, ◌∙◌, inl, inr, arith, Bool-cases, if◌then◌else◌, List, [], ◌∷◌,
  map, length, select, count_if, ok, bind-eq-ok, lift-eq-ok, pure-eq-ok, Float64, insert_stable,
  is_blank, fail_if, message, trim_space, sort_stable,
}
use tuskbase.Domain.Types.{Conflict}
use tuskbase.App.Auth.{Context, require_write}
use tuskbase.App.Service.{Service}
use tuskbase.App.Relationship.Classify.{DecisionProposalRelation}
use tuskbase.App.Lookup.{lookup, decisions_for_results}
use tuskbase.App.Preflight.{PreflightInput, PreflightOutput, more_confident, relate_each, preflight}
use tuskbase.App.Preflight.Flags.{is_conflict, relate_each-against}

length-map : {A B : Type 0} (f : A → B) (xs : List A) → length (map f xs) ≡ length xs
length-map f [] = omega arith
length-map f (x ∷ xs) = omega (arith, length-map f xs)

module _ {A : Type 0} (p : A → Bool) where
  length-select : (xs : List A) → length (select p xs) ≡ count_if p xs
  length-select [] = omega arith
  length-select (x ∷ xs) = elim (Bool-cases (p x)) [
    | inl is ↦ rw is (omega (arith, length-select xs))
    | inr not_ ↦ rw not_ (omega (arith, length-select xs))
  ]

module _ {A : Type 0} (before : A → A → Bool) (p : A → Bool) where
  count_if-insert_stable :
      (x : A) (xs : List A)
      → count_if p (insert_stable before x xs) ≡ (if p x then 1 else 0) + count_if p xs
  unfolding insert_stable
  count_if-insert_stable x [] = omega arith
  count_if-insert_stable x (y ∷ ys) = elim (Bool-cases (before y x)) [
    | inl is ↦ rw is (omega (arith, count_if-insert_stable x ys))
    | inr not_ ↦ rw not_ (omega arith)
  ]

  count_if-sort_stable : (xs : List A) → count_if p (sort_stable before xs) ≡ count_if p xs
  unfolding sort_stable
  count_if-sort_stable [] = refl
  count_if-sort_stable (x ∷ xs) =
      omega (arith, count_if-insert_stable x (sort_stable before xs), count_if-sort_stable xs)

module _ {F S : Type 0} ⦃fl : Float64 F⦄ (svc : Service F S) where
  -- A preflight that succeeds reports as many conflicts as relationships of type `conflicts`.
  pub preflight-counts :
      (ctx : Context) (input : PreflightInput) (s : S) (out : PreflightOutput F) (t : S)
      → preflight svc ctx input s ≡ (ok out, t)
      → length out.conflicts ≡ count_if is_conflict out.relationships
  unfolding preflight
  preflight-counts ctx input s out t e =
      let (_, _, h1) = lift-eq-ok (require_write ctx) _ s out t e in
      let (_, _, h2) =
        lift-eq-ok (fail_if (is_blank input.proposal) (message "proposal is required") (ok tt)) _ s
          out t h1 in
      let w = trim_space input.workspace_id in
      let (found, s3, _, h3) =
        bind-eq-ok
          (lookup svc ctx
            (record { workspace_id = w; query = input.proposal; limit = input.limit }))
          _ s out t h2 in
      let (ds, s4, _, h4) =
        bind-eq-ok (decisions_for_results svc w found.results input.limit) _ s3 out t h3 in
      let ((rels, cs), s5, related, h5) =
        bind-eq-ok (relate_each svc w input.proposal ds) _ s4 out t h4 in
      let (same, _) =
        pure-eq-ok
          (record {
            lookup = found;
            relationships = sort_stable more_confident rels;
            conflicts = cs;
          })
          out s5 t h5 in
      let (_, flags) = relate_each-against svc w input.proposal ds s4 rels cs s5 related in
      ap (λ o. length o.conflicts) (sym same)
      ∙ sym (length-map (λ (c : Conflict F). c.conflicting_with_id) cs)
      ∙ ap length flags
      ∙ length-map (λ (r : DecisionProposalRelation F). r.decision_id) (select is_conflict rels)
      ∙ length-select is_conflict rels
      ∙ sym (count_if-sort_stable more_confident is_conflict rels)
      ∙ ap (λ o. count_if is_conflict o.relationships) same
