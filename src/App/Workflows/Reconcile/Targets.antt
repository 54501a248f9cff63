-- ===== src/App/Workflows/Reconcile/Targets.antt =====
-- The decisions that a reconciliation names: internal/app/workflows.go.
use tuskbase.Common.{
  String, ◌==◌, ◌≡◌, ◌≢◌, refl, sym, ap, ◌∙◌, inl, inr, arith, Bool-cases, List, [], ◌∷◌, ◌++◌,
  length, All, trim_space, mem_text, Unrepeated, text_ne, Float64, ok, bind-eq-ok, lift-eq-ok,
  pure-eq-ok, suc, ◌<◌, eqb, message, fail_if,
}
use tuskbase.Domain.Parse.{reconciles}
use tuskbase.Domain.Types.{DecisionRelationship, Conflict, Actor}
use tuskbase.App.Auth.{Context, require_write, apply_principal_actor}
use tuskbase.App.Lookup.{required}
use tuskbase.App.Remember.{remember}
use tuskbase.App.Service.{Service}
use tuskbase.App.Workflows.Resolve.{resolve_conflict, own_conflict}
use tuskbase.App.Workflows.Reconcile.{
  Links, target_key, reconciles_link, add_target, add_targets, own_conflicts, resolve_each,
  resolution_of, reconcile, remember_input, ReconcileInput, ReconcileOutput,
}

module _ {F : Type 0} ⦃fl : Float64 F⦄ where
  -- The keys of relationships, newest first, as the loop marks them.
  abbrev pub keys : List (DecisionRelationship F) → List String → List String
  keys [] seen = seen
  keys (r ∷ rs) seen = keys rs (target_key r.to_decision_id ∷ seen)

  abbrev pub Named : DecisionRelationship F → Type 0
  Named r = (r.type ≡ reconciles) × (r.to_decision_id ≢ "")

  -- The marked keys are those of the relationships, without repetition.
  abbrev pub Kept : Links F → Type 0
  Kept links =
      All Named links.relationships
      × (keys links.relationships [] ≡ links.seen)
      × Unrepeated links.seen

  keys-append :
      (rs : List (DecisionRelationship F)) (r : DecisionRelationship F) (seen : List String)
      → keys (rs ++ r ∷ []) seen ≡ target_key r.to_decision_id ∷ keys rs seen
  keys-append [] r seen = refl
  keys-append (x ∷ xs) r seen = keys-append xs r (target_key x.to_decision_id ∷ seen)

  All-append :
      (rs : List (DecisionRelationship F)) (r : DecisionRelationship F)
      → All Named rs
      → Named r
      → All Named (rs ++ r ∷ [])
  All-append [] r h n = (n, tt)
  All-append (x ∷ xs) r (h, hs) n = (h, All-append xs r hs n)

  add_target-Kept : (id : String) (links : Links F) → Kept links → Kept (add_target id links)
  unfolding add_target reconciles_link
  add_target-Kept id links (named, same, fresh) =
      let target = trim_space id in
      elim (Bool-cases (target == "")) [
        | inl is ↦ rw is (named, same, fresh)
        | inr not_ ↦ elim (Bool-cases (mem_text (target_key target) links.seen)) [
          | inl known ↦ rw (not_, known) (named, same, fresh)
          | inr new ↦
              rw (not_, new)
                (
                  All-append links.relationships (reconciles_link target) named
                      (refl, text_ne target "" not_),
                  keys-append links.relationships (reconciles_link target) []
                      ∙ ap (λ l. target_key target ∷ l) same,
                  (new, fresh),
                )
        ]
      ]

  -- The relationships that a reconciliation collects from conflicts are of type `reconciles`, each
  -- names a decision, and no two have one key, if that held of those it started with and their keys
  -- were the marked ones.
  pub add_targets-Kept :
      (cs : List (Conflict F)) (links : Links F) → Kept links → Kept (add_targets cs links)
  unfolding add_targets
  add_targets-Kept [] links h = h
  add_targets-Kept (c ∷ cs) links h = add_targets-Kept cs _ (
      add_target-Kept c.decision_id (add_target c.conflicting_with_id links)
        (add_target-Kept c.conflicting_with_id links h))

module _ {F S : Type 0} ⦃fl : Float64 F⦄ (svc : Service F S) where
  own_conflicts-length :
      (w : String) (ids : List String) (s : S) (cs : List (Conflict F)) (t : S)
      → own_conflicts svc w ids s ≡ (ok cs, t)
      → length cs ≡ length ids
  unfolding own_conflicts
  own_conflicts-length w [] s cs t e =
      let (same, _) = pure-eq-ok [] cs s t e in ap length (sym same)
  own_conflicts-length w (id ∷ ids) s cs t e =
      let (c, u, _, h1) = bind-eq-ok (own_conflict svc w (trim_space id)) _ s cs t e in
      let (more, v, rest, h2) = bind-eq-ok (own_conflicts svc w ids) _ u cs t h1 in
      let (same, _) = pure-eq-ok (c ∷ more) cs v t h2 in
      ap length (sym same) ∙ ap (λ n. suc n) (own_conflicts-length w ids u more v rest)

  resolve_each-length :
      (ctx : Context) (w : String) (actor : Actor) (id : String) (cs : List (Conflict F)) (s : S)
      (out : List (Conflict F)) (t : S)
      → resolve_each svc ctx w actor id cs s ≡ (ok out, t)
      → length out ≡ length cs
  unfolding resolve_each
  resolve_each-length ctx w actor id [] s out t e =
      let (same, _) = pure-eq-ok [] out s t e in ap length (sym same)
  resolve_each-length ctx w actor id (c ∷ cs) s out t e =
      let (one, u, _, h1) =
        bind-eq-ok (resolve_conflict svc ctx (resolution_of w actor id c)) _ s out t e in
      let (more, v, rest, h2) = bind-eq-ok (resolve_each svc ctx w actor id cs) _ u out t h1 in
      let (same, _) = pure-eq-ok (one.conflict ∷ more) out v t h2 in
      ap length (sym same) ∙ ap (λ n. suc n) (resolve_each-length ctx w actor id cs u more v rest)

  -- A reconciliation that succeeds returns a conflict for each identifier that it was given, and it
  -- was given at least one.
  pub reconcile-length :
      (ctx : Context) (input : ReconcileInput F) (s : S) (out : ReconcileOutput F) (t : S)
      → reconcile svc ctx input s ≡ (ok out, t)
      → (0 < length out.conflicts) × (length out.conflicts ≡ length input.conflict_ids)
  unfolding reconcile
  reconcile-length ctx input s out t e =
      let w = trim_space input.workspace_id in
      let (_, _, h1) = lift-eq-ok (require_write ctx) _ s out t e in
      let (_, _, h2) = lift-eq-ok (apply_principal_actor ctx input.actor) _ s out t h1 in
      let (_, some_, h3) =
        lift-eq-ok
          (fail_if (eqb (length input.conflict_ids) 0) (message "conflict_ids is required") (ok tt))
          _ s out t h2 in
      let (_, _, h4) = lift-eq-ok (required w "workspace_id is required") _ s out t h3 in
      let (cs, s5, found, h5) = bind-eq-ok (own_conflicts svc w input.conflict_ids) _ s out t h4 in
      let links = add_targets cs (record { relationships = []; seen = [] }) in
      let (kept, s6, _, h6) =
        bind-eq-ok (remember svc ctx (remember_input input links.relationships)) _ s5 out t h5 in
      let (resolved, s7, each, h7) =
        bind-eq-ok (resolve_each svc ctx w input.actor kept.decision.id cs) _ s6 out t h6 in
      let (same, _) =
        pure-eq-ok
          (record {
            decision = kept.decision;
            conflicts = resolved;
            indexing_status = kept.indexing_status;
            indexing_error = kept.indexing_error;
            quality_warnings = kept.quality_warnings;
          })
          out s7 t h7 in
      let given = own_conflicts-length w input.conflict_ids s cs s5 found in
      let n = ap (λ o. length o.conflicts) (sym same) in
      let m = resolve_each-length ctx w input.actor kept.decision.id cs s6 resolved s7 each in
      (ground (arith, n, m, given, some_), n ∙ m ∙ given)
