-- ===== src/Sqlite/Decisions/Saved.antt =====
-- What `SaveDecision` of internal/adapters/sqlite/store.go wrote when it succeeded.
use mathlib.Core.Path.{subst}
use tuskbase.Common.{
  true, false, not, ◌==◌, Bool-cases, if◌then◌else◌, List, [], ◌∷◌, ◌++◌, any, ok, err, lift-eq-ok,
  bind-eq-ok, Float64, ◌≡◌, ◌≢◌, refl, sym, ap, ◌∙◌, text_eq, inl, inr,
}
use tuskbase.Domain.Types.{Decision}
use tuskbase.Sqlite.Tables.{Db, update, insert, with_key, statement, references_workspace}
use tuskbase.Sqlite.Tables.Runs.{
  ok-injective, statement-eq-ok, statements-eq-ok, transaction-eq-ok, fail_if-eq-ok,
  map_result-eq-ok, then_result-eq-ok, insert-eq-ok,
}
use tuskbase.Sqlite.Children.{
  alternative_rows, claim_rows, evidence_rows, relationship_rows, replace_rows,
  replace_decision_children,
}
use tuskbase.Sqlite.Decisions.{
  superseded_by, close_decision, decision_row, supersede, supersede_if_named, insert_decision,
  write_decision, ready_to_save, with_defaults, save_decision,
}

module _ {F G : Type 0} where
  -- The rows of `decisions` before the new one is added.
  abbrev pub closed_rows : Decision F → Db F G → List (Decision F)
  closed_rows d s =
      if d.supersedes_id == ""
      then s.decisions
      else update (superseded_by d) (close_decision s.now d) s.decisions

  abbrev pub with_row : Decision F → Db F G → Db F G
  with_row d s = record s { decisions = closed_rows d s ++ decision_row s.now d ∷ [] }

  -- The tables below `decisions` after a save.
  pub record Rewritten (d : Decision F) (s t : Db F G) : Type 0 where
    pub alternatives :
        replace_rows
          (λ a. a.id)
          (λ a. a.decision_id)
          d.id
          (alternative_rows d)
          s.decision_alternatives
        ≡ ok t.decision_alternatives
    pub claims :
        replace_rows (λ c. c.id) (λ c. c.decision_id) d.id (claim_rows d) s.decision_claims
        ≡ ok t.decision_claims
    pub evidence :
        replace_rows (λ e. e.id) (λ e. e.decision_id) d.id (evidence_rows d) s.decision_evidence
        ≡ ok t.decision_evidence
    pub relationships :
        replace_rows
          (λ r. r.id)
          (λ r. r.from_decision_id)
          d.id
          (relationship_rows d)
          s.decision_relationships
        ≡ ok t.decision_relationships
    pub rest : t ≡ record s {
      decision_alternatives = t.decision_alternatives;
      decision_claims = t.decision_claims;
      decision_evidence = t.decision_evidence;
      decision_relationships = t.decision_relationships;
    }

  pub record Saved (d : Decision F) (s t : Db F G) : Type 0 where
    pub fresh : any (with_key (λ r. r.id) d.id) (closed_rows d s) ≡ false
    pub named : d.supersedes_id ≢ "" → any (superseded_by d) s.decisions ≡ true
    pub children : Rewritten d (with_row d s) t

  pub rewritten :
      (d : Decision F) (s t : Db F G) → replace_decision_children d s ≡ ok t → Rewritten d s t
  unfolding replace_decision_children
  rewritten d s t h =
      let (alternatives, e1, h1) = then_result-eq-ok _ _ t h in
      let (claims, e2, h2) = then_result-eq-ok _ _ t h1 in
      let (evidence, e3, h3) = then_result-eq-ok _ _ t h2 in
      let (relationships, e4, same) = map_result-eq-ok _ _ t h3 in
      subst (Rewritten d s) same
        (record { alternatives = e1; claims = e2; evidence = e3; relationships = e4; rest = refl })

  pub superseded :
      (d : Decision F) (s v : Db F G)
      → supersede_if_named d s ≡ ok v
      → (v ≡ record s { decisions = closed_rows d s })
        × (d.supersedes_id ≢ "" → any (superseded_by d) s.decisions ≡ true)
  unfolding supersede_if_named supersede
  superseded d s v h = elim (Bool-cases (d.supersedes_id == "")) [
    | inl none_named ↦ (
      rw none_named (sym (ok-injective s v (rw none_named at h))),
      λ n. absurd (n (text_eq d.supersedes_id "" none_named)),
    )
    | inr named ↦
        let k = rw named at h in
        elim (Bool-cases (any (superseded_by d) s.decisions)) [
          | inl found ↦ (rw named (sym (ok-injective _ v (rw found at k))), λ n. found)
          | inr missing ↦ let g : err _ ≡ ok v = rw missing at k in cc
        ]
  ]

  pub inserted :
      (d : Decision F) (v w : Db F G)
      → insert_decision d v ≡ ok w
      → (any (with_key (λ r. r.id) d.id) v.decisions ≡ false)
        × (w ≡ record v { decisions = v.decisions ++ decision_row v.now d ∷ [] })
  unfolding insert_decision decision_row
  inserted d v w h =
      let (_, kept) = fail_if-eq-ok (not (references_workspace v d.workspace_id)) _ _ w h in
      let (rows, put, same) =
        map_result-eq-ok _ (insert (λ r. r.id) (decision_row v.now d) v.decisions) w kept in
      let (fresh, last) = insert-eq-ok (λ r. r.id) (decision_row v.now d) v.decisions rows put in
      (fresh, sym same ∙ ap (λ (l : List (Decision F)). record v { decisions = l }) (sym last))

  pub write_decision-Saved :
      (d : Decision F) (s : Db F G) (u : Unit {0}) (t : Db F G)
      → write_decision d s ≡ (ok u, t)
      → Saved d s t
  unfolding write_decision
  write_decision-Saved d s u t h =
      let (_, v, one, rest) = bind-eq-ok (statement (supersede_if_named d)) _ s u t h in
      let (w, two, three) =
        statements-eq-ok (insert_decision d) (replace_decision_children d) v u t rest in
      let (closed, named) = superseded d s v (statement-eq-ok (supersede_if_named d) s _ v one) in
      let (fresh, added) = inserted d v w two in
      let children = rewritten d w t three in
      let whole : w ≡ with_row d s =
        added
        ∙ ap (λ (x : Db F G). record x { decisions = x.decisions ++ decision_row x.now d ∷ [] })
            closed in
      record {
        fresh =
            subst (λ (x : Db F G). any (with_key (λ r. r.id) d.id) x.decisions ≡ false) closed
              fresh;
        named = named;
        children = subst (λ x. Rewritten d x t) whole children;
      }

  module _ ⦃fl : Float64 F⦄ where
    pub save_decision-Saved :
        (given : Decision F) (s : Db F G) (u : Unit {0}) (t : Db F G)
        → save_decision given s ≡ (ok u, t)
        → (ready_to_save (with_defaults s.now given) ≡ ok tt)
          × Saved (with_defaults s.now given) s t
    unfolding save_decision
    save_decision-Saved given s u t h =
        let d = with_defaults s.now given in
        let (_, ready, written) = lift-eq-ok (ready_to_save d) _ s u t h in
        (ready, write_decision-Saved d s u t (transaction-eq-ok (write_decision d) s u t written))

  module _ (d : Decision F) (s t : Db F G) (saved : Saved d s t) where
    pub Saved-decisions : t.decisions ≡ closed_rows d s ++ decision_row s.now d ∷ []
    Saved-decisions = ap (λ (x : Db F G). x.decisions) saved.children.rest

    pub Saved-conflict_rows : t.conflict_rows ≡ s.conflict_rows
    Saved-conflict_rows = ap (λ (x : Db F G). x.conflict_rows) saved.children.rest
