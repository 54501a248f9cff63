-- ===== src/Sqlite/Decisions/Reading.antt =====
-- How the decisions of internal/adapters/sqlite/store.go read after `SaveDecision`.
use tuskbase.Common.{
  String, false, ◌==◌, Bool-cases, if◌then◌else◌, List, [], ◌∷◌, map, select, ok, Option, none,
  some, Option-cases, eqb, Float64, ◌≡◌, ◌≢◌, refl, ap, ◌∙◌, inl, inr, arith, eq_iff,
}
use tuskbase.Domain.Types.{Time, Decision}
use tuskbase.Sqlite.Tables.{Db, first, with_key, format_time, nullable_time}
use tuskbase.Sqlite.Tables.Rows.{first-append, first-append-other, first-holds, first-update-other}
use tuskbase.Sqlite.Children.{
  alternative_rows, claim_rows, evidence_rows, relationship_rows, list_alternatives, list_claims,
  list_evidence, list_relationships, load_decision_children, prefer_rows, own_alternative,
  own_claim, own_evidence, own_relationship, has_text,
}
use tuskbase.Sqlite.Children.Replaced.{replace_rows-owned_by, replace_rows-other, owned-map}
use tuskbase.Sqlite.Decisions.{
  superseded_by, close_decision, decision_row, scan_decision, with_defaults, save_decision,
  default_status, default_decision_times, find_decision,
}
use tuskbase.Sqlite.Decisions.Saved.{Saved, closed_rows, save_decision-Saved, Saved-decisions}

module _ {F : Type 0} where
  -- The lists below a decision in the form in which they are stored: each row names the decision.
  -- The claims are those with a text, or all where none has one.
  abbrev pub stored_children : Decision F → Decision F → Decision F
  stored_children d r = record r {
    alternatives = map (own_alternative d.id) d.alternatives;
    claims = prefer_rows (map (own_claim d.id) (select has_text d.claims)) d.claims;
    evidence = map (own_evidence d.id) d.evidence;
    relationships = map (own_relationship d.workspace_id d.id) d.relationships;
  }

module _ {A : Type 0} (f : A → A) where
  -- Rows for every element take the place of the column.
  prefer_rows-map : (xs : List A) → prefer_rows (map f xs) xs ≡ map f xs
  prefer_rows-map [] = refl
  prefer_rows-map (x ∷ xs) = refl

module _ {F G : Type 0} (d : Decision F) (s t : Db F G) (saved : Saved d s t) where
  own_alternatives : list_alternatives t d.id ≡ alternative_rows d
  unfolding list_alternatives alternative_rows
  own_alternatives =
      replace_rows-owned_by (λ a. a.decision_id) d.id _ _ _ _ saved.children.alternatives
        (owned-map (λ a. a.decision_id) d.id (own_alternative d.id) (λ a. refl) d.alternatives)

  own_claims : list_claims t d.id ≡ claim_rows d
  unfolding list_claims claim_rows
  own_claims =
      replace_rows-owned_by (λ c. c.decision_id) d.id _ _ _ _ saved.children.claims
        (owned-map (λ c. c.decision_id) d.id (own_claim d.id) (λ c. refl)
          (select has_text d.claims))

  own_evidences : list_evidence t d.id ≡ evidence_rows d
  unfolding list_evidence evidence_rows
  own_evidences =
      replace_rows-owned_by (λ e. e.decision_id) d.id _ _ _ _ saved.children.evidence
        (owned-map (λ e. e.decision_id) d.id (own_evidence d.id) (λ e. refl) d.evidence)

  own_relationships : list_relationships t d.id ≡ relationship_rows d
  unfolding list_relationships relationship_rows
  own_relationships =
      replace_rows-owned_by (λ r. r.from_decision_id) d.id _ _ _ _ saved.children.relationships
        (owned-map (λ r. r.from_decision_id) d.id (own_relationship d.workspace_id d.id) (λ r. refl)
          d.relationships)

  module _ (id : String) (other : id ≢ d.id) where
    other_alternatives : list_alternatives t id ≡ list_alternatives s id
    unfolding list_alternatives alternative_rows
    other_alternatives =
        replace_rows-other (λ a. a.decision_id) d.id _ _ _ _ saved.children.alternatives
          (owned-map (λ a. a.decision_id) d.id (own_alternative d.id) (λ a. refl) d.alternatives) id
          other

    other_claims : list_claims t id ≡ list_claims s id
    unfolding list_claims claim_rows
    other_claims =
        replace_rows-other (λ c. c.decision_id) d.id _ _ _ _ saved.children.claims
          (owned-map (λ c. c.decision_id) d.id (own_claim d.id) (λ c. refl)
            (select has_text d.claims))
          id other

    other_evidences : list_evidence t id ≡ list_evidence s id
    unfolding list_evidence evidence_rows
    other_evidences =
        replace_rows-other (λ e. e.decision_id) d.id _ _ _ _ saved.children.evidence
          (owned-map (λ e. e.decision_id) d.id (own_evidence d.id) (λ e. refl) d.evidence) id other

    other_relationships : list_relationships t id ≡ list_relationships s id
    unfolding list_relationships relationship_rows
    other_relationships =
        replace_rows-other (λ r. r.from_decision_id) d.id _ _ _ _ saved.children.relationships
          (owned-map (λ r. r.from_decision_id) d.id (own_relationship d.workspace_id d.id)
            (λ r. refl) d.relationships)
          id other

  load-other :
      (x : Decision F)
      → x.id ≢ d.id
      → load_decision_children t (scan_decision x) ≡ load_decision_children s (scan_decision x)
  unfolding load_decision_children scan_decision
  load-other x n =
      rw
        (
          other_alternatives x.id n,
          other_claims x.id n,
          other_evidences x.id n,
          other_relationships x.id n,
        )
        refl

  load-own :
      (r : Decision F)
      → r.id ≡ d.id
      → r.alternatives ≡ d.alternatives
      → r.claims ≡ d.claims
      → r.evidence ≡ d.evidence
      → r.relationships ≡ d.relationships
      → load_decision_children t r ≡ stored_children d r
  unfolding load_decision_children alternative_rows claim_rows evidence_rows relationship_rows
  load-own r i a c e l =
      rw (i, own_alternatives, own_claims, own_evidences, own_relationships, a, c, e, l)
        (rw
          (
            alternative_rows,
            evidence_rows,
            relationship_rows,
            prefer_rows-map (own_alternative d.id) d.alternatives,
            prefer_rows-map (own_evidence d.id) d.evidence,
            prefer_rows-map (own_relationship d.workspace_id d.id) d.relationships,
          )
          refl)

  first-other :
      (id : String)
      → id ≢ d.id
      → id ≢ d.supersedes_id
      → first (with_key (λ r. r.id) id) t.decisions ≡ first (with_key (λ r. r.id) id) s.decisions
  unfolding superseded_by close_decision decision_row
  first-other id n m = rw (Saved-decisions d s t saved) (
      first-append-other (with_key (λ r. r.id) id) (closed_rows d s) (decision_row s.now d)
        (ground (arith, eq_iff d.id id))
      ∙ elim (Bool-cases (d.supersedes_id == "")) [
        | inl none_named ↦ rw none_named refl
        | inr named ↦ rw named (
            first-update-other (with_key (λ r. r.id) id) (superseded_by d) (close_decision s.now d)
              s.decisions (λ x. refl)
              (λ x e. ground (arith, eq_iff x.id id, eq_iff x.id d.supersedes_id)))
      ])

  find-other :
      (id : String) → id ≢ d.id → id ≢ d.supersedes_id → find_decision id t ≡ find_decision id s
  unfolding find_decision
  find-other id n m =
      rw (first-other id n m) (elim (Option-cases (first (with_key (λ r. r.id) id) s.decisions)) [
        | inl missing ↦ rw missing refl
        | inr (x, found) ↦
            let holds = first-holds (with_key (λ r. r.id) id) s.decisions x found in
            rw found (ap ok (load-other x (ground (arith, eq_iff x.id id))))
      ])

  find-own : find_decision d.id t ≡ ok (stored_children d (scan_decision (decision_row s.now d)))
  unfolding find_decision scan_decision decision_row
  find-own = rw (Saved-decisions d s t saved) (
      rw
        (first-append (with_key (λ r. r.id) d.id) (closed_rows d s) (decision_row s.now d)
          saved.fresh (ground (arith, eq_iff d.id d.id)))
        (ap ok (load-own (scan_decision (decision_row s.now d)) refl refl refl refl refl)))

-- An end that was written reads as it was written.
read_end :
    (now : Time) (o : Option Time)
    → elim (nullable_time now o) [ none ↦ none | some t ↦ if eqb t 0 then none else some t ]
      ≡ nullable_time now o
unfolding nullable_time format_time
read_end now none = refl
read_end now (some t) = elim (Bool-cases (eqb t 0)) [
  | inl is ↦ rw is refl
  | inr not_ ↦ rw not_ (rw not_ refl)
]

module _ {F : Type 0} where
  read_row :
      (now : Time) (r : Decision F)
      → eqb r.valid_from 0 ≡ false
      → eqb r.transaction_time 0 ≡ false
      → eqb r.created_at 0 ≡ false
      → eqb r.updated_at 0 ≡ false
      → scan_decision (decision_row now r) ≡ record r { valid_to = nullable_time now r.valid_to }
  unfolding scan_decision decision_row format_time
  read_row now r v x c u = rw (v, x, c, u) (rw (v, x) (rw (read_end now r.valid_to) refl))

  -- Every time of a decision is set once it has its defaults, if the clock shows a time.
  scan_decision-decision_row :
      (now : Time) (given : Decision F)
      → now ≢ 0
      → let d = default_status (default_decision_times now given) in
        scan_decision (decision_row now d) ≡ record d { valid_to = nullable_time now d.valid_to }
  unfolding scan_decision decision_row default_status default_decision_times format_time
      nullable_time
  scan_decision-decision_row now given set =
      read_row now (default_status (default_decision_times now given)) (ground arith) (ground arith)
        (ground arith) (ground arith)

module _ {F G : Type 0} ⦃fl : Float64 F⦄ where
  -- After a decision was saved, with a clock that shows a time, every decision other than it and the
  -- one it supersedes reads as before, and it reads as it was given with its defaults set, an unset
  -- end left out. Each of its alternatives, pieces of evidence and relationships names it. So does
  -- each of its claims, and those without a text are left out; but where no claim has a text, all of
  -- them read just as they were given.
  pub save_decision-find_decision :
      (given : Decision F) (s t : Db F G)
      → save_decision given s ≡ (ok tt, t)
      → s.now ≢ 0
      → let d = with_defaults s.now given in
        (find_decision given.id t
          ≡ ok (stored_children d (record d { valid_to = nullable_time s.now d.valid_to })))
        × ((id : String)
            → id ≢ given.id
            → id ≢ given.supersedes_id
            → find_decision id t ≡ find_decision id s)
  unfolding with_defaults default_status default_decision_times
  save_decision-find_decision given s t h set =
      let (ready, saved) = save_decision-Saved given s tt t h in
      let d = with_defaults s.now given in
      (
        find-own d s t saved
            ∙ ap (λ r. ok (stored_children d r)) (scan_decision-decision_row s.now given set),
        find-other d s t saved,
      )
