-- ===== src/App/Workflows/Reconcile/Coverage.antt =====
-- The decisions of the conflicts that a reconciliation is given: internal/app/workflows.go.
use tuskbase.Common.{
  String, ◌≡◌, sym, true, arith, List, [], ◌∷◌, All, trim_space, mem_text, eq_iff, Float64, ◌⊎◌,
  inl, inr, Bool-cases, ◌==◌, text_eq,
}
use mathlib.Core.Path.{subst}
use tuskbase.App.Workflows.Reconcile.Targets.{keys, Kept, add_targets-Kept}
use tuskbase.Domain.Types.{Conflict}
use tuskbase.App.Workflows.Reconcile.{Links, target_key, add_target, add_targets}

-- An identifier is blank, or the decision that it names has a marked key.
abbrev pub Marked : List String → String → Type 0
Marked seen id = (trim_space id ≡ "") ⊎ (mem_text (target_key (trim_space id)) seen ≡ true)

Marked-grows :
    (id : String) (seen more : List String)
    → ((k : String) → mem_text k seen ≡ true → mem_text k more ≡ true)
    → Marked seen id
    → Marked more id
Marked-grows id seen more grows (inl blank) = inl blank
Marked-grows id seen more grows (inr known) = inr (grows (target_key (trim_space id)) known)

module _ {F : Type 0} ⦃fl : Float64 F⦄ where
  -- So for both sides of a conflict.
  abbrev pub Covers : List String → Conflict F → Type 0
  Covers seen c = Marked seen c.conflicting_with_id × Marked seen c.decision_id

  add_target-keeps :
      (k id : String) (links : Links F)
      → mem_text k links.seen ≡ true
      → mem_text k (add_target id links).seen ≡ true
  unfolding add_target mem_text
  add_target-keeps k id links h = ground (arith, h)

  add_target-Marked : (id : String) (links : Links F) → Marked (add_target id links).seen id
  unfolding add_target mem_text
  add_target-Marked id links = elim (Bool-cases (trim_space id == "")) [
    | inl is ↦ inl (text_eq (trim_space id) "" is)
    | inr not_ ↦
        inr (ground (arith, not_, eq_iff (target_key (trim_space id)) (target_key (trim_space id))))
  ]

  add_targets-keeps :
      (k : String) (cs : List (Conflict F)) (links : Links F)
      → mem_text k links.seen ≡ true
      → mem_text k (add_targets cs links).seen ≡ true
  unfolding add_targets
  add_targets-keeps k [] links h = h
  add_targets-keeps k (c ∷ cs) links h = add_targets-keeps k cs _ (
      add_target-keeps k c.decision_id (add_target c.conflicting_with_id links)
        (add_target-keeps k c.conflicting_with_id links h))

  add_targets-Covers :
      (cs : List (Conflict F)) (links : Links F) → All (Covers (add_targets cs links).seen) cs
  unfolding add_targets
  add_targets-Covers [] links = tt
  add_targets-Covers (c ∷ cs) links =
      let first = add_target c.conflicting_with_id links in
      let both = add_target c.decision_id first in
      let last = (add_targets cs both).seen in
      (
        (
          Marked-grows c.conflicting_with_id first.seen last
              (λ k h. add_targets-keeps k cs both (add_target-keeps k c.decision_id first h))
              (add_target-Marked c.conflicting_with_id links),
          Marked-grows c.decision_id both.seen last (λ k h. add_targets-keeps k cs both h)
              (add_target-Marked c.decision_id first),
        ),
        add_targets-Covers cs both,
      )

  -- Every decision that a conflict names, on either side, has the key of one of the relationships
  -- that a reconciliation collects from the conflicts, if the relationships that it started with were
  -- of type `reconciles`, each of a decision and no two with one key, and had the marked keys.
  pub relationships-Covers :
      (cs : List (Conflict F)) (links : Links F)
      → Kept links
      → All (Covers (keys (add_targets cs links).relationships [])) cs
  relationships-Covers cs links h =
      subst (λ seen. All (Covers seen) cs) (sym (add_targets-Kept cs links h).1)
        (add_targets-Covers cs links)
