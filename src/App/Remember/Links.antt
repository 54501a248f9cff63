-- ===== src/App/Remember/Links.antt =====
-- The relationships of a remembered decision: internal/app/service.go.
use tuskbase.Common.{
  String, ◌≡◌, ◌≢◌, refl, sym, ap, ◌∙◌, true, inl, inr, arith, eq_iff, ◌==◌, Bool-cases, List, [],
  ◌∷◌, ◌++◌, map, All, Float64, not, ◌&&◌, ◌||◌, if◌then◌else◌,
}
use mathlib.Core.Path.{ap₂}
use text.Mathlib.TextPositions.{eq_refl}
use mathlib.Core.List.{append-nil, map-append}
use tuskbase.Domain.Parse.{RelationshipType, supersedes}
use tuskbase.Domain.Types.{Decision, DecisionRelationship}
use tuskbase.App.Remember.Draft.{
  stamp_all, has_relationship, stamp_relationship, supersedes_link,
  normalize_remember_relationships,
}

module _ {A S : Type 0} (stamp : A → S → A × S) where
  stamp_all-All :
      (P : A → Type 0)
      → ((x : A) (s : S) → P (stamp x s).0)
      → (xs : List A) (s : S) → All P (stamp_all stamp xs s).0
  unfolding stamp_all
  stamp_all-All P h [] s = tt
  stamp_all-All P h (x ∷ xs) s = (h x s, stamp_all-All P h xs (stamp x s).1)

  stamp_all-map :
      {B : Type 0} (f : A → B)
      → ((x : A) (s : S) → f (stamp x s).0 ≡ f x)
      → (xs : List A) (s : S) → map f (stamp_all stamp xs s).0 ≡ map f xs
  unfolding stamp_all
  stamp_all-map f h [] s = refl
  stamp_all-map f h (x ∷ xs) s = ap₂ (λ y ys. y ∷ ys) (h x s) (stamp_all-map f h xs (stamp x s).1)

module _ {F : Type 0} where
  -- What a relationship says: its target and its type.
  abbrev pub target : DecisionRelationship F → String × RelationshipType
  target r = (r.to_decision_id, r.type)

  has_relationship-concat :
      (rs : List (DecisionRelationship F)) (r : DecisionRelationship F)
      → has_relationship (rs ++ r ∷ []) r.to_decision_id r.type ≡ true
  unfolding has_relationship
  has_relationship-concat [] r = rw (eq_refl r.to_decision_id, eq_refl r.type) refl
  has_relationship-concat (x ∷ xs) r = ground (arith, has_relationship-concat xs r)

  has_relationship-targets :
      (xs ys : List (DecisionRelationship F)) (to : String) (type : RelationshipType)
      → map target xs ≡ map target ys
      → has_relationship xs to type ≡ has_relationship ys to type
  unfolding has_relationship
  has_relationship-targets [] [] to type h = refl
  has_relationship-targets [] (y ∷ ys) to type h = cc
  has_relationship-targets (x ∷ xs) [] to type h = cc
  has_relationship-targets (x ∷ xs) (y ∷ ys) to type h =
      let to_same : x.to_decision_id ≡ y.to_decision_id = cc in
      let type_same : x.type ≡ y.type = cc in
      ap₂ (λ a b. a || b) (ap₂ (λ a b. a == to && b == type) to_same type_same)
        (has_relationship-targets xs ys to type (cc))

  -- The link that is added: the one that the decision's own field asks for, if none says it.
  abbrev pub added : Decision F → List (DecisionRelationship F) → List (String × RelationshipType)
  added d rs =
      if not (d.supersedes_id == "") && not (has_relationship rs d.supersedes_id supersedes)
      then (d.supersedes_id, supersedes) ∷ []
      else []

  -- A relationship of the decision, within its workspace.
  abbrev pub Owned : Decision F → DecisionRelationship F → Type 0
  Owned d r = (r.from_decision_id ≡ d.id) × (r.workspace_id ≡ d.workspace_id)

  All-concat :
      (d : Decision F) (rs : List (DecisionRelationship F)) (r : DecisionRelationship F)
      → All (Owned d) rs
      → Owned d r
      → All (Owned d) (rs ++ r ∷ [])
  All-concat d [] r h k = (k, tt)
  All-concat d (x ∷ xs) r (h, hs) k = (h, All-concat d xs r hs k)

module _ {F S : Type 0} ⦃fl : Float64 F⦄ (ids : S → String × S) where
  stamp_relationship-Owned :
      (d : Decision F) (r : DecisionRelationship F) (s : S)
      → Owned d (stamp_relationship ids d r s).0
  unfolding stamp_relationship
  stamp_relationship-Owned d r s = (refl, refl)

  stamp_relationship-target :
      (d : Decision F) (r : DecisionRelationship F) (s : S)
      → target (stamp_relationship ids d r s).0 ≡ target r
  unfolding stamp_relationship
  stamp_relationship-target d r s = refl

  -- The relationships that are stored belong to the decision and its workspace, and say in order
  -- what the input's say; where the decision supersedes another and no relationship says so, one
  -- that does follows them, so that the stored list always says it.
  pub normalize_remember_relationships-Owned :
      (d : Decision F) (input : List (DecisionRelationship F)) (s : S)
      → let rels = (normalize_remember_relationships ids d input s).0 in
        All (Owned d) rels
        × (map target rels ≡ map target input ++ added d input)
        × (d.supersedes_id ≢ "" → has_relationship rels d.supersedes_id supersedes ≡ true)
  unfolding normalize_remember_relationships
  normalize_remember_relationships-Owned d input s =
      let rels = (stamp_all (stamp_relationship ids d) input s).0 in
      let owned =
        stamp_all-All (stamp_relationship ids d) (Owned d) (stamp_relationship-Owned d) input s in
      let says =
        stamp_all-map (stamp_relationship ids d) target (stamp_relationship-target d) input s in
      let same = has_relationship-targets rels input d.supersedes_id supersedes says in
      rw same
        (elim (Bool-cases (
          not (d.supersedes_id == "") && not (has_relationship input d.supersedes_id supersedes))) [
            | inl missing ↦ rw missing (
              All-concat d rels _ owned (refl, refl),
              map-append target rels _ ∙ ap (λ l. l ++ (d.supersedes_id, supersedes) ∷ []) says,
              λ _. has_relationship-concat rels (supersedes_link ids d _),
            )
            | inr present ↦ rw present (
              owned,
              says ∙ sym (append-nil _),
              λ ne. same ∙ ground (arith, eq_iff d.supersedes_id ""),
            )
          ])
