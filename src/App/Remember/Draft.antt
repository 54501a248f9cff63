-- ===== src/App/Remember/Draft.antt =====
-- The decision that `Remember` builds from its input: internal/app/service.go.
use tuskbase.Common.{
  String, Bool, false, not, ◌==◌, ◌&&◌, ◌||◌, List, [], ◌∷◌, ◌++◌, eqb, if◌then◌else◌, trim_space,
  none, Float64, same, hundredths,
}
use tuskbase.Domain.Parse.{DecisionStatus, RelationshipType, supersedes}
use tuskbase.Domain.Types.{
  Time, Metadata, Actor, Alternative, Claim, Evidence, DecisionRelationship, Decision,
}
use tuskbase.App.Completeness.{score_completeness}

pub record RememberInput (F : Type 0) : Type 0 where
  pub workspace_id : String
  pub actor : Actor
  pub type : String
  pub title : String
  pub outcome : String
  pub rationale : String
  pub confidence : F
  pub status : DecisionStatus
  pub valid_from : Time
  pub alternatives : List Alternative
  pub claims : List Claim
  pub evidence : List Evidence
  pub relationships : List (DecisionRelationship F)
  pub precedent_ref : String
  pub supersedes_id : String
  pub metadata : Metadata

-- A loop that rewrites each element in order, with a call of the generator where it needs one.
unfoldable pub stamp_all : {A S : Type 0} → (A → S → A × S) → List A → S → List A × S
stamp_all stamp [] s = ([], s)
stamp_all stamp (x ∷ xs) s =
    let (y, t) = stamp x s in let (ys, u) = stamp_all stamp xs t in (y ∷ ys, u)

module _ {S : Type 0} (ids : S → String × S) where
  -- A new identifier where there is none.
  unfoldable pub fill_id : String → S → String × S
  fill_id id s = if id == "" then ids s else (id, s)

  unfoldable pub stamp_alternative : String → Alternative → S → Alternative × S
  unfolding fill_id
  stamp_alternative decision_id a s =
      let (id, t) = fill_id a.id s in
      (
        record {
          id = id;
          decision_id = decision_id;
          title = trim_space a.title;
          outcome = trim_space a.outcome;
          reason = trim_space a.reason;
        },
        t,
      )

  unfoldable pub stamp_claim : String → Claim → S → Claim × S
  unfolding fill_id
  stamp_claim decision_id c s =
      let (id, t) = fill_id c.id s in
      (record { id = id; decision_id = decision_id; text = trim_space c.text }, t)

  unfoldable pub stamp_evidence : String → Evidence → S → Evidence × S
  unfolding fill_id
  stamp_evidence decision_id e s =
      let (id, t) = fill_id e.id s in
      (
        record {
          id = id;
          decision_id = decision_id;
          kind = trim_space e.kind;
          uri = trim_space e.uri;
          title = trim_space e.title;
          snippet = trim_space e.snippet;
          metadata = e.metadata;
        },
        t,
      )

module _ {F : Type 0} where
  unfoldable pub has_relationship : List (DecisionRelationship F) → String → RelationshipType → Bool
  has_relationship [] to type = false
  has_relationship (r ∷ rs) to type =
      (r.to_decision_id == to && r.type == type) || has_relationship rs to type

module _ {F : Type 0} ⦃fl : Float64 F⦄ where
  -- The fields of the decision that need no generator but for its own identifier.
  unfoldable pub draft : String → Actor → DecisionStatus → Time → RememberInput F → Decision F
  draft id actor status now input = record {
    id = id;
    workspace_id = trim_space input.workspace_id;
    actor = actor;
    type = trim_space input.type;
    title = trim_space input.title;
    outcome = trim_space input.outcome;
    rationale = trim_space input.rationale;
    confidence = if same input.confidence (hundredths 0) then hundredths 70 else input.confidence;
    status = status;
    valid_from = if eqb input.valid_from 0 then now else input.valid_from;
    valid_to = none;
    transaction_time = now;
    alternatives = input.alternatives;
    claims = input.claims;
    evidence = input.evidence;
    relationships = [];
    precedent_ref = trim_space input.precedent_ref;
    supersedes_id = trim_space input.supersedes_id;
    completeness_score = hundredths 0;
    metadata = input.metadata;
    created_at = now;
    updated_at = now;
  }

module _ {F S : Type 0} ⦃fl : Float64 F⦄ (ids : S → String × S) where
  unfoldable pub stamp_relationship :
      Decision F → DecisionRelationship F → S → DecisionRelationship F × S
  unfolding fill_id
  stamp_relationship d r s =
      let (id, t) = fill_id ids r.id s in
      (
        record r {
          id = id;
          workspace_id = d.workspace_id;
          from_decision_id = d.id;
          confidence = if same r.confidence (hundredths 0) then hundredths 75 else r.confidence;
          reason = trim_space r.reason;
        },
        t,
      )

  abbrev pub supersedes_link : Decision F → String → DecisionRelationship F
  supersedes_link d id = record {
    id = id;
    workspace_id = d.workspace_id;
    from_decision_id = d.id;
    to_decision_id = d.supersedes_id;
    type = supersedes;
    confidence = hundredths 100;
    reason = "Supersedes prior active decision.";
  }

  unfoldable pub normalize_remember_relationships :
      Decision F → List (DecisionRelationship F) → S → List (DecisionRelationship F) × S
  unfolding stamp_relationship stamp_all has_relationship
  normalize_remember_relationships d input s =
      let (relationships, t) = stamp_all (stamp_relationship d) input s in
      if not (d.supersedes_id == "")
        && not (has_relationship relationships d.supersedes_id supersedes)
      then (relationships ++ supersedes_link d (ids t).0 ∷ [], (ids t).1)
      else (relationships, t)

  -- The rest: identifiers and trimmed texts below the decision, its relationships and its score,
  -- with the warnings about its quality.
  unfoldable pub complete_draft :
      Decision F → List (DecisionRelationship F) → S → (Decision F × List String) × S
  unfolding stamp_all stamp_alternative stamp_claim stamp_evidence normalize_remember_relationships
      score_completeness
  complete_draft d input s =
      let (alternatives, s1) = stamp_all (stamp_alternative ids d.id) d.alternatives s in
      let (claims, s2) = stamp_all (stamp_claim ids d.id) d.claims s1 in
      let (evidence, s3) = stamp_all (stamp_evidence ids d.id) d.evidence s2 in
      let d1 : Decision F = record d {
        alternatives = alternatives;
        claims = claims;
        evidence = evidence;
      } in
      let (relationships, s4) = normalize_remember_relationships d1 input s3 in
      let d2 : Decision F = record d1 { relationships = relationships } in
      let (score, warnings) = score_completeness d2 in
      ((record d2 { completeness_score = score }, warnings), s4)
