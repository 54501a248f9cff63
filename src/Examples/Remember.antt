-- ===== src/Examples/Remember.antt =====
-- Runs of `Remember`.
use tuskbase.App.Remember.{
  relationship_reason, RememberOutput, open_conflict, save_conflicts, store_decision, remember,
}
use tuskbase.App.Service.{severity_for_confidence}
use tuskbase.Common.{
  is_blank, quote, to_lower, Result, ℕ, ◌≡◌, ◌≢◌, refl, [], ◌∷◌, ◌++◌, ok, err, true, All, Error,
  map,
}
use tuskbase.Domain.Parse.{
  parse_conflict_severity, parse_conflict_status, parse_decision_status, supersedes, conflicts,
}
use tuskbase.Domain.Validate.{validate_conflict}
use tuskbase.Examples.World.{hundredth_float, World, world, writer, outcome, agent, kafka}
use tuskbase.App.Remember.Draft.{RememberInput, has_relationship, normalize_remember_relationships}
use tuskbase.App.Remember.Stored.{Stored}
use tuskbase.App.Remember.Indexing.{Indexed, remember-Indexed}
use tuskbase.App.Remember.Links.{Owned, target, added, normalize_remember_relationships-Owned}
use tuskbase.Domain.Types.{DecisionRelationship, Conflict}

abbrev against : DecisionRelationship ℕ
against = record {
  id = "r1";
  workspace_id = "w";
  from_decision_id = "d2";
  to_decision_id = "d1";
  type = conflicts;
  confidence = 80;
  reason = "They differ.";
}

abbrev respelled : DecisionRelationship ℕ
respelled = record against { type = "Conflicts" }

abbrev input : RememberInput ℕ
input = record {
  workspace_id = "w";
  actor = agent;
  type = "architecture";
  title = " Drop Kafka ";
  outcome = "Drop Kafka";
  rationale = "";
  confidence = 80;
  status = "";
  valid_from = 0;
  alternatives = [];
  claims = [];
  evidence = [];
  relationships = against ∷ [];
  precedent_ref = "";
  supersedes_id = "d1";
  metadata = [];
}

abbrev stored : Result (RememberOutput ℕ) × World
stored = store_decision world writer input []

abbrev opened : Conflict ℕ
opened = open_conflict world 7 kafka against "id"

saved : save_conflicts world 7 kafka (against ∷ []) [] ≡ (ok tt, opened ∷ [])
unfolding is_blank parse_conflict_severity parse_conflict_status parse_decision_status quote
    relationship_reason save_conflicts severity_for_confidence to_lower validate_conflict
saved = refl

remember-Indexed_example :
    ((out : RememberOutput ℕ) (t : World)
      → store_decision world writer input [] ≡ (ok out, t)
      → (out' : RememberOutput ℕ) × (u : World) × (remember world writer input [] ≡ (ok out', u))
        × (out'.decision ≡ out.decision)
        × Indexed world out t out' u)
    × ((e : Error) (t : World)
        → store_decision world writer input [] ≡ (err e, t)
        → remember world writer input [] ≡ (err e, t))
remember-Indexed_example = remember-Indexed world writer input []

normalize_remember_relationships-Owned_example :
    let rels = (normalize_remember_relationships world.ids kafka (against ∷ []) []).0 in
    All (Owned kafka) rels
    × (map target rels ≡ map target (against ∷ []) ++ added kafka (against ∷ []))
    × (kafka.supersedes_id ≢ "" → has_relationship rels kafka.supersedes_id supersedes ≡ true)
normalize_remember_relationships-Owned_example =
    normalize_remember_relationships-Owned world.ids kafka (against ∷ []) []
