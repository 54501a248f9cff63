-- ===== src/Sqlite/Children.antt =====
-- The tables below `decisions`: `replaceDecisionChildren` and `loadDecisionChildren` of
-- internal/adapters/sqlite/store.go.
pub mod Replaced
use tuskbase.Common.{
  String, Bool, not, ◌&&◌, ◌==◌, List, [], ◌∷◌, map, select, if◌then◌else◌, is_blank, Result, ok,
  err, fail_if,
}
use tuskbase.Domain.Types.{Alternative, Claim, Evidence, DecisionRelationship, Decision}
use tuskbase.Sqlite.Tables.{Db, insert_all, with_key, map_result, then_result}

abbrev pub owned_by : {A : Type 0} → (A → String) → String → List A → List A
owned_by owner id = select (with_key owner id)

abbrev pub disowned_by : {A : Type 0} → (A → String) → String → List A → List A
disowned_by owner id = select (λ x. not (owner x == id))

abbrev pub own_alternative : String → Alternative → Alternative
own_alternative id a = record a { decision_id = id }

abbrev pub own_claim : String → Claim → Claim
own_claim id c = record c { decision_id = id }

abbrev pub own_evidence : String → Evidence → Evidence
own_evidence id e = record e { decision_id = id }

abbrev pub has_text : Claim → Bool
has_text c = not (is_blank c.text)

module _ {F : Type 0} where
  abbrev pub own_relationship : String → String → DecisionRelationship F → DecisionRelationship F
  own_relationship w id r = record r { workspace_id = w; from_decision_id = id }

  unfoldable pub alternative_rows : Decision F → List Alternative
  alternative_rows d = map (own_alternative d.id) d.alternatives

  -- A claim without a text gets no row.
  unfoldable pub claim_rows : Decision F → List Claim
  claim_rows d = map (own_claim d.id) (select has_text d.claims)

  unfoldable pub evidence_rows : Decision F → List Evidence
  evidence_rows d = map (own_evidence d.id) d.evidence

  unfoldable pub relationship_rows : Decision F → List (DecisionRelationship F)
  relationship_rows d = map (own_relationship d.workspace_id d.id) d.relationships

-- The `DELETE` of the rows of a decision and the `INSERT`s of its new ones.
unfoldable pub replace_rows :
    {A : Type 0} → (A → String) → (A → String) → String → List A → List A → Result (List A)
unfolding insert_all
replace_rows key owner id new table = insert_all key new (disowned_by owner id table)

-- A list that is not empty takes the place of the one in the JSON column.
abbrev pub prefer_rows : {A : Type 0} → List A → List A → List A
prefer_rows [] column = column
prefer_rows (x ∷ xs) column = x ∷ xs

module _ {F G : Type 0} where
  unfoldable pub replace_decision_children : Decision F → Db F G → Result (Db F G)
  unfolding replace_rows alternative_rows claim_rows evidence_rows relationship_rows
  replace_decision_children d db =
      then_result
        (replace_rows (λ a. a.id) (λ a. a.decision_id) d.id (alternative_rows d)
          db.decision_alternatives)
        (λ alternatives.
          then_result
            (replace_rows (λ c. c.id) (λ c. c.decision_id) d.id (claim_rows d) db.decision_claims)
            (λ claims.
              then_result
                (replace_rows (λ e. e.id) (λ e. e.decision_id) d.id (evidence_rows d)
                  db.decision_evidence)
                (λ evidence.
                  map_result
                    (λ relationships. record db {
                      decision_alternatives = alternatives;
                      decision_claims = claims;
                      decision_evidence = evidence;
                      decision_relationships = relationships;
                    })
                    (replace_rows (λ r. r.id) (λ r. r.from_decision_id) d.id (relationship_rows d)
                      db.decision_relationships))))

  -- The lists of `listAlternatives`, `listClaims`, `listEvidence` and `listRelationships`.
  unfoldable pub list_alternatives : Db F G → String → List Alternative
  list_alternatives db id = owned_by (λ a. a.decision_id) id db.decision_alternatives

  unfoldable pub list_claims : Db F G → String → List Claim
  list_claims db id = owned_by (λ c. c.decision_id) id db.decision_claims

  unfoldable pub list_evidence : Db F G → String → List Evidence
  list_evidence db id = owned_by (λ e. e.decision_id) id db.decision_evidence

  unfoldable pub list_relationships : Db F G → String → List (DecisionRelationship F)
  list_relationships db id = owned_by (λ r. r.from_decision_id) id db.decision_relationships

  unfoldable pub load_decision_children : Db F G → Decision F → Decision F
  unfolding list_alternatives list_claims list_evidence list_relationships
  load_decision_children db d = record d {
    alternatives = prefer_rows (list_alternatives db d.id) d.alternatives;
    claims = prefer_rows (list_claims db d.id) d.claims;
    evidence = prefer_rows (list_evidence db d.id) d.evidence;
    relationships = prefer_rows (list_relationships db d.id) d.relationships;
  }
