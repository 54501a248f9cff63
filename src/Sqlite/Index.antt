-- ===== src/Sqlite/Index.antt =====
-- The full-text index of internal/adapters/sqlite/store.go.
use tuskbase.Common.{
  String, Bool, not, ◌&&◌, ◌||◌, ◌==◌, leb, if◌then◌else◌, is_blank, trim_space, join, List, [],
  ◌∷◌, ◌++◌, take, select, map, Result, ok, Exec, pure, ◌>>◌, Float64, lt, neg, sort_stable,
}
use tuskbase.Domain.Types.{RepoDocument, Alternative, Claim, Evidence, Decision, is_active}
use tuskbase.Ports.{SearchQuery, SearchResult}
use tuskbase.Sqlite.Tables.{
  Db, Engine, IndexRow, VectorRow, reading, statement, has_active_decision,
}
use tuskbase.Sqlite.Tokens.{fts_query}

-- `kind IN ('decision', 'claim', 'evidence', 'alternative')`
unfoldable pub decision_kind : String → Bool
decision_kind kind =
    kind == "decision" || kind == "claim" || kind == "evidence" || kind == "alternative"

unfoldable pub index_of : String → String → IndexRow → Bool
unfolding decision_kind
index_of workspace_id id r =
    r.workspace_id == workspace_id && r.entity_id == id && decision_kind r.kind

unfoldable pub vectors_of : {G : Type 0} → String → String → VectorRow G → Bool
unfolding decision_kind
vectors_of workspace_id id r =
    r.workspace_id == workspace_id && r.entity_id == id && decision_kind r.kind

module _ {F : Type 0} where
  abbrev pub index_row : Decision F → String → String → String → IndexRow
  index_row d kind path body = record {
    workspace_id = d.workspace_id;
    kind = kind;
    entity_id = d.id;
    title = d.title;
    path = path;
    body = body;
  }

  -- The loop over the alternatives; one without a text is left out.
  unfoldable pub alternative_index : Decision F → List Alternative → List IndexRow
  alternative_index d [] = []
  alternative_index d (a ∷ rows) =
      let rest = alternative_index d rows in
      let text = trim_space (join (a.title ∷ a.outcome ∷ a.reason ∷ []) "\n") in
      if text == "" then rest else index_row d "alternative" "" text ∷ rest

  unfoldable pub claim_index : Decision F → List Claim → List IndexRow
  claim_index d [] = []
  claim_index d (c ∷ cs) =
      let rest = claim_index d cs in
      if is_blank c.text then rest else index_row d "claim" "" c.text ∷ rest

  unfoldable pub evidence_index : Decision F → List Evidence → List IndexRow
  evidence_index d [] = []
  evidence_index d (e ∷ es) =
      let rest = evidence_index d es in
      let text = trim_space (join (e.kind ∷ e.uri ∷ e.title ∷ e.snippet ∷ []) "\n") in
      if text == "" then rest else index_row d "evidence" e.uri text ∷ rest

  -- The rows that are inserted, in their order.
  unfoldable pub decision_index : Decision F → List IndexRow
  unfolding alternative_index claim_index evidence_index join
  decision_index d =
      index_row d "decision" "" (
        join (d.type ∷ d.title ∷ d.outcome ∷ d.rationale ∷ d.precedent_ref ∷ d.supersedes_id ∷ [])
          "\n")
      ∷ (alternative_index d d.alternatives
          ++ (claim_index d d.claims ++ evidence_index d d.evidence))

unfoldable pub document_index : RepoDocument → IndexRow
document_index doc = record {
  workspace_id = doc.workspace_id;
  kind = "document";
  entity_id = doc.id;
  title = doc.title;
  path = doc.path;
  body = doc.content;
}

module _ {F G : Type 0} where
  unfoldable pub delete_index : Decision F → Db F G → Result (Db F G)
  unfolding index_of
  delete_index d db = ok (record db {
    search_index = select (λ r. not (index_of d.workspace_id d.id r)) db.search_index;
  })

  unfoldable pub delete_vectors : Decision F → Db F G → Result (Db F G)
  unfolding vectors_of
  delete_vectors d db = ok (record db {
    vector_index = select (λ r. not (vectors_of d.workspace_id d.id r)) db.vector_index;
  })

  unfoldable pub insert_index : List IndexRow → Db F G → Result (Db F G)
  insert_index rows db = ok (record db { search_index = db.search_index ++ rows })

  unfoldable pub index_decision : Decision F → Exec (Db F G) (Unit {0})
  unfolding delete_index delete_vectors insert_index decision_index is_active
  index_decision d =
      if not (is_active d)
      then pure tt
      else (statement (delete_index d)
          >> statement (delete_vectors d)
          >> statement (insert_index (decision_index d)))

  unfoldable pub index_document : RepoDocument → Exec (Db F G) (Unit {0})
  unfolding insert_index document_index
  index_document doc = statement (insert_index (document_index doc ∷ []))

  -- `kind = 'document' OR EXISTS (…)`
  unfoldable pub is_searchable : Db F G → String → String → String → Bool
  unfolding has_active_decision
  is_searchable db kind entity_id workspace_id =
      kind == "document" || has_active_decision db entity_id workspace_id

  module _ (engine : Engine F G) ⦃fl : Float64 F⦄ where
    unfoldable pub matching_row : Db F G → String → String → IndexRow → Bool
    unfolding is_searchable
    matching_row db match workspace_id r =
        engine.matches match r
        && r.workspace_id == workspace_id
        && is_searchable db r.kind r.entity_id r.workspace_id

    -- A row of the result with its rank; the score is the rank turned round.
    unfoldable pub text_result : Db F G → String → IndexRow → SearchResult F
    text_result db match r = record {
      kind = r.kind;
      entity_id = r.entity_id;
      workspace_id = r.workspace_id;
      title = r.title;
      path = r.path;
      snippet = engine.snippet match r;
      score = neg (engine.bm25 match db.search_index r);
    }

    unfoldable pub rank_before : Db F G → String → IndexRow → IndexRow → Bool
    rank_before db match r s =
        lt (engine.bm25 match db.search_index r) (engine.bm25 match db.search_index s)

    unfoldable pub find_text : SearchQuery → Db F G → List (SearchResult F)
    unfolding matching_row text_result rank_before sort_stable fts_query
    find_text q db =
        let match = fts_query q.query in
        if match == ""
        then []
        else map (text_result db match) (
            take (if leb q.limit 0 then 10 else q.limit) (
              sort_stable (rank_before db match)
                (select (matching_row db match q.workspace_id) db.search_index)))

    unfoldable pub search : SearchQuery → Exec (Db F G) (List (SearchResult F))
    unfolding find_text
    search q = reading (λ db. ok (find_text q db))
