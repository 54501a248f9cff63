-- ===== src/Search/Hybrid.antt =====
-- `HybridIndex` of internal/search/hybrid.go. Logging is left out. `V` stands for `[]float32`.
pub mod Fallback
use tuskbase.Common.{
  String, ◌==◌, Option, none, some, List, [], ◌∷◌, ◌++◌, Result, ok, err, Exec, ◌>>=◌, ◌>>◌,
  if◌then◌else◌, is_blank, trim_space, join,
}
use tuskbase.Domain.Types.{RepoDocument, Claim, Evidence, Alternative, Decision, is_active}
use tuskbase.Ports.{
  SearchIndex, VectorStore, EmbeddingProvider, SearchQuery, SearchResult, VectorRecord,
}
use tuskbase.Search.Merge.{merge}

pub record HybridIndex (F S V : Type 0) : Type 0 where
  pub text : SearchIndex F S
  pub vectors : Option (VectorStore F S V)
  pub embeddings : Option (EmbeddingProvider S V)

module _ {F V : Type 0} where
  record_of : Decision F → String → String → String → VectorRecord V
  record_of d kind path text = record {
    workspace_id = d.workspace_id;
    kind = kind;
    entity_id = d.id;
    title = d.title;
    path = path;
    text = text;
    vector = none;
  }

  claim_records : Decision F → List Claim → List (VectorRecord V)
  claim_records d [] = []
  claim_records d (c ∷ cs) =
      let rest = claim_records d cs in
      if is_blank c.text then rest else record_of d "claim" "" c.text ∷ rest

  evidence_records : Decision F → List Evidence → List (VectorRecord V)
  evidence_records d [] = []
  evidence_records d (e ∷ es) =
      let rest = evidence_records d es in
      let text = trim_space (join (e.kind ∷ e.uri ∷ e.title ∷ e.snippet ∷ []) "\n") in
      if text == "" then rest else record_of d "evidence" e.uri text ∷ rest

  alternative_records : Decision F → List Alternative → List (VectorRecord V)
  alternative_records d [] = []
  alternative_records d (a ∷ as_) =
      let rest = alternative_records d as_ in
      let text = trim_space (join (a.title ∷ a.outcome ∷ a.reason ∷ []) "\n") in
      if text == "" then rest else record_of d "alternative" "" text ∷ rest

  unfoldable pub decision_records : Decision F → List (VectorRecord V)
  unfolding record_of claim_records evidence_records alternative_records
  decision_records d =
      record_of d "decision" "" (
        join (d.type ∷ d.title ∷ d.outcome ∷ d.rationale ∷ d.precedent_ref ∷ d.supersedes_id ∷ [])
          "\n")
      ∷ (claim_records d d.claims
          ++ (evidence_records d d.evidence ++ alternative_records d d.alternatives))

module _ {F : Type 0} where
  -- What a failing vector search leaves: the text results.
  merge_found :
      List (SearchResult F) → SearchQuery → Result (List (SearchResult F)) → List (SearchResult F)
  merge_found text_results q (err e) = text_results
  merge_found text_results q (ok vector_results) = merge text_results vector_results q.limit

module _ {F S V : Type 0} where
  -- Errors of the vector side are logged and dropped.
  upsert_embedded : VectorStore F S V → VectorRecord V → Result V × S → S
  upsert_embedded vectors r (err e, s) = s
  upsert_embedded vectors r (ok v, s) = (vectors.upsert_vector (record r { vector = some v }) s).1

  index_with : Option (VectorStore F S V) → Option (EmbeddingProvider S V) → VectorRecord V → S → S
  index_with (some vectors) (some embed) r s = upsert_embedded vectors r (embed r.text s)
  index_with none embed r s = s
  index_with (some vectors) none r s = s

  unfoldable pub index_vector : HybridIndex F S V → VectorRecord V → S → S
  unfolding index_with upsert_embedded
  index_vector h r s = if is_blank r.text then s else index_with h.vectors h.embeddings r s

  unfoldable pub index_vectors : HybridIndex F S V → List (VectorRecord V) → S → S
  index_vectors h [] s = s
  index_vectors h (r ∷ rs) s = index_vectors h rs (index_vector h r s)

  unfoldable pub index_decision : HybridIndex F S V → Decision F → Exec S (Unit {0})
  unfolding index_vectors
  index_decision h d = do
    h.text.index_decision d
    λ s. (ok tt, if is_active d then index_vectors h (decision_records d) s else s)

  unfoldable pub index_document : HybridIndex F S V → RepoDocument → Exec S (Unit {0})
  unfolding index_vector
  index_document h doc = do
    h.text.index_document doc
    λ s. (
      ok tt,
      index_vector h
          (record {
            workspace_id = doc.workspace_id;
            kind = "document";
            entity_id = doc.id;
            title = doc.title;
            path = doc.path;
            text = doc.content;
            vector = none;
          })
          s,
    )

  search_embedded :
      VectorStore F S V
      → List (SearchResult F)
      → SearchQuery
      → Result V × S
      → Result (List (SearchResult F)) × S
  search_embedded vectors text_results q (err e, s) = (ok text_results, s)
  search_embedded vectors text_results q (ok v, s) =
      let (found, t) =
        vectors.search_vector
          (record { workspace_id = q.workspace_id; vector = v; limit = q.limit }) s in
      (ok (merge_found text_results q found), t)

  search_with :
      Option (VectorStore F S V)
      → Option (EmbeddingProvider S V)
      → SearchQuery
      → List (SearchResult F)
      → Exec S (List (SearchResult F))
  search_with (some vectors) (some embed) q text_results s =
      if is_blank q.query
      then (ok text_results, s)
      else search_embedded vectors text_results q (embed q.query s)
  search_with none embed q text_results s = (ok text_results, s)
  search_with (some vectors) none q text_results s = (ok text_results, s)

  unfoldable pub hybrid_search : HybridIndex F S V → SearchQuery → Exec S (List (SearchResult F))
  unfolding search_with search_embedded merge_found
  hybrid_search h q = do
    text_results ← h.text.search q
    search_with h.vectors h.embeddings q text_results

  hybrid_index : HybridIndex F S V → SearchIndex F S
  unfolding index_decision index_document hybrid_search
  hybrid_index h = record {
    index_decision = index_decision h;
    index_document = index_document h;
    search = hybrid_search h;
  }

  -- The plain text index until both vector storage and embeddings are there.
  unfoldable pub new_hybrid_index :
      SearchIndex F S
      → Option (VectorStore F S V)
      → Option (EmbeddingProvider S V)
      → SearchIndex F S
  unfolding hybrid_index
  new_hybrid_index text (some vectors) (some embed) =
      hybrid_index (record { text = text; vectors = some vectors; embeddings = some embed })
  new_hybrid_index text none embed = text
  new_hybrid_index text (some vectors) none = text
