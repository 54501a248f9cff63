-- ===== src/Search/Hybrid/Fallback.antt =====
-- The text index and the vector side of `HybridIndex` in internal/search/hybrid.go.
use tuskbase.Common.{
  ◌≡◌, refl, ◌⊎◌, inl, inr, false, Option, none, some, List, Error, Result, ok, err, is_blank,
  Bool-cases, continue,
}
use tuskbase.Domain.Types.{Decision}
use tuskbase.Ports.{VectorStore, EmbeddingProvider, SearchQuery, SearchResult}
use tuskbase.Search.Merge.{merge}
use tuskbase.Search.Hybrid.{
  HybridIndex, merge_found, search_embedded, search_with, hybrid_search, index_decision,
}

after_text :
    {S : Type 0} (r : Result (Unit {0})) (g : S → S) (s : S)
    → (continue r (λ _ t. (ok tt, g t)) s).0 ≡ r
after_text (ok a) g s = refl
after_text (err e) g s = refl

module _ {F S V : Type 0} where
  -- The vector side found `found` for the query: both parts are there, and neither failed.
  pub record Semantic (vectors : Option (VectorStore F S V))
      (embeddings : Option (EmbeddingProvider S V)) (q : SearchQuery) (s : S)
      (found : List (SearchResult F)) : Type 0 where
    pub store : VectorStore F S V
    pub embed : EmbeddingProvider S V
    pub vector : V
    pub middle : S
    pub final : S
    pub has_store : vectors ≡ some store
    pub has_embed : embeddings ≡ some embed
    pub asked : is_blank q.query ≡ false
    pub embedded : embed q.query s ≡ (ok vector, middle)
    pub searched :
        store.search_vector
          (record { workspace_id = q.workspace_id; vector = vector; limit = q.limit })
          middle
        ≡ (ok found, final)

  -- The answer is the text results, or their merge with what the vector side found.
  abbrev pub TextOrMerged :
      Option (VectorStore F S V)
      → Option (EmbeddingProvider S V)
      → SearchQuery
      → S
      → List (SearchResult F)
      → Result (List (SearchResult F))
      → Type 0
  TextOrMerged vectors embeddings q s rs answer =
      (answer ≡ ok rs)
      ⊎ ((found : List (SearchResult F)) × Semantic vectors embeddings q s found
          × (answer ≡ ok (merge rs found q.limit)))

  module _ (store : VectorStore F S V) (embed : EmbeddingProvider S V) (q : SearchQuery) where
    searched_cases :
        (rs : List (SearchResult F)) (s : S) (v : V) (t : S)
        (r : Result (List (SearchResult F)) × S)
        → is_blank q.query ≡ false
        → embed q.query s ≡ (ok v, t)
        → store.search_vector
            (record { workspace_id = q.workspace_id; vector = v; limit = q.limit })
            t
          ≡ r
        → TextOrMerged (some store) (some embed) q s rs (ok (merge_found rs q r.0))
    unfolding merge_found
    searched_cases rs s v t (err e, u) nb he hv = inl refl
    searched_cases rs s v t (ok found, u) nb he hv = inr (
      found,
      record {
        store = store;
        embed = embed;
        vector = v;
        middle = t;
        final = u;
        has_store = refl;
        has_embed = refl;
        asked = nb;
        embedded = he;
        searched = hv;
      },
      refl,
    )

    embedded_cases :
        (rs : List (SearchResult F)) (s : S) (r : Result V × S)
        → is_blank q.query ≡ false
        → embed q.query s ≡ r
        → TextOrMerged (some store) (some embed) q s rs (search_embedded store rs q r).0
    unfolding search_embedded
    embedded_cases rs s (err e, t) nb h = inl refl
    embedded_cases rs s (ok v, t) nb h = searched_cases rs s v t _ nb h refl

  search_with-cases :
      (vectors : Option (VectorStore F S V)) (embeddings : Option (EmbeddingProvider S V))
      (q : SearchQuery) (rs : List (SearchResult F)) (s : S)
      → TextOrMerged vectors embeddings q s rs (search_with vectors embeddings q rs s).0
  unfolding search_with
  search_with-cases none embeddings q rs s = inl refl
  search_with-cases (some store) none q rs s = inl refl
  search_with-cases (some store) (some embed) q rs s = elim (Bool-cases (is_blank q.query)) [
    | inl blank ↦ rw blank (inl refl)
    | inr asked ↦ rw asked (embedded_cases store embed q rs s _ asked refl)
  ]

  -- Hybrid search answers whenever text search does: with the text results, or with their merge with
  -- what the vector side found where it is configured, the query is not blank and nothing failed
  -- there. Where text search fails, so does hybrid search, and with its error.
  pub hybrid_search-answers :
      (h : HybridIndex F S V) (q : SearchQuery) (s : S)
      → ((rs : List (SearchResult F)) (t : S)
          → h.text.search q s ≡ (ok rs, t)
          → TextOrMerged h.vectors h.embeddings q t rs (hybrid_search h q s).0)
        × ((e : Error) (t : S) → h.text.search q s ≡ (err e, t) → hybrid_search h q s ≡ (err e, t))
  unfolding hybrid_search
  hybrid_search-answers h q s =
      (λ rs t p. rw p (search_with-cases h.vectors h.embeddings q rs t), λ e t p. rw p refl)

  -- Indexing a decision fails exactly as its text index does; vectors only change the state.
  pub index_decision-text :
      (h : HybridIndex F S V) (d : Decision F) (s : S)
      → (index_decision h d s).0 ≡ (h.text.index_decision d s).0
  unfolding index_decision
  index_decision-text h d s = after_text (h.text.index_decision d s).0 _ _
