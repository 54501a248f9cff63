-- ===== src/Examples/Search.antt =====
-- Merged and hybrid searches.
use tuskbase.Common.{ℕ, ◌≡◌, some, List, [], ◌∷◌, ok, err, take, Error}
use tuskbase.Examples.World.{hundredth_float, World, hit, world_search}
use tuskbase.Search.Merge.{merge, effective_limit}
use tuskbase.Search.Merge.Reference.{fresh_from, merge-fresh}
use tuskbase.Search.Hybrid.{HybridIndex, hybrid_search}
use tuskbase.Search.Hybrid.Fallback.{TextOrMerged, hybrid_search-answers}
use tuskbase.Ports.{SearchQuery, SearchResult}

merge-fresh_example :
    merge (hit ∷ []) (hit ∷ []) 0 ≡ take (effective_limit 0) (fresh_from [] (hit ∷ hit ∷ []))
merge-fresh_example = merge-fresh (hit ∷ []) (hit ∷ []) 0

abbrev hybrid : HybridIndex ℕ World ℕ
hybrid = record {
  text = world_search;
  vectors =
      some
        (record { upsert_vector = λ r s. (ok tt, s); search_vector = λ q s. (ok (hit ∷ []), s) });
  embeddings = some (λ text s. (ok 1, s));
}

abbrev search_text : SearchQuery
search_text = record { workspace_id = "w"; query = "kafka"; limit = 0 }

hybrid_search-answers_example :
    ((rs : List (SearchResult ℕ)) (t : World)
      → hybrid.text.search search_text [] ≡ (ok rs, t)
      → TextOrMerged hybrid.vectors hybrid.embeddings search_text t rs
          (hybrid_search hybrid search_text []).0)
    × ((e : Error) (t : World)
        → hybrid.text.search search_text [] ≡ (err e, t)
        → hybrid_search hybrid search_text [] ≡ (err e, t))
hybrid_search-answers_example = hybrid_search-answers hybrid search_text []
