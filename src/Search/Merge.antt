-- ===== src/Search/Merge.antt =====
-- `merge` of internal/search/hybrid.go: semantic results first, then text results, each entity once.
pub mod Reference
pub mod Distinct
use tuskbase.Common.{
  ℕ, String, List, [], ◌∷◌, ◌++◌, length, leb, mem_text, if◌then◌else◌, ◌⧺◌, nul_text,
}
use tuskbase.Ports.{SearchResult}

-- `limit <= 0` gives 10.
unfoldable pub effective_limit : ℕ → ℕ
effective_limit limit = if leb limit 0 then 10 else limit

-- The variables of the loop: `out` and `seen`.
pub record Merged (F : Type 0) : Type 0 where
  pub out : List (SearchResult F)
  pub seen : List String

module _ {F : Type 0} where
  unfoldable pub result_key : SearchResult F → String
  result_key r = r.kind ⧺ nul_text ⧺ r.entity_id ⧺ nul_text ⧺ r.path

  unfoldable pub add_result : ℕ → Merged F → SearchResult F → Merged F
  unfolding result_key
  add_result limit m r =
      if leb limit (length m.out)
      then m
      else if mem_text (result_key r) m.seen
      then m
      else record { out = m.out ++ r ∷ []; seen = result_key r ∷ m.seen }

  unfoldable pub add_results : ℕ → Merged F → List (SearchResult F) → Merged F
  add_results limit m [] = m
  add_results limit m (r ∷ rs) = add_results limit (add_result limit m r) rs

  unfoldable pub merge : List (SearchResult F) → List (SearchResult F) → ℕ → List (SearchResult F)
  unfolding effective_limit add_result add_results
  merge text_results vector_results limit =
      let n = effective_limit limit in
      let first = add_results n (record { out = []; seen = [] }) vector_results in
      (add_results n first text_results).out
