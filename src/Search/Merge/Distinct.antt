-- ===== src/Search/Merge/Distinct.antt =====
-- `merge` of internal/search/hybrid.go: the number of its results and their keys.
use tuskbase.Common.{
  ℕ, zero, suc, ◌≤◌, ◌≡◌, String, false, arith, List, [], ◌∷◌, length, take, mem_text, length-take,
}
use tuskbase.Ports.{SearchResult}
use tuskbase.Search.Merge.{effective_limit, result_key, merge}
use tuskbase.Search.Merge.Reference.{fresh_from, merge-fresh}

module _ {F : Type 0} where
  -- No key is among `seen` nor that of an earlier result.
  abbrev pub NoRepeats : List String → List (SearchResult F) → Type 0
  NoRepeats seen [] = Unit
  NoRepeats seen (r ∷ rs) =
      (mem_text (result_key r) seen ≡ false) × NoRepeats (result_key r ∷ seen) rs

  fresh_from-NoRepeats :
      (seen : List String) (rs : List (SearchResult F)) → NoRepeats seen (fresh_from seen rs)
  unfolding fresh_from
  fresh_from-NoRepeats seen [] = tt
  fresh_from-NoRepeats seen (r ∷ rs) =
      ground (arith, fresh_from-NoRepeats seen rs, fresh_from-NoRepeats (result_key r ∷ seen) rs)

  take-NoRepeats :
      (n : ℕ) (seen : List String) (rs : List (SearchResult F))
      → NoRepeats seen rs
      → NoRepeats seen (take n rs)
  take-NoRepeats zero seen rs h = tt
  take-NoRepeats (suc n) seen [] h = tt
  take-NoRepeats (suc n) seen (r ∷ rs) (k, h) = (k, take-NoRepeats n (result_key r ∷ seen) rs h)

  -- A merge returns at most the limit, which is 10 where none is given, and no two results with one
  -- key.
  pub merge-NoRepeats :
      (text_results vector_results : List (SearchResult F)) (limit : ℕ)
      → (length (merge text_results vector_results limit) ≤ effective_limit limit)
        × NoRepeats [] (merge text_results vector_results limit)
  merge-NoRepeats ts vs limit = rw merge-fresh (
    length-take (effective_limit limit) _,
    take-NoRepeats (effective_limit limit) [] _ (fresh_from-NoRepeats [] _),
  )
