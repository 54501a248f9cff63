-- ===== src/Search/Merge/Reference.antt =====
-- `merge` against its reference: the first results of the list without repeated keys.
use tuskbase.Common.{
  ℕ, zero, suc, ◌≤◌, ◌≡◌, refl, sym, ap, ◌∙◌, leb, String, true, false, arith, List, [], ◌∷◌, ◌++◌,
  length, take, mem_text, if◌then◌else◌, length-append, Bool-cases, inl, inr,
}
use mathlib.Core.List.{append_assoc, append-nil}
use tuskbase.Ports.{SearchResult}
use tuskbase.Search.Merge.{effective_limit, result_key, Merged, add_result, add_results, merge}

module _ {A : Type 0} where
  take_all : (n : ℕ) (xs : List A) → length xs ≤ n → take n xs ≡ xs
  take_all zero [] h = refl
  take_all zero (x ∷ xs) h = absurd (omega arith)
  take_all (suc n) [] h = refl
  take_all (suc n) (x ∷ xs) h = rw (take_all n xs (omega arith))

  take_exact : (n : ℕ) (xs ys : List A) → length xs ≡ n → take n (xs ++ ys) ≡ xs
  take_exact zero [] ys h = refl
  take_exact zero (x ∷ xs) ys h = absurd (omega arith)
  take_exact (suc n) [] ys h = absurd (omega arith)
  take_exact (suc n) (x ∷ xs) ys h = rw (take_exact n xs ys (omega arith))

module _ {F : Type 0} where
  abbrev push : Merged F → SearchResult F → Merged F
  push m r = record { out = m.out ++ r ∷ []; seen = result_key r ∷ m.seen }

  push-length :
      (limit : ℕ) (m : Merged F) (r : SearchResult F)
      → leb limit (length m.out) ≡ false
      → length (push m r).out ≤ limit
  push-length limit m r h = ground (arith, length-append m.out (r ∷ []))

  add_result-full :
      (limit : ℕ) (m : Merged F) (r : SearchResult F)
      → leb limit (length m.out) ≡ true
      → add_result limit m r ≡ m
  unfolding add_result
  add_result-full limit m r h = rw h

  add_result-old :
      (limit : ℕ) (m : Merged F) (r : SearchResult F)
      → mem_text (result_key r) m.seen ≡ true
      → add_result limit m r ≡ m
  unfolding add_result
  add_result-old limit m r h = ground arith

  add_result-new :
      (limit : ℕ) (m : Merged F) (r : SearchResult F)
      → leb limit (length m.out) ≡ false
      → mem_text (result_key r) m.seen ≡ false
      → add_result limit m r ≡ push m r
  unfolding add_result
  add_result-new limit m r h k = rw (h, k)

  -- The results whose key is not among `seen` nor that of an earlier one.
  unfoldable pub fresh_from : List String → List (SearchResult F) → List (SearchResult F)
  fresh_from seen [] = []
  fresh_from seen (r ∷ rs) =
      let skipped = fresh_from seen rs in
      let taken = r ∷ fresh_from (result_key r ∷ seen) rs in
      if mem_text (result_key r) seen then skipped else taken

  fresh_from-old :
      (seen : List String) (r : SearchResult F) (rs : List (SearchResult F))
      → mem_text (result_key r) seen ≡ true
      → fresh_from seen (r ∷ rs) ≡ fresh_from seen rs
  unfolding fresh_from
  fresh_from-old seen r rs h = rw h

  fresh_from-new :
      (seen : List String) (r : SearchResult F) (rs : List (SearchResult F))
      → mem_text (result_key r) seen ≡ false
      → fresh_from seen (r ∷ rs) ≡ r ∷ fresh_from (result_key r ∷ seen) rs
  unfolding fresh_from
  fresh_from-new seen r rs h = rw h

  add_results-cons :
      (limit : ℕ) (m n : Merged F) (r : SearchResult F) (rs : List (SearchResult F))
      → add_result limit m r ≡ n
      → (add_results limit m (r ∷ rs)).out ≡ (add_results limit n rs).out
  unfolding add_results
  add_results-cons limit m n r rs e = ap (λ (x : Merged F). (add_results limit x rs).out) e

  add_results-out :
      (limit : ℕ) (m : Merged F) (rs : List (SearchResult F))
      → length m.out ≤ limit
      → (add_results limit m rs).out ≡ take limit (m.out ++ fresh_from m.seen rs)
  add_results-out limit m [] h =
      unfold add_results fresh_from in rw append-nil (sym (take_all limit m.out h))
  add_results-out limit m (r ∷ rs) h = elim (Bool-cases (leb limit (length m.out))) [
    | inl full ↦
        add_results-cons limit m m r rs (add_result-full limit m r full)
        ∙ add_results-out limit m rs h
        ∙ take_exact limit m.out _ (ground arith)
        ∙ sym (take_exact limit m.out _ (ground arith))
    | inr room ↦ elim (Bool-cases (mem_text (result_key r) m.seen)) [
      | inl old ↦
          add_results-cons limit m m r rs (add_result-old limit m r old)
          ∙ add_results-out limit m rs h
          ∙ ap (λ xs. take limit (m.out ++ xs)) (sym (fresh_from-old m.seen r rs old))
      | inr new ↦
          add_results-cons limit m (push m r) r rs (add_result-new limit m r room new)
          ∙ add_results-out limit (push m r) rs (push-length limit m r room)
          ∙ ap (take limit) (append_assoc m.out (r ∷ []) _)
          ∙ ap (λ xs. take limit (m.out ++ xs)) (sym (fresh_from-new m.seen r rs new))
    ]
  ]

  add_results-append :
      (limit : ℕ) (m : Merged F) (xs ys : List (SearchResult F))
      → add_results limit m (xs ++ ys) ≡ add_results limit (add_results limit m xs) ys
  unfolding add_results
  add_results-append limit m [] ys = refl
  add_results-append limit m (x ∷ xs) ys = add_results-append limit (add_result limit m x) xs ys

  -- Merging is the reference: of the semantic results followed by the text results, those whose key
  -- did not come before, cut at the limit, which is 10 where none is given.
  pub merge-fresh :
      (text_results vector_results : List (SearchResult F)) (limit : ℕ)
      → merge text_results vector_results limit
        ≡ take (effective_limit limit) (fresh_from [] (vector_results ++ text_results))
  unfolding merge
  merge-fresh ts vs limit =
      let n = effective_limit limit in
      let start : Merged F = record { out = []; seen = [] } in
      ap (λ (m : Merged F). m.out) (sym (add_results-append n start vs ts))
      ∙ add_results-out n start (vs ++ ts) (omega arith)
