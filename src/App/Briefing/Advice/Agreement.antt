-- ===== src/App/Briefing/Advice/Agreement.antt =====
-- The states of a briefing next to its actions: internal/app/service.go.
use tuskbase.Common.{
  ℕ, Bool, true, false, ◌≡◌, ◌+◌, ltb, refl, inl, inr, arith, Bool-cases, eqb, if◌then◌else◌, List,
  [], ◌∷◌, length, length-append, any, count_if, Float64,
}
use tuskbase.App.Briefing.Advice.{
  when, is_thin, has_low_completeness, context_degraded_states, context_recommended_next_actions,
}

any-count_if : {A : Type 0} (p : A → Bool) (xs : List A) → any p xs ≡ ltb 0 (count_if p xs)
any-count_if p [] = refl
any-count_if p (x ∷ xs) = elim (Bool-cases (p x)) [
  | inl is ↦ rw is (ground arith)
  | inr not_ ↦ rw not_ (ground (arith, any-count_if p xs))
]

length-when : {A : Type 0} (test : Bool) (a : A) → length (when test a) ≡ (if test then 1 else 0)
length-when true a = refl
length-when false a = refl

module _ {F : Type 0} ⦃fl : Float64 F⦄ where
  -- A briefing recommends three actions more than it reports degraded states, or two more where there
  -- are no active decisions.
  pub advice-states :
      (docs : ℕ) (scores : List F) (conflicts : ℕ)
      → length (context_recommended_next_actions docs scores conflicts)
          + (if eqb (length scores) 0 then 1 else 0)
        ≡ 3 + length (context_degraded_states docs scores conflicts)
  unfolding context_recommended_next_actions context_degraded_states has_low_completeness
  advice-states docs scores conflicts =
      rw (any-count_if is_thin scores) (simp (length-append, length-when) (ground arith))
