-- ===== src/App/Lookup/Candidates.antt =====
-- The decisions that a proposal is compared with: internal/app/workflows.go.
use tuskbase.Common.{
  ℕ, ◌≤◌, ◌<◌, String, Bool, ◌≡◌, refl, true, false, inl, inr, arith, ◌&&◌, ◌==◌, eq_iff, leb,
  Bool-cases, List, [], ◌∷◌, ◌++◌, All, length, length-append, mem_text, ok, bind-eq-ok, pure-eq-ok,
}
use mathlib.Core.Path.{subst}
use tuskbase.Domain.Types.{Decision, is_active}
use tuskbase.Ports.{SearchResult}
use tuskbase.App.Service.{Service, default_limit, bounded_limit, is_decision_bound_result}
use tuskbase.App.Service.Limits.{limits}
use tuskbase.App.Lookup.{
  Found, append_if, mark, add_recent, add_results, fill_recent, decisions_for_results,
}

module _ {F : Type 0} where
  -- An active decision of the workspace.
  abbrev pub Serves : String → Decision F → Type 0
  Serves w d = (d.workspace_id ≡ w) × (is_active d ≡ true)

  -- Below the limit, and only what serves the workspace.
  abbrev pub IsGood : String → ℕ → List (Decision F) → Type 0
  IsGood w limit ds = (length ds ≤ limit) × All (Serves w) ds

  All-concat :
      (P : Decision F → Type 0) (ds : List (Decision F)) (d : Decision F)
      → All P ds
      → P d
      → All P (ds ++ d ∷ [])
  All-concat P [] d h k = (k, tt)
  All-concat P (x ∷ xs) d (h, hs) k = (h, All-concat P xs d hs k)

  append_if-IsGood :
      (w : String) (limit : ℕ) (test : Bool) (d : Decision F) (found : Found F)
      → length found.decisions < limit
      → (test ≡ true → Serves w d)
      → All (Serves w) found.decisions
      → IsGood w limit (append_if test d found).decisions
  append_if-IsGood w limit true d found room good h = (
    omega (arith, length-append found.decisions (d ∷ [])),
    All-concat (Serves w) _ d h (good refl),
  )
  append_if-IsGood w limit false d found room good h = (omega arith, h)

  add_recent-IsGood :
      (w : String) (limit : ℕ) (ds : List (Decision F)) (found : Found F)
      → All (λ d. d.workspace_id ≡ w) ds
      → length found.decisions < limit
      → All (Serves w) found.decisions
      → IsGood w limit (add_recent limit ds found).decisions
  unfolding add_recent
  add_recent-IsGood w limit [] found own room h = (omega arith, h)
  add_recent-IsGood w limit (d ∷ ds) found (o, own) room h =
      let next = append_if (is_active d) d (mark d.id found) in
      let good : IsGood w limit next.decisions =
        append_if-IsGood w limit (is_active d) d (mark d.id found) room (λ a. (o, a)) h in
      elim (Bool-cases (mem_text d.id found.seen)) [
        | inl old ↦ rw old (add_recent-IsGood w limit ds found own room h)
        | inr new ↦ elim (Bool-cases (leb limit (length next.decisions))) [
          | inl full ↦ rw (new, full) good
          | inr more ↦ rw (new, more) (add_recent-IsGood w limit ds next own (ground arith) good.1)
        ]
      ]

module _ {F S : Type 0} (svc : Service F S) where
  -- A store lists recent decisions of the workspace that it was asked about, and no others.
  abbrev pub RecentAreOwn : Type 0
  RecentAreOwn =
      (w : String) (n : ℕ) (s t : S) (ds : List (Decision F))
      → svc.store.recent_decisions w n s ≡ (ok ds, t)
      → All (λ (d : Decision F). d.workspace_id ≡ w) ds

  module _ (w : String) (limit : ℕ) where
    abbrev next_found : SearchResult F → Found F → Decision F → Found F
    next_found r found d = append_if (d.workspace_id == w && is_active d) d (mark r.entity_id found)

    next_found-IsGood :
        (r : SearchResult F) (found : Found F) (d : Decision F)
        → length found.decisions < limit
        → All (Serves w) found.decisions
        → IsGood w limit (next_found r found d).decisions
    next_found-IsGood r found d room h =
        append_if-IsGood w limit (d.workspace_id == w && is_active d) d (mark r.entity_id found)
          room (λ q. ground (arith, eq_iff d.workspace_id w)) h

    add_results-IsGood :
        (rs : List (SearchResult F)) (found : Found F) (s : S) (end : Found F) (t : S)
        → add_results svc w limit rs found s ≡ (ok end, t)
        → length found.decisions < limit
        → All (Serves w) found.decisions
        → IsGood w limit end.decisions
    unfolding add_results
    add_results-IsGood [] found s end t e room h =
        let (same, _) = pure-eq-ok found end s t e in
        subst (λ (x : Found F). IsGood w limit x.decisions) same (omega arith, h)
    add_results-IsGood (r ∷ rs) found s end t e room h =
        elim (Bool-cases (is_decision_bound_result r.kind)) [
          | inr other ↦ add_results-IsGood rs found s end t (rw other at e) room h
          | inl bound ↦ elim (Bool-cases (mem_text r.entity_id found.seen)) [
            | inl old ↦ add_results-IsGood rs found s end t (rw (bound, old) at e) room h
            | inr new ↦
                let (d, u, _, rest) =
                  bind-eq-ok (svc.store.get_decision r.entity_id) _ s end t
                    (rw (bound, new) at e) in
                let next = next_found r found d in
                let good = next_found-IsGood r found d room h in
                elim (Bool-cases (leb limit (length next.decisions))) [
                  | inl full ↦
                      let (same, _) = pure-eq-ok next end u t (rw full at rest) in
                      subst (λ (x : Found F). IsGood w limit x.decisions) same good
                  | inr more ↦
                      add_results-IsGood rs next u end t (rw more at rest) (ground arith) good.1
                ]
          ]
        ]

  -- The decisions that a proposal is compared with are at most the bounded limit, active, and of the
  -- workspace, where the store lists recent decisions by workspace.
  pub decisions_for_results-IsGood :
      (w : String) (results : List (SearchResult F)) (limit : ℕ) (s : S) (ds : List (Decision F))
      (t : S)
      → RecentAreOwn
      → decisions_for_results svc w results limit s ≡ (ok ds, t)
      → IsGood w (bounded_limit limit default_limit) ds
  unfolding decisions_for_results fill_recent
  decisions_for_results-IsGood w results limit s ds t own e =
      let n = bounded_limit limit default_limit in
      let start : Found F = record { seen = []; decisions = [] } in
      let (found, u, collected, rest) = bind-eq-ok (add_results svc w n results start) _ s ds t e in
      let good =
        add_results-IsGood w n results start s found u collected
          (limits limit default_limit (omega arith)).3 tt in
      elim (Bool-cases (leb n (length found.decisions))) [
        | inl full ↦ subst (IsGood w n) (pure-eq-ok found.decisions ds u t (rw full at rest)).0 good
        | inr room ↦
            let (recents, v, listed, last) =
              bind-eq-ok (svc.store.recent_decisions w n) _ u ds t (rw room at rest) in
            subst (IsGood w n) (pure-eq-ok (add_recent n recents found).decisions ds v t last).0 (
              add_recent-IsGood w n recents found (own w n u v recents listed) (ground arith)
                good.1)
      ]
