-- ===== src/App/Remember/Indexing.antt =====
-- `Remember` of internal/app/service.go when the index fails.
use tuskbase.Common.{◌≡◌, refl, Error, Result, ok, err, error_text, Float64}
use tuskbase.App.Auth.{Context}
use tuskbase.App.Service.{Service}
use tuskbase.App.Remember.Draft.{RememberInput}
use tuskbase.App.Remember.{
  RememberOutput, retried, index_again, index_remembered, store_decision, remember,
}

module _ {F S : Type 0} ⦃fl : Float64 F⦄ (svc : Service F S) where
  -- The output of a decision that was stored: as it was, if one of two attempts to index it
  -- succeeded; else with the status `error` and the text of the second failure.
  pub data Indexed (out : RememberOutput F) (t : S) : RememberOutput F → S → Type 0 where
    at_once : (u : S) → svc.search.index_decision out.decision t ≡ (ok tt, u) → Indexed out t out u
    at_second :
        (e : Error) (u v : S)
        → svc.search.index_decision out.decision t ≡ (err e, u)
        → svc.search.index_decision out.decision u ≡ (ok tt, v)
        → Indexed out t out v
    never :
        (e e' : Error) (u v : S)
        → svc.search.index_decision out.decision t ≡ (err e, u)
        → svc.search.index_decision out.decision u ≡ (err e', v)
        → Indexed out t (record out { indexing_status = "error"; indexing_error = error_text e' }) v

  second-Indexed :
      (out : RememberOutput F) (t u : S) (e : Error) (r : Result (Unit {0}) × S)
      → svc.search.index_decision out.decision t ≡ (err e, u)
      → svc.search.index_decision out.decision u ≡ r
      → Indexed out t (retried svc out r.0) r.1
  unfolding retried
  second-Indexed out t u e (ok a, v) h k = at_second e u v h k
  second-Indexed out t u e (err e', v) h k = never e e' u v h k

  first-Indexed :
      (out : RememberOutput F) (t : S) (r : Result (Unit {0}) × S)
      → svc.search.index_decision out.decision t ≡ r
      → let (out', u) = index_again svc out.decision out r.0 r.1 in Indexed out t out' u
  unfolding index_again
  first-Indexed out t (ok a, u) h = at_once u h
  first-Indexed out t (err e, u) h = second-Indexed out t u e _ h refl

  Indexed-decision :
      {out out' : RememberOutput F} {t u : S} → Indexed out t out' u → out'.decision ≡ out.decision
  Indexed-decision (at_once u h) = refl
  Indexed-decision (at_second e u v h k) = refl
  Indexed-decision (never e e' u v h k) = refl

  -- Once a decision is stored, `Remember` succeeds with it whatever the index does; and where
  -- storing fails, it fails with that error and does not index.
  pub remember-Indexed :
      (ctx : Context) (input : RememberInput F) (s : S)
      → ((out : RememberOutput F) (t : S)
          → store_decision svc ctx input s ≡ (ok out, t)
          → (out' : RememberOutput F) × (u : S) × (remember svc ctx input s ≡ (ok out', u))
            × (out'.decision ≡ out.decision)
            × Indexed out t out' u)
        × ((e : Error) (t : S)
            → store_decision svc ctx input s ≡ (err e, t)
            → remember svc ctx input s ≡ (err e, t))
  unfolding remember
  remember-Indexed ctx input s = (
    λ out t h. rw h (
        let r = svc.search.index_decision out.decision t in
        (
          (index_again svc out.decision out r.0 r.1).0,
          (index_again svc out.decision out r.0 r.1).1,
          unfold index_remembered in refl,
          Indexed-decision (first-Indexed out t r refl),
          first-Indexed out t r refl,
        )),
    λ e t h. rw h refl,
  )
