-- ===== src/App/Import/Outcomes.antt =====
-- What the acceptance of a candidate comes to in internal/app/importer.go.
use mathlib.Core.Path.{subst}
use tuskbase.Common.{
  String, ◌==◌, Bool-cases, trim_space, ok, pure-eq-ok, bind-eq-ok, lift-eq-ok, ◌≡◌, ◌⊎◌, inl, inr,
  refl, eq_iff, Float64,
}
use tuskbase.Domain.Parse.{candidate_pending, candidate_accepted}
use tuskbase.Domain.Types.{DecisionCandidate}
use tuskbase.App.Auth.{Context, require_write}
use tuskbase.App.Service.{Service}
use tuskbase.App.Remember.{RememberOutput, remember}
use tuskbase.App.Import.Extract.{Importing}
use tuskbase.App.Import.Candidates.{
  ImportAcceptOutput, accepted_input, already_accepted, newly_accepted,
}
use tuskbase.App.Import.Review.{accept_pending, accept_candidate, import_accept}

module _ {F S : Type 0} ⦃fl : Float64 F⦄ (svc : Service F S) (files : Importing) where
  -- The candidate had been accepted, and its decision is read.
  abbrev pub Repeated : DecisionCandidate F → ImportAcceptOutput F → S → S → Type 0
  Repeated c out s t =
      (c.status ≡ candidate_accepted)
      × (out.candidate ≡ c)
      × (svc.store.get_decision c.accepted_decision_id s ≡ (ok out.decision, t))

  -- The candidate was pending; its decision is remembered, and the candidate is marked with it.
  abbrev pub Remembered : Context → DecisionCandidate F → ImportAcceptOutput F → S → S → Type 0
  Remembered ctx c out s t =
      (c.status ≡ candidate_pending)
      × (kept : RememberOutput F) × (u : S) × (remember svc ctx (accepted_input files c) s
          ≡ (ok kept, u))
      × (out.decision ≡ kept.decision)
      × (svc.store.update_decision_candidate_status
            (record {
              id = c.id;
              workspace_id = c.workspace_id;
              status = candidate_accepted;
              accepted_decision_id = out.decision.id;
              rejection_summary = "";
              updated_at = (svc.clock u).0;
            })
            (svc.clock u).1
          ≡ (ok out.candidate, t))

  accept_pending-Remembered :
      (ctx : Context) (c : DecisionCandidate F) (out : ImportAcceptOutput F) (s t : S)
      → c.status ≡ candidate_pending
      → accept_pending svc files ctx c s ≡ (ok out, t)
      → Remembered ctx c out s t
  unfolding accept_pending newly_accepted
  accept_pending-Remembered ctx c out s t pending h =
      let (kept, u, stored, h1) =
        bind-eq-ok (remember svc ctx (accepted_input files c)) _ s out t h in
      let mark = svc.store.update_decision_candidate_status (record {
        id = c.id;
        workspace_id = c.workspace_id;
        status = candidate_accepted;
        accepted_decision_id = kept.decision.id;
        rejection_summary = "";
        updated_at = (svc.clock u).0;
      }) in
      let (marked, v, done, h2) = bind-eq-ok mark _ (svc.clock u).1 out t h1 in
      let (same, end) = pure-eq-ok (newly_accepted marked kept) out v t h2 in
      subst (λ o. Remembered ctx c o s t) same
        (
          pending,
          kept,
          u,
          stored,
          refl,
          subst (λ w. mark (svc.clock u).1 ≡ (ok marked, w)) end done,
        )

  accept_candidate-cases :
      (ctx : Context) (c : DecisionCandidate F) (out : ImportAcceptOutput F) (s t : S)
      → accept_candidate svc files ctx c s ≡ (ok out, t)
      → Repeated c out s t ⊎ Remembered ctx c out s t
  unfolding accept_candidate already_accepted
  accept_candidate-cases ctx c out s t h = elim (Bool-cases (c.status == candidate_accepted)) [
    | inl again ↦
        let g = rw again at h in
        let (d, u, read, h1) =
          bind-eq-ok (svc.store.get_decision c.accepted_decision_id) _ s out t g in
        let (same, end) = pure-eq-ok (already_accepted c d) out u t h1 in
        inl (
          subst (λ o. Repeated c o s t) same
            (
              (eq_iff c.status candidate_accepted).0 again,
              refl,
              subst (λ w. svc.store.get_decision c.accepted_decision_id s ≡ (ok d, w)) end read,
            ))
    | inr fresh ↦
        let g = rw fresh at h in
        elim (Bool-cases (c.status == candidate_pending)) [
          | inl pending ↦ inr (
              accept_pending-Remembered ctx c out s t
                ((eq_iff c.status candidate_pending).0 pending) (rw pending at g))
          | inr other ↦ let bad = rw other at g in cc
        ]
  ]

  -- An accepted import reads the candidate of the identifier without surrounding space. Either that
  -- candidate was accepted before, it is returned with the decision that it names, and nothing else
  -- is called; or it was pending, a decision was remembered from it, and the candidate is marked as
  -- accepted with the identifier of that decision. A candidate of any other status is not accepted.
  pub import_accept-cases :
      (ctx : Context) (id : String) (out : ImportAcceptOutput F) (s t : S)
      → import_accept svc files ctx id s ≡ (ok out, t)
      → (c : DecisionCandidate F) × (u : S) × (svc.store.get_decision_candidate (trim_space id) s
          ≡ (ok c, u))
        × (Repeated c out u t ⊎ Remembered ctx c out u t)
  unfolding import_accept
  import_accept-cases ctx id out s t h =
      let (_, _, h1) = lift-eq-ok (require_write ctx) _ s out t h in
      let (c, u, read, h2) =
        bind-eq-ok (svc.store.get_decision_candidate (trim_space id)) _ s out t h1 in
      (c, u, read, accept_candidate-cases ctx c out u t h2)
