-- ===== src/App/Workflows/Finish/Outcomes.antt =====
-- What `FinishChange` records: internal/app/workflows.go.
use mathlib.Core.Path.{subst}
use tuskbase.Common.{
  String, ◌==◌, ◌≡◌, ◌≢◌, refl, sym, ap, ◌∙◌, ◌⊎◌, inl, inr, Bool-cases, Option, none, some, List,
  [], ◌∷◌, All, trim_space, text_eq, text_ne, ok, err, message, bind-eq-ok, lift-eq-ok, pure-eq-ok,
  Float64,
}
use tuskbase.App.Auth.{Context, require_read}
use tuskbase.App.Service.{Service}
use tuskbase.App.Lookup.{required}
use tuskbase.App.Remember.{RememberOutput, remember}
use tuskbase.App.Remember.Draft.{RememberInput}
use tuskbase.App.Workflows.Finish.{
  ChangedFileSummary, FinishChangeInput, FinishChangeOutput, normalize_changed_files,
  place_decision, remembered, finish_base, finish_with, finish_change,
}

-- A changed file that is reported has a path.
abbrev pub HasPath : ChangedFileSummary → Type 0
HasPath file = file.path ≢ ""

normalize_changed_files-HasPath :
    (files : List ChangedFileSummary) → All HasPath (normalize_changed_files files)
unfolding normalize_changed_files
normalize_changed_files-HasPath [] = tt
normalize_changed_files-HasPath (file ∷ files) = elim (Bool-cases (trim_space file.path == "")) [
  | inl is ↦ rw is (normalize_changed_files-HasPath files)
  | inr not_ ↦
      rw not_ (text_ne (trim_space file.path) "" not_, normalize_changed_files-HasPath files)
]

module _ {F : Type 0} where
  place_decision-placed :
      (w : String) (input placed : RememberInput F)
      → place_decision w input ≡ ok placed
      → (placed.workspace_id ≡ w) ⊎ (trim_space placed.workspace_id ≡ w)
  unfolding place_decision
  place_decision-placed w input placed e = elim (Bool-cases (trim_space input.workspace_id == "")) [
    | inl is ↦
        let g : ok (record input { workspace_id = w }) ≡ ok placed = rw is at e in
        let same : record input { workspace_id = w } ≡ placed = cc in
        inl (ap (λ x. x.workspace_id) (sym same))
    | inr not_ ↦ elim (Bool-cases (trim_space input.workspace_id == w)) [
      | inl own ↦
          let g : ok input ≡ ok placed = rw (not_, own) at e in
          let same : input ≡ placed = cc in
          inr (
            ap (λ x. trim_space x.workspace_id) (sym same)
            ∙ text_eq (trim_space input.workspace_id) w own)
      | inr other ↦
          let g : err (message "decision workspace_id does not match finish workspace_id")
              ≡ ok placed =
            rw (not_, other) at e in
          cc
    ]
  ]

  abbrev pub Skipped : FinishChangeInput F → FinishChangeOutput F → Type 0
  Skipped input out = (input.decision ≡ none) × (out.decision ≡ none) × (out.status ≡ "skipped")

module _ {F S : Type 0} ⦃fl : Float64 F⦄ (svc : Service F S) where
  -- The decision was remembered from an input that names the workspace of the change.
  abbrev pub Remembers : Context → FinishChangeInput F → FinishChangeOutput F → S → Type 0
  Remembers ctx input out t =
      (placed : RememberInput F) × (kept : RememberOutput F) × (u : S) × (remember svc ctx placed u
        ≡ (ok kept, t))
      × ((placed.workspace_id ≡ trim_space input.workspace_id)
          ⊎ (trim_space placed.workspace_id ≡ trim_space input.workspace_id))
      × (out.decision ≡ some kept.decision)
      × (out.status ≡ "remembered")

  finish_with-cases :
      (ctx : Context) (w : String) (base : FinishChangeOutput F) (input : FinishChangeInput F)
      (decision : Option (RememberInput F)) (s : S) (out : FinishChangeOutput F) (t : S)
      → w ≡ trim_space input.workspace_id
      → input.decision ≡ decision
      → base.decision ≡ none
      → finish_with svc ctx w base decision s ≡ (ok out, t)
      → (Skipped input out ⊎ Remembers ctx input out t) × (out.changed_files ≡ base.changed_files)
  unfolding finish_with remembered
  finish_with-cases ctx w base input none s out t own given bare e =
      let done = record base { status = "skipped"; reason = "no durable decision supplied" } in
      let (same, _) = pure-eq-ok done out s t e in
      subst
        (λ o. (Skipped input o ⊎ Remembers ctx input o t) × (o.changed_files ≡ base.changed_files))
        same (inl (given, bare, refl), refl)
  finish_with-cases ctx w base input (some d) s out t own given bare e =
      let (placed, put, h1) = lift-eq-ok (place_decision w d) _ s out t e in
      let (kept, u, stored, h2) = bind-eq-ok (remember svc ctx placed) _ s out t h1 in
      let (same, end) = pure-eq-ok (remembered base kept) out u t h2 in
      let named =
        subst (λ v. (placed.workspace_id ≡ v) ⊎ (trim_space placed.workspace_id ≡ v)) own
          (place_decision-placed w d placed put) in
      subst
        (λ o. (Skipped input o ⊎ Remembers ctx input o t) × (o.changed_files ≡ base.changed_files))
        same
        (
          inr (
            placed,
            kept,
            s,
            subst (λ v. remember svc ctx placed s ≡ (ok kept, v)) end stored,
            named,
            refl,
            refl,
          ),
          refl,
        )

  -- A change that is finished without an error either had no decision, is `skipped` and returns
  -- none; or it is `remembered`, and returns the decision that `Remember` returned for an input
  -- that names the workspace of the change up to the space around it. Every changed file that is
  -- reported has a path.
  pub finish_change-cases :
      (ctx : Context) (input : FinishChangeInput F) (s : S) (out : FinishChangeOutput F) (t : S)
      → finish_change svc ctx input s ≡ (ok out, t)
      → (Skipped input out ⊎ Remembers ctx input out t) × All HasPath out.changed_files
  unfolding finish_change finish_base
  finish_change-cases ctx input s out t e =
      let w = trim_space input.workspace_id in
      let (_, _, h1) = lift-eq-ok (require_read ctx) _ s out t e in
      let (_, _, h2) = lift-eq-ok (required w "workspace_id is required") _ s out t h1 in
      let (_, u, _, h3) = bind-eq-ok (svc.store.get_workspace w) _ s out t h2 in
      let (cases, files) =
        finish_with-cases ctx w (finish_base input) input input.decision u out t refl refl refl
          h3 in
      (
        cases,
        subst (λ l. All HasPath l) (sym files)
            (normalize_changed_files-HasPath input.changed_files),
      )
