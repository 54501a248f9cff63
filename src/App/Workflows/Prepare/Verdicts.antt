-- ===== src/App/Workflows/Prepare/Verdicts.antt =====
-- The verdict of `PrepareChange`: internal/app/workflows.go.
use tuskbase.Common.{
  String, true, false, ◌==◌, ltb, ◌<◌, ◌≡◌, ◌≢◌, refl, ◌⊎◌, inl, inr, arith, text_eq, text_ne,
  Bool-cases, none, some, length, count_if, trim_space, ok, bind-eq-ok, lift-eq-ok, pure-eq-ok,
  Float64,
}
use mathlib.Core.Path.{subst}
use tuskbase.App.Attach.{attach}
use tuskbase.App.Briefing.{context}
use tuskbase.App.Lookup.{required, lookup, recent, open_conflicts}
use tuskbase.App.Auth.{Context}
use tuskbase.App.Service.{Service, Repository, default_limit, bounded_limit}
use tuskbase.App.Preflight.{PreflightInput, PreflightOutput, preflight}
use tuskbase.App.Preflight.Flags.{is_conflict}
use tuskbase.App.Preflight.Counts.{preflight-counts}
use tuskbase.App.Workflows.Prepare.{
  PrepareChangeInput, PrepareChangeOutput, judge, gather, needs_plan, judge_plan, prepare_change,
}

module _ {F : Type 0} ⦃fl : Float64 F⦄ where
  abbrev pub NeedsPlan : String → PrepareChangeOutput F → Type 0
  NeedsPlan plan out =
      (plan ≡ "")
      × (out.preflight ≡ none)
      × (out.verdict ≡ "needs_plan")
      × (out.should_edit ≡ false)
      × (out.requires_user_approval ≡ false)

  abbrev pub Proceeds : String → PrepareChangeOutput F → Type 0
  Proceeds plan out =
      (plan ≢ "")
      × (out.verdict ≡ "proceed")
      × (out.should_edit ≡ true)
      × (out.requires_user_approval ≡ false)
      × (found : PreflightOutput F) × (out.preflight ≡ some found)
      × (count_if is_conflict found.relationships ≡ 0)

  abbrev pub Conflicts : String → PrepareChangeOutput F → Type 0
  Conflicts plan out =
      (plan ≢ "")
      × (out.verdict ≡ "conflict")
      × (out.should_edit ≡ false)
      × (out.requires_user_approval ≡ true)
      × (found : PreflightOutput F) × (out.preflight ≡ some found)
      × (0 < count_if is_conflict found.relationships)

  abbrev Fresh : PrepareChangeOutput F → Type 0
  Fresh out =
      (out.preflight ≡ none)
      × (out.verdict ≡ "needs_plan")
      × (out.should_edit ≡ false)
      × (out.requires_user_approval ≡ false)

  judge-cases :
      (plan : String) (out : PrepareChangeOutput F) (found : PreflightOutput F)
      → plan ≢ ""
      → out.requires_user_approval ≡ false
      → length found.conflicts ≡ count_if is_conflict found.relationships
      → Proceeds plan (judge out found) ⊎ Conflicts plan (judge out found)
  unfolding judge
  judge-cases plan out found h free same = elim (Bool-cases (ltb 0 (length found.conflicts))) [
    | inl is ↦ inr (rw is (h, refl, refl, refl, found, refl, ground arith))
    | inr not_ ↦ inl (rw not_ (h, refl, refl, free, found, refl, ground arith))
  ]

module _ {F S : Type 0} ⦃fl : Float64 F⦄ (svc : Service F S) where
  gather-Fresh :
      (repo : Repository) (ctx : Context) (input : PrepareChangeInput) (s : S)
      (out : PrepareChangeOutput F) (t : S)
      → gather svc repo ctx input s ≡ (ok out, t)
      → Fresh out
  unfolding gather
  gather-Fresh repo ctx input s out t e =
      let task = trim_space input.task in
      let limit = bounded_limit input.limit default_limit in
      let (_, _, h1) = lift-eq-ok (required task "task is required") _ s out t e in
      let (attached, s2, _, h2) =
        bind-eq-ok
          (attach svc repo ctx
            (record { repo_path = input.repo_path; display_name = input.display_name }))
          _ s out t h1 in
      let id = attached.workspace.id in
      let (briefing, s3, _, h3) =
        bind-eq-ok (context svc ctx (record { workspace_id = id; limit = limit })) _ s2 out t h2 in
      let (ds, s4, _, h4) = bind-eq-ok (recent svc ctx id limit) _ s3 out t h3 in
      let (cs, s5, _, h5) = bind-eq-ok (open_conflicts svc ctx id) _ s4 out t h4 in
      let (found, s6, _, h6) =
        bind-eq-ok (lookup svc ctx (record { workspace_id = id; query = task; limit = limit })) _ s5
          out t h5 in
      let (same, _) = pure-eq-ok (needs_plan attached.workspace briefing ds cs found) out s6 t h6 in
      subst Fresh same (refl, refl, refl, refl)

  -- A change that is prepared without an error gets one of three answers. With a blank plan,
  -- the verdict is `needs_plan`: no preflight, no edit, no approval. With a plan and no relationship
  -- of type `conflicts` in its preflight, it is `proceed`: edit, without approval. With a plan and
  -- such a relationship, it is `conflict`: no edit, and the user has to approve.
  pub prepare_change-cases :
      (repo : Repository) (ctx : Context) (input : PrepareChangeInput) (s : S)
      (out : PrepareChangeOutput F) (t : S)
      → prepare_change svc repo ctx input s ≡ (ok out, t)
      → NeedsPlan (trim_space input.plan) out
        ⊎ Proceeds (trim_space input.plan) out
        ⊎ Conflicts (trim_space input.plan) out
  unfolding prepare_change judge_plan
  prepare_change-cases repo ctx input s out t e =
      let plan = trim_space input.plan in
      let limit = bounded_limit input.limit default_limit in
      let (base, u, gathered, h1) = bind-eq-ok (gather svc repo ctx input) _ s out t e in
      let fresh = gather-Fresh repo ctx input s base u gathered in
      elim (Bool-cases (plan == "")) [
        | inl is ↦
            let (same, _) = pure-eq-ok base out u t (rw is at h1) in
            let f = subst Fresh same fresh in inl (text_eq plan "" is, f.0, f.1, f.2, f.3)
        | inr not_ ↦
            let asked : PreflightInput = record {
              workspace_id = base.workspace.id;
              proposal = plan;
              limit = limit;
            } in
            let (found, v, checked, h2) =
              bind-eq-ok (preflight svc ctx asked) _ u out t (rw not_ at h1) in
            let (same, _) = pure-eq-ok (judge base found) out v t h2 in
            inr (
              subst (λ o. Proceeds plan o ⊎ Conflicts plan o) same
                (judge-cases plan base found (text_ne plan "" not_) (fresh.3)
                  (preflight-counts svc ctx asked u found v checked)))
      ]
