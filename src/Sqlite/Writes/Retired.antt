-- ===== src/Sqlite/Writes/Retired.antt =====
-- A superseded decision stays superseded, whatever is called next on internal/adapters/sqlite.
use mathlib.Core.Path.{subst}
use tuskbase.Common.{
  String, Bool, true, false, ◌==◌, any, Bool-cases, List, [], ◌∷◌, All, ok, Error, Result, fail_if,
  Float64, ◌≡◌, ◌≢◌, refl, sym, ap, ◌∙◌, inl, inr, arith,
}
use tuskbase.Domain.Types.{Time, Workspace, Decision, Assessment, Conflict, ConflictResolution}
use tuskbase.Sqlite.Tables.{map_result}
use tuskbase.Sqlite.Tables.Runs.{ok-injective, fail_if-eq-ok, map_result-eq-ok}
use tuskbase.Sqlite.Workspaces.{write_workspace}
use tuskbase.Sqlite.Documents.{insert_assessment}
use tuskbase.Sqlite.Tables.{Db, Engine, active_row, has_active_decision, with_key, update}
use tuskbase.Sqlite.Tables.Rows.{any-append, any-update-keeps, any_mono, All-map}
use tuskbase.Sqlite.Decisions.{
  superseded_by, close_decision, decision_row, supersede_if_named, insert_decision, with_defaults,
  save_decision, default_status, default_decision_times,
}
use tuskbase.Sqlite.Decisions.Saved.{
  closed_rows, superseded, inserted, save_decision-Saved, Saved-decisions,
}
use tuskbase.Sqlite.Decisions.Supersession.{
  close_decision-active_row, decision_row-active_row, save_decision-supersedes,
  has_active_decision-refuses,
}
use tuskbase.Sqlite.Conflicts.{
  insert_conflict, write_status, insert_resolution, find_open_conflicts,
}
use tuskbase.Sqlite.Conflicts.Opened.{Opened, find_open_conflicts-Opened}
use tuskbase.Sqlite.Writes.{Write, replay}
use tuskbase.Sqlite.Writes.Preserves.{Keeps, Stable}
use tuskbase.Sqlite.Writes.Preserves.Calls.{replay-Preserves}

module _ {A : Type 0} (q p : A → Bool) (f : A → A) where
  any-update-false :
      (xs : List A) → any q xs ≡ false → ((x : A) → q (f x) ≡ false) → any q (update p f xs) ≡ false
  unfolding update
  any-update-false [] h k = refl
  any-update-false (x ∷ xs) h k = elim (Bool-cases (p x)) [
    | inl is ↦ rw is (ground (arith, k x, any-update-false xs (ground arith) k))
    | inr not_ ↦ rw not_ (ground (arith, any-update-false xs (ground arith) k))
  ]

module _ {F : Type 0} where
  -- A row of the identifier is there, and none of it is active in the workspace.
  abbrev RetiredIn : String → String → List (Decision F) → Type 0
  RetiredIn k w ds = (any (with_key (λ d. d.id) k) ds ≡ true) × (any (active_row k w) ds ≡ false)

module _ {F G : Type 0} (k w : String) where
  abbrev Retired : Db F G → Type 0
  Retired s = RetiredIn k w s.decisions

  closed-Retired : (d : Decision F) (s : Db F G) → Retired s → RetiredIn k w (closed_rows d s)
  unfolding close_decision
  closed-Retired d s (there, gone) = elim (Bool-cases (d.supersedes_id == "")) [
    | inl none_named ↦ rw none_named (there, gone)
    | inr named ↦ rw named (
      any-update-keeps (with_key (λ r. r.id) k) (superseded_by d) (close_decision s.now d)
            s.decisions (λ x. refl)
          ∙ there,
      any-update-false (active_row k w) (superseded_by d) (close_decision s.now d) s.decisions gone
          (λ x. close_decision-active_row s.now d x k w),
    )
  ]

  supersede_if_named-Retired : (d : Decision F) → Keeps Retired (supersede_if_named {G = G} d)
  supersede_if_named-Retired d s t h r =
      let (same, _) = superseded d s t h in
      subst (λ (x : Db F G). Retired x) (sym same) (closed-Retired d s r)

  insert_decision-Retired : (d : Decision F) → Keeps Retired (insert_decision {G = G} d)
  insert_decision-Retired d s t h (there, gone) =
      let (fresh, same) = inserted d s t h in
      let row = decision_row s.now d in
      let other : d.id ≢ k = λ e.
        let found : any (with_key (λ (r : Decision F). r.id) d.id) s.decisions ≡ true =
          subst (λ i. any (with_key (λ (r : Decision F). r.id) i) s.decisions ≡ true) (sym e)
            there in
        true_false (sym found ∙ fresh) in
      subst (λ (x : Db F G). Retired x) (sym same)
        (
          any-append (with_key (λ r. r.id) k) s.decisions (row ∷ []) ∙ rw there refl,
          any-append (active_row k w) s.decisions (row ∷ [])
              ∙ rw (gone, decision_row-active_row s.now d k w other) refl,
        )
    where
      true_false : true ≡ false → ⊥
      true_false e = cc

  -- A guarded statement on another table.
  guarded-Retired :
      {A : Type 0} (b : Bool) (e : Error) (g : A → Db F G) (r : Result A) (s t : Db F G)
      → ((a : A) → s.decisions ≡ (g a).decisions)
      → fail_if b e (map_result g r) ≡ ok t
      → Retired s
      → Retired t
  guarded-Retired b e g r s t same h kept =
      let (_, written) = fail_if-eq-ok b e _ t h in
      let (a, _, last) = map_result-eq-ok g r t written in
      subst (RetiredIn k w) (same a ∙ ap (λ (x : Db F G). x.decisions) last) kept

  write_workspace-Retired : (x : Workspace) → Keeps Retired (write_workspace {F = F} {G = G} x)
  unfolding write_workspace
  write_workspace-Retired x s t h r =
      subst (RetiredIn k w) (ap (λ (x : Db F G). x.decisions) (ok-injective _ t h)) r

  insert_assessment-Retired : (a : Assessment) → Keeps Retired (insert_assessment {F = F} {G = G} a)
  unfolding insert_assessment
  insert_assessment-Retired a s t h r = guarded-Retired _ _ _ _ s t (λ x. refl) h r

  insert_conflict-Retired : (c : Conflict F) → Keeps Retired (insert_conflict {G = G} c)
  unfolding insert_conflict
  insert_conflict-Retired c s t h r = guarded-Retired _ _ _ _ s t (λ x. refl) h r

  write_status-Retired :
      (id status : String) (at : Time) (r : ConflictResolution)
      → Keeps Retired (write_status {F = F} {G = G} id status at r)
  unfolding write_status
  write_status-Retired id status at x s t h r =
      let (_, same) = fail_if-eq-ok _ _ _ t h in
      subst (RetiredIn k w) (ap (λ (x : Db F G). x.decisions) (ok-injective _ t same)) r

  insert_resolution-Retired :
      (x : ConflictResolution) → Keeps Retired (insert_resolution {F = F} {G = G} x)
  unfolding insert_resolution
  insert_resolution-Retired x s t h r = guarded-Retired _ _ _ _ s t (λ y. refl) h r

  Retired-Stable : Stable Retired
  Retired-Stable = record {
    elsewhere = λ s t a b c d e r. subst (RetiredIn k w) b r;
    workspace = write_workspace-Retired;
    supersession = supersede_if_named-Retired;
    decision = insert_decision-Retired;
    assessment = insert_assessment-Retired;
    conflict = insert_conflict-Retired;
    status = write_status-Retired;
    resolution = insert_resolution-Retired;
  }

module _ {F G : Type 0} ⦃fl : Float64 F⦄ where
  superseded-Retired :
      (given : Decision F) (s t : Db F G)
      → save_decision given s ≡ (ok tt, t)
      → given.supersedes_id ≢ ""
      → Retired given.supersedes_id given.workspace_id t
  unfolding with_defaults default_status default_decision_times close_decision superseded_by
      has_active_decision
  superseded-Retired given s t h named =
      let (_, saved) = save_decision-Saved given s tt t h in
      let d = with_defaults s.now given in
      let k = given.supersedes_id in
      let key : Decision F → Bool = with_key (λ r. r.id) k in
      let before : any key s.decisions ≡ true =
        any_mono (superseded_by d) key s.decisions (λ x e. ground arith) (saved.named named) in
      let closed : any key (closed_rows d s) ≡ true = elim (Bool-cases (d.supersedes_id == "")) [
        | inl none_named ↦ rw none_named before
        | inr given_one ↦ rw given_one (
            any-update-keeps key (superseded_by d) (close_decision s.now d) s.decisions (λ x. refl)
            ∙ before)
      ] in
      (
        rw (Saved-decisions d s t saved)
            (any-append key (closed_rows d s) (decision_row s.now d ∷ []) ∙ rw closed refl),
        (save_decision-supersedes given s t h named).1,
      )

  -- A decision that is saved with a decision it supersedes found that one active in its workspace.
  -- After any sequence of further calls, whether each succeeds or fails, that one is not active
  -- there, and no decision of the workspace is saved that supersedes it once more.
  pub save_decision-supersedes_once :
      (given : Decision F) (s t : Db F G) (ws : List (Write F G)) (later : Decision F) (v : Db F G)
      → save_decision given s ≡ (ok tt, t)
      → given.supersedes_id ≢ ""
      → later.supersedes_id ≡ given.supersedes_id
      → later.workspace_id ≡ given.workspace_id
      → let u = replay ws t in
        (has_active_decision s given.supersedes_id given.workspace_id ≡ true)
        × (has_active_decision u given.supersedes_id given.workspace_id ≡ false)
        × (save_decision later u ≢ (ok tt, v))
  unfolding has_active_decision
  save_decision-supersedes_once given s t ws later v h named same_id same_workspace =
      let k = given.supersedes_id in
      let w = given.workspace_id in
      let (_, gone) =
        replay-Preserves (Retired k w) (Retired-Stable k w) ws t
          (superseded-Retired given s t h named) in
      (
        (save_decision-supersedes given s t h named).0,
        gone,
        has_active_decision-refuses k w later (replay ws t) v gone named same_id same_workspace,
      )

  -- The open conflicts that are listed of a workspace are open, of that workspace, and each with a
  -- decision that is active there, in any database. Once a decision was superseded by another of
  -- its workspace, no conflict with it is listed there, after any sequence of further calls.
  pub save_decision-find_open_conflicts :
      (engine : Engine F G) (given : Decision F) (s t v : Db F G) (w : String)
      (ws : List (Write F G))
      → save_decision given s ≡ (ok tt, t)
      → given.supersedes_id ≢ ""
      → All (Opened v w) (find_open_conflicts engine w v)
        × All
            (λ (c : Conflict F). c.conflicting_with_id ≢ given.supersedes_id)
            (find_open_conflicts engine given.workspace_id (replay ws t))
  unfolding has_active_decision
  save_decision-find_open_conflicts engine given s t v w ws h named =
      let k = given.supersedes_id in
      let own = given.workspace_id in
      let u = replay ws t in
      let (_, gone) =
        replay-Preserves (Retired k own) (Retired-Stable k own) ws t
          (superseded-Retired given s t h named) in
      (
        find_open_conflicts-Opened engine w v,
        All-map (Opened u own) _ (find_open_conflicts engine own u)
            (λ c opened same.
              true_false (sym opened.2 ∙ ap (λ i. has_active_decision u i own) same ∙ gone))
            (find_open_conflicts-Opened engine own u),
      )
    where
      true_false : true ≡ false → ⊥
      true_false e = cc
