-- ===== src/Sqlite/Conflicts/Opened.antt =====
-- Which conflicts `ListOpenConflicts` of internal/adapters/sqlite/store.go lists.
use mathlib.Core.Path.{subst}
use tuskbase.Common.{
  String, true, not, any, All, some, ok, ◌≡◌, ◌≢◌, refl, sym, ap, ◌∙◌, arith, eq_iff, lift-eq-ok,
  bind-eq-ok, ◌>>◌,
}
use tuskbase.Domain.Parse.{ConflictStatus, conflict_open, parse_conflict_status}
use tuskbase.Domain.Types.{Time, Conflict, ConflictResolution}
use tuskbase.Domain.Validate.{validate_conflict_resolution}
use tuskbase.Sqlite.Tables.{
  Db, Engine, statement, latest_first, has_active_decision, with_key, first,
}
use tuskbase.Sqlite.Tables.Rows.{
  select-All, sort_stable-All, first-update, first-holds, update-All, listed-All,
}
use tuskbase.Sqlite.Tables.Runs.{
  ok-injective, statements-eq-ok, transaction-eq-ok, fail_if-eq-ok, map_result-eq-ok, one_row-eq-ok,
  some-injective,
}
use tuskbase.Sqlite.Conflicts.{
  conflict_of, set_resolved, write_status, insert_resolution, resolved_by_default, write_resolution,
  get_conflict, find_conflict, resolve_conflict, open_conflict, find_open_conflicts,
}

module _ {F G : Type 0} where
  -- An open conflict of the workspace, with an active decision of it.
  abbrev pub Opened : Db F G → String → Conflict F → Type 0
  Opened s w c =
      (c.workspace_id ≡ w)
      × (c.status ≡ conflict_open)
      × (has_active_decision s c.conflicting_with_id w ≡ true)

  open_conflict-Opened :
      (s : Db F G) (w : String) (c : Conflict F) → open_conflict s w c ≡ true → Opened s w c
  unfolding open_conflict
  open_conflict-Opened s w c h =
      let own : c.workspace_id ≡ w = ground (arith, eq_iff c.workspace_id w) in
      (
        own,
        ground (arith, eq_iff c.status conflict_open),
        subst (λ x. has_active_decision s c.conflicting_with_id x ≡ true) own (ground arith),
      )

module _ {F G : Type 0} (engine : Engine F G) where
  pub find_open_conflicts-Opened :
      (w : String) (s : Db F G) → All (Opened s w) (find_open_conflicts engine w s)
  unfolding find_open_conflicts latest_first
  find_open_conflicts-Opened w s =
      sort_stable-All (Opened s w) _ _
        (select-All (Opened s w) (open_conflict s w) s.conflict_rows (open_conflict-Opened s w))

-- A conflict of the identifier and the workspace is not open.
abbrev Closed : {F : Type 0} → String → String → Conflict F → Type 0
Closed id w c = c.id ≡ id → c.workspace_id ≡ w → c.status ≢ conflict_open

module _ {F G : Type 0} where
  -- The row of a conflict, after its status was written.
  write_status-first :
      (id : String) (status : ConflictStatus) (at : Time) (r : ConflictResolution) (s v : Db F G)
      (c : Conflict F)
      → write_status id status at r s ≡ ok v
      → first (with_key (λ c. c.id) id) s.conflict_rows ≡ some c
      → c.workspace_id ≡ r.workspace_id
      → first (with_key (λ c. c.id) id) v.conflict_rows ≡ some (set_resolved s.now status at c)
  unfolding write_status conflict_of set_resolved
  write_status-first id status at r s v c h found own =
      let p = conflict_of id r.workspace_id in
      let f : Conflict F → Conflict F = set_resolved s.now status at in
      let (_, same) = fail_if-eq-ok (not (any p s.conflict_rows)) _ _ v h in
      let holds = first-holds (with_key (λ c. c.id) id) s.conflict_rows c found in
      let updated : p c ≡ true = ground (arith, eq_iff c.workspace_id r.workspace_id) in
      subst (λ (x : Db F G). first (with_key (λ c. c.id) id) x.conflict_rows ≡ some (f c))
        (ok-injective _ v same)
        (first-update (with_key (λ c. c.id) id) p f s.conflict_rows (λ x. refl) c found
          ∙ rw updated refl)

  write_status-Closed :
      (id : String) (status : ConflictStatus) (at : Time) (r : ConflictResolution) (s v : Db F G)
      → write_status id status at r s ≡ ok v
      → status ≢ conflict_open
      → All (Closed id r.workspace_id) v.conflict_rows
  unfolding write_status conflict_of set_resolved
  write_status-Closed id status at r s v h closing =
      let p = conflict_of id r.workspace_id in
      let f : Conflict F → Conflict F = set_resolved s.now status at in
      let (_, same) = fail_if-eq-ok (not (any p s.conflict_rows)) _ _ v h in
      subst (λ (x : Db F G). All (Closed id r.workspace_id) x.conflict_rows) (ok-injective _ v same)
        (update-All (Closed id r.workspace_id) p f s.conflict_rows (λ x e i w. closing)
          (λ x e i w. ground (arith, eq_iff x.id id, eq_iff x.workspace_id r.workspace_id)))

  pub insert_resolution-conflict_rows :
      (r : ConflictResolution) (v t : Db F G)
      → insert_resolution r v ≡ ok t
      → v.conflict_rows ≡ t.conflict_rows
  unfolding insert_resolution
  insert_resolution-conflict_rows r v t h =
      let (_, kept) = fail_if-eq-ok _ _ _ t h in
      let (rows, _, same) = map_result-eq-ok _ _ t kept in ap (λ (x : Db F G). x.conflict_rows) same

  -- A conflict of the resolution's workspace that is resolved without an error is returned with the
  -- given status, `resolved` where none is given, and with its time of resolution, and it is stored
  -- so; unless that status is `open` no conflict of its identifier is listed as open there any more.
  pub resolve_conflict-Closed :
      (engine : Engine F G) (id : String) (status : ConflictStatus) (at : Time)
      (r : ConflictResolution) (s : Db F G) (c got : Conflict F) (t : Db F G)
      → find_conflict id s ≡ ok c
      → c.workspace_id ≡ r.workspace_id
      → resolve_conflict id status at r s ≡ (ok got, t)
      → (got ≡ set_resolved s.now (resolved_by_default status) at c)
        × (find_conflict id t ≡ ok got)
        × (resolved_by_default status ≢ conflict_open
            → All (λ (x : Conflict F). x.id ≢ id) (find_open_conflicts engine r.workspace_id t))
  unfolding resolve_conflict write_resolution get_conflict find_conflict find_open_conflicts
      latest_first
  resolve_conflict-Closed engine id status at r s c got t old own h =
      let st = resolved_by_default status in
      let (_, _, h1) = lift-eq-ok (parse_conflict_status st) _ s got t h in
      let (_, _, h2) = lift-eq-ok (validate_conflict_resolution r) _ s got t h1 in
      let (u, v, written, read) = bind-eq-ok (write_resolution id st at r) _ s got t h2 in
      let (w, one, two) = statements-eq-ok (write_status id st at r) (insert_resolution r) s u v (
        transaction-eq-ok (statement (write_status id st at r) >> statement (insert_resolution r)) s
          u v written) in
      let rows : w.conflict_rows ≡ t.conflict_rows =
        insert_resolution-conflict_rows r w v two ∙ ap (λ p. p.1.conflict_rows) read in
      let back : find_conflict id v ≡ ok got = ap (λ p. p.0) read in
      let now_first : first (with_key (λ c. c.id) id) w.conflict_rows
          ≡ some (set_resolved s.now st at c) =
        write_status-first id st at r s w c one (one_row-eq-ok _ c old) own in
      let stored : find_conflict id t ≡ ok got =
        subst (λ x. find_conflict id x ≡ ok got) (ap (λ p. p.1) read) back in
      (
        some-injective got (set_resolved s.now st at c) (
            sym (one_row-eq-ok _ got stored)
            ∙ subst (λ l. first (with_key (λ c. c.id) id) l ≡ some (set_resolved s.now st at c))
                rows now_first),
        stored,
        λ closing. sort_stable-All _ _ _ (
            listed-All _ (Closed id r.workspace_id) (open_conflict t r.workspace_id) t.conflict_rows
              (λ x e closed same.
                let (ws, is_open, _) = open_conflict-Opened t r.workspace_id x e in
                closed same ws is_open)
              (subst (All (Closed id r.workspace_id)) rows
                (write_status-Closed id st at r s w one closing))),
      )
