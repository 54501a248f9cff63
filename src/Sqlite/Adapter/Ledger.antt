-- ===== src/Sqlite/Adapter/Ledger.antt =====
-- The conflicts that a service stores by internal/adapters/sqlite/store.go, as its conflict log.
use mathlib.Core.Path.{subst}
use tuskbase.Common.{
  is_blank, to_lower, ◌≡◌, ◌≢◌, sym, ap, ◌∙◌, arith, none, some, [], ◌∷◌, ◌++◌, not, ok, lift-eq-ok,
  Float64,
}
use tuskbase.Domain.Parse.{ConflictStatus, conflict_open, parse_conflict_status}
use tuskbase.Domain.Types.{Time, Conflict}
use tuskbase.Domain.Validate.{validate_conflict}
use tuskbase.Ports.{Store, RelationshipValidator, RelationshipValidationRequest}
use tuskbase.App.Service.{Service}
use tuskbase.App.Service.Ledger.{ConflictLog}
use tuskbase.Sqlite.Tables.{Db, Engine, format_time, insert, references_workspace}
use tuskbase.Sqlite.Tables.Runs.{
  ok-injective, statement-eq-ok, fail_if-eq-ok, map_result-eq-ok, insert-eq-ok,
}
use tuskbase.Sqlite.Conflicts.{resolved_column, conflict_row, insert_conflict, save_conflict}
use tuskbase.Sqlite.Adapter.{sqlite_store}

parse-open :
    (status : ConflictStatus)
    → parse_conflict_status conflict_open ≡ ok status
    → conflict_open ≡ status
unfolding parse_conflict_status is_blank to_lower
parse-open status h = ok-injective conflict_open status h

module _ {F : Type 0} where
  -- A new conflict is stored as it is.
  conflict_row-new :
      (now : Time) (c : Conflict F)
      → c.created_at ≢ 0
      → c.resolved_at ≡ none
      → conflict_row now c ≡ c
  unfolding conflict_row format_time resolved_column
  conflict_row-new now c set unresolved = rw (unresolved) (ground arith)

module _ {F G : Type 0} where
  insert_conflict-rows :
      (c : Conflict F) (s t : Db F G)
      → insert_conflict c s ≡ ok t
      → t.conflict_rows ≡ s.conflict_rows ++ conflict_row s.now c ∷ []
  unfolding insert_conflict
  insert_conflict-rows c s t h =
      let (_, kept) = fail_if-eq-ok (not (references_workspace s c.workspace_id)) _ _ t h in
      let (rows, put, same) =
        map_result-eq-ok _ (insert (λ x. x.id) (conflict_row s.now c) s.conflict_rows) t kept in
      let (_, last) = insert-eq-ok (λ x. x.id) (conflict_row s.now c) s.conflict_rows rows put in
      ap (λ (x : Db F G). x.conflict_rows) (sym same) ∙ sym last

  module _ ⦃fl : Float64 F⦄ where
    pub save_conflict-rows :
        (c : Conflict F) (s t : Db F G)
        → c.status ≡ conflict_open
        → c.created_at ≢ 0
        → c.resolved_at ≡ none
        → save_conflict c s ≡ (ok tt, t)
        → t.conflict_rows ≡ s.conflict_rows ++ c ∷ []
    unfolding save_conflict
    save_conflict-rows c s t is_open set unresolved h =
        let (status, parsed, h1) = lift-eq-ok (parse_conflict_status c.status) _ s tt t h in
        let stored : Conflict F = record c { status = status } in
        let (_, _, h2) = lift-eq-ok (validate_conflict stored) _ s tt t h1 in
        let same : c.status ≡ status =
          is_open
          ∙ parse-open status (subst (λ x. parse_conflict_status x ≡ ok status) is_open parsed) in
        let back : stored ≡ c = ap (λ (x : ConflictStatus). record c { status = x }) (sym same) in
        insert_conflict-rows stored s t (statement-eq-ok (insert_conflict stored) s tt t h2)
        ∙ ap (λ row. s.conflict_rows ++ row ∷ [])
            (conflict_row-new s.now stored set unresolved ∙ back)

    -- The table of conflicts of a service on the SQLite store is a conflict log: a conflict that is
    -- open, has a time and is not resolved stands at its end once it is saved without an error,
    -- unchanged, behind the rows that were there. This is where new identifiers, the clock and the
    -- validator leave the table alone, and the clock shows a time.
    pub sqlite_store-ConflictLog :
        (engine : Engine F G) (svc : Service F (Db F G))
        → svc.store ≡ sqlite_store engine
        → ((s : Db F G) → (svc.ids s).1.conflict_rows ≡ s.conflict_rows)
        → ((s : Db F G) → (svc.clock s).1.conflict_rows ≡ s.conflict_rows)
        → ((s : Db F G) → (svc.clock s).0 ≢ 0)
        → ((v : RelationshipValidator F (Db F G))
            → svc.validator ≡ some v
            → (q : RelationshipValidationRequest F) (s : Db F G)
            → (v q s).1.conflict_rows ≡ s.conflict_rows)
        → ConflictLog svc (λ s. s.conflict_rows)
    unfolding sqlite_store
    sqlite_store-ConflictLog engine svc same ids clock set validator = record {
      ids_keep = ids;
      clock_keep = clock;
      clock_set = set;
      validator_keep = validator;
      saved = λ c s t is_open dated unresolved h.
          save_conflict-rows c s t is_open dated unresolved
            (subst (λ (x : Store F (Db F G)). x.save_conflict c s ≡ (ok tt, t)) same h);
    }
