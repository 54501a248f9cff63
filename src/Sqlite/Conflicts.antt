-- ===== src/Sqlite/Conflicts.antt =====
-- The conflicts of internal/adapters/sqlite/store.go.
pub mod Opened
use tuskbase.Common.{
  ℕ, String, Bool, not, ◌&&◌, ◌||◌, ◌==◌, if◌then◌else◌, List, [], ◌∷◌, take, any, select, Option,
  none, some, Result, ok, err, fail_if, Exec, lift, ◌>>=◌, ◌>>◌, Float64,
}
use tuskbase.Domain.Parse.{ConflictStatus, conflict_open, conflict_resolved, parse_conflict_status}
use tuskbase.Domain.Types.{Time, Conflict, ConflictResolution}
use tuskbase.Domain.Validate.{validate_conflict, validate_conflict_resolution}
use tuskbase.Ports.{ConflictQuery}
use tuskbase.Sqlite.Tables.{
  Db, Engine, first, update, insert, with_key, one_row, map_result, reading, statement, transaction,
  format_time, references_workspace, references_conflict, foreign_key_failed, no_rows,
  has_active_decision, latest_first, row_limit,
}

unfoldable pub resolution_row : Time → ConflictResolution → ConflictResolution
unfolding format_time
resolution_row now r = record r { created_at = format_time now r.created_at }

-- `if c.ResolvedAt != nil`
unfoldable pub resolved_column : Time → Option Time → Option Time
unfolding format_time
resolved_column now none = none
resolved_column now (some t) = some (format_time now t)

-- `if status == ""`
unfoldable pub resolved_by_default : ConflictStatus → ConflictStatus
resolved_by_default status = if status == "" then conflict_resolved else status

module _ {F : Type 0} where
  unfoldable pub conflict_row : Time → Conflict F → Conflict F
  unfolding format_time resolved_column
  conflict_row now c = record c {
    created_at = format_time now c.created_at;
    resolved_at = resolved_column now c.resolved_at;
  }

  unfoldable pub conflict_of : String → String → Conflict F → Bool
  conflict_of id workspace_id c = c.id == id && c.workspace_id == workspace_id

  -- `SET status = ?, resolved_at = ?`
  unfoldable pub set_resolved : Time → ConflictStatus → Time → Conflict F → Conflict F
  unfolding format_time
  set_resolved now status resolved_at c = record c {
    status = status;
    resolved_at = some (format_time now resolved_at);
  }

  unfoldable pub listed_conflict : ConflictQuery → Conflict F → Bool
  listed_conflict q c = c.workspace_id == q.workspace_id && (q.status == "" || c.status == q.status)

module _ {F G : Type 0} where
  unfoldable pub insert_conflict : Conflict F → Db F G → Result (Db F G)
  unfolding insert conflict_row
  insert_conflict c db = fail_if (not (references_workspace db c.workspace_id)) foreign_key_failed (
      map_result (λ rows. record db { conflict_rows = rows })
        (insert (λ x. x.id) (conflict_row db.now c) db.conflict_rows))

  module _ ⦃fl : Float64 F⦄ where
    unfoldable pub save_conflict : Conflict F → Exec (Db F G) (Unit {0})
    unfolding insert_conflict validate_conflict parse_conflict_status
    save_conflict given = do
      status ← lift (parse_conflict_status given.status)
      let c : Conflict F = record given { status = status }
      lift (validate_conflict c)
      statement (insert_conflict c)

  unfoldable pub find_conflict : String → Db F G → Result (Conflict F)
  unfolding first
  find_conflict id db = one_row (first (with_key (λ c. c.id) id) db.conflict_rows)

  unfoldable pub get_conflict : String → Exec (Db F G) (Conflict F)
  unfolding find_conflict
  get_conflict id = reading (find_conflict id)

  unfoldable pub write_status :
      String → ConflictStatus → Time → ConflictResolution → Db F G → Result (Db F G)
  unfolding conflict_of set_resolved update
  write_status id status resolved_at resolution db =
      fail_if (not (any (conflict_of id resolution.workspace_id) db.conflict_rows)) no_rows (
        ok (record db {
          conflict_rows =
              update (conflict_of id resolution.workspace_id)
                (set_resolved db.now status resolved_at) db.conflict_rows;
        }))

  unfoldable pub insert_resolution : ConflictResolution → Db F G → Result (Db F G)
  unfolding insert resolution_row
  insert_resolution r db =
      fail_if (not (references_workspace db r.workspace_id && references_conflict db r.conflict_id))
        foreign_key_failed
        (map_result (λ rows. record db { conflict_resolutions = rows })
          (insert (λ x. x.id) (resolution_row db.now r) db.conflict_resolutions))

  unfoldable pub write_resolution :
      String → ConflictStatus → Time → ConflictResolution → Exec (Db F G) (Unit {0})
  unfolding write_status insert_resolution
  write_resolution id status resolved_at resolution = transaction (
      statement (write_status id status resolved_at resolution)
      >> statement (insert_resolution resolution))

  unfoldable pub resolve_conflict :
      String → ConflictStatus → Time → ConflictResolution → Exec (Db F G) (Conflict F)
  unfolding resolved_by_default write_resolution get_conflict validate_conflict_resolution
      parse_conflict_status
  resolve_conflict id given resolved_at resolution = do
    let status = resolved_by_default given
    lift (parse_conflict_status status)
    lift (validate_conflict_resolution resolution)
    write_resolution id status resolved_at resolution
    get_conflict id

  -- The clauses of `ListOpenConflicts`.
  unfoldable pub open_conflict : Db F G → String → Conflict F → Bool
  unfolding has_active_decision
  open_conflict db workspace_id c =
      c.workspace_id == workspace_id
      && c.status == conflict_open
      && has_active_decision db c.conflicting_with_id c.workspace_id

  module _ (engine : Engine F G) where
    unfoldable pub find_conflicts : ConflictQuery → Db F G → List (Conflict F)
    unfolding listed_conflict latest_first row_limit
    find_conflicts q db =
        take (row_limit 50 q.limit)
          (latest_first engine (λ c. c.created_at) (select (listed_conflict q) db.conflict_rows))

    unfoldable pub list_conflicts : ConflictQuery → Exec (Db F G) (List (Conflict F))
    unfolding find_conflicts
    list_conflicts q = reading (λ db. ok (find_conflicts q db))

    unfoldable pub find_open_conflicts : String → Db F G → List (Conflict F)
    unfolding open_conflict latest_first
    find_open_conflicts workspace_id db =
        latest_first engine (λ c. c.created_at)
          (select (open_conflict db workspace_id) db.conflict_rows)

    unfoldable pub list_open_conflicts : String → Exec (Db F G) (List (Conflict F))
    unfolding find_open_conflicts
    list_open_conflicts workspace_id = reading (λ db. ok (find_open_conflicts workspace_id db))
