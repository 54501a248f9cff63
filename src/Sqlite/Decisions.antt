-- ===== src/Sqlite/Decisions.antt =====
-- The decisions of internal/adapters/sqlite/store.go: how one is saved and read back.
pub mod Saved
pub mod Supersession
pub mod Reading
use tuskbase.Common.{
  ℕ, String, Bool, not, ◌&&◌, ◌==◌, List, [], ◌∷◌, ◌++◌, any, eqb, select, if◌then◌else◌, is_blank,
  Option, none, some, Result, ok, err, Error, message, external, fail_if, and_then, ◌⧺◌, quote,
  Exec, pure, lift, ◌>>=◌, ◌>>◌, Float64,
}
use tuskbase.Domain.Parse.{decision_active, decision_superseded}
use tuskbase.Domain.Types.{
  Time, Alternative, Claim, Evidence, DecisionRelationship, Decision, is_active,
}
use tuskbase.Domain.Validate.{validate_decision}
use tuskbase.Sqlite.Tables.{
  Db, first, update, insert, with_key, one_row, reading, statement, transaction, format_time,
  nullable_time, references_workspace, foreign_key_failed, map_result,
}
use tuskbase.Sqlite.Children.{replace_decision_children, load_decision_children}

module _ {F : Type 0} where
  unfoldable pub default_decision_times : Time → Decision F → Decision F
  default_decision_times now d =
      let created = if eqb d.created_at 0 then now else d.created_at in
      record d {
        created_at = created;
        updated_at = if eqb d.updated_at 0 then created else d.updated_at;
        valid_from = if eqb d.valid_from 0 then created else d.valid_from;
        transaction_time = if eqb d.transaction_time 0 then created else d.transaction_time;
      }

  -- `d.Status == ""`
  unfoldable pub default_status : Decision F → Decision F
  default_status d = record d { status = if d.status == "" then decision_active else d.status }

  -- The columns of the `INSERT`.
  unfoldable pub decision_row : Time → Decision F → Decision F
  unfolding format_time nullable_time
  decision_row now d = record d {
    valid_from = format_time now d.valid_from;
    valid_to = nullable_time now d.valid_to;
    transaction_time = format_time now d.transaction_time;
    created_at = format_time now d.created_at;
    updated_at = format_time now d.updated_at;
  }

  unfoldable pub superseded_by : Decision F → Decision F → Bool
  superseded_by d r = r.id == d.supersedes_id && r.workspace_id == d.workspace_id && is_active r

  -- `SET valid_to = ?, status = ?, updated_at = ?`
  unfoldable pub close_decision : Time → Decision F → Decision F → Decision F
  unfolding format_time
  close_decision now d r = record r {
    valid_to = some (format_time now d.valid_from);
    status = decision_superseded;
    updated_at = format_time now d.updated_at;
  }

unfoldable pub not_active : String → Error
not_active id = message ("supersedes_id " ⧺ quote id ⧺ " does not reference an active decision")

module _ {F : Type 0} where
  -- `scanDecisionBase` of a row.
  unfoldable pub scan_decision : Decision F → Decision F
  scan_decision r = record r {
    valid_from = if eqb r.valid_from 0 then r.created_at else r.valid_from;
    valid_to = elim r.valid_to [ none ↦ none | some t ↦ if eqb t 0 then none else some t ];
    transaction_time = if eqb r.transaction_time 0 then r.created_at else r.transaction_time;
  }

module _ {F : Type 0} ⦃fl : Float64 F⦄ where
  -- The checks before the transaction, on the decision with its defaults.
  unfoldable pub ready_to_save : Decision F → Result (Unit {0})
  unfolding validate_decision
  ready_to_save d =
      and_then (validate_decision d)
        (fail_if (d.supersedes_id == d.id) (message "decision cannot supersede itself") (ok tt))

  unfoldable pub with_defaults : Time → Decision F → Decision F
  unfolding default_decision_times default_status
  with_defaults now given = default_status (default_decision_times now given)

module _ {F G : Type 0} where
  unfoldable pub supersede : Decision F → Db F G → Result (Db F G)
  unfolding superseded_by close_decision not_active update
  supersede d db =
      if any (superseded_by d) db.decisions
      then ok (record db {
        decisions = update (superseded_by d) (close_decision db.now d) db.decisions;
      })
      else err (not_active d.supersedes_id)

  -- `if d.SupersedesID != ""`
  unfoldable pub supersede_if_named : Decision F → Db F G → Result (Db F G)
  unfolding supersede
  supersede_if_named d db = if d.supersedes_id == "" then ok db else supersede d db

  unfoldable pub insert_decision : Decision F → Db F G → Result (Db F G)
  unfolding insert decision_row
  insert_decision d db =
      let rows = insert (λ r. r.id) (decision_row db.now d) db.decisions in
      fail_if (not (references_workspace db d.workspace_id)) foreign_key_failed
        (map_result (λ more. record db { decisions = more }) rows)

  -- The body of the transaction.
  unfoldable pub write_decision : Decision F → Exec (Db F G) (Unit {0})
  unfolding supersede_if_named insert_decision replace_decision_children
  write_decision d = do
    statement (supersede_if_named d)
    statement (insert_decision d)
    statement (replace_decision_children d)

  module _ ⦃fl : Float64 F⦄ where
    unfoldable pub save_decision : Decision F → Exec (Db F G) (Unit {0})
    unfolding ready_to_save with_defaults write_decision
    save_decision given = do
      d ← reading (λ db. ok (with_defaults db.now given))
      lift (ready_to_save d)
      transaction (write_decision d)

  unfoldable pub find_decision : String → Db F G → Result (Decision F)
  unfolding first scan_decision load_decision_children
  find_decision id db =
      map_result (λ r. load_decision_children db (scan_decision r))
        (one_row (first (with_key (λ r. r.id) id) db.decisions))

  unfoldable pub get_decision : String → Exec (Db F G) (Decision F)
  unfolding find_decision
  get_decision id = reading (find_decision id)
