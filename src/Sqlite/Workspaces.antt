-- ===== src/Sqlite/Workspaces.antt =====
-- The workspaces of internal/adapters/sqlite/store.go.
use tuskbase.Common.{
  String, List, [], ◌∷◌, ◌++◌, Result, ok, err, eqb, if◌then◌else◌, any, Exec, pure, lift, ◌>>=◌,
  ◌>>◌,
}
use tuskbase.Domain.Types.{Time, Workspace}
use tuskbase.Domain.Validate.{validate_workspace}
use tuskbase.Sqlite.Tables.{Db, first, update, with_key, one_row, reading, statement, format_time}

-- The columns of a row: the documents that `Attach` found are no column.
unfoldable pub workspace_row : Time → Workspace → Workspace
unfolding format_time
workspace_row now w = record w {
  detected_docs = [];
  created_at = format_time now w.created_at;
  updated_at = format_time now w.updated_at;
}

-- `DO UPDATE SET`
unfoldable pub renew_workspace : Workspace → Workspace → Workspace
renew_workspace excluded w = record w {
  repo_root = excluded.repo_root;
  display_name = excluded.display_name;
  repo_fingerprint = excluded.repo_fingerprint;
  updated_at = excluded.updated_at;
}

-- `INSERT … ON CONFLICT(id) DO UPDATE`
unfoldable pub put_workspace : Workspace → List Workspace → List Workspace
unfolding renew_workspace update
put_workspace row rows =
    if any (with_key (λ w. w.id) row.id) rows
    then update (with_key (λ w. w.id) row.id) (renew_workspace row) rows
    else rows ++ row ∷ []

-- The time of creation that an existing row keeps.
unfoldable pub kept_creation : Result Workspace → Workspace → Workspace
kept_creation (ok existing) w =
    if eqb existing.created_at 0 then w else record w { created_at = existing.created_at }
kept_creation (err e) w = w

module _ {F G : Type 0} where
  unfoldable pub find_workspace : String → Db F G → Result Workspace
  unfolding first
  find_workspace id db = one_row (first (with_key (λ w. w.id) id) db.workspaces)

  unfoldable pub get_workspace : String → Exec (Db F G) Workspace
  unfolding find_workspace
  get_workspace id = reading (find_workspace id)

  unfoldable pub write_workspace : Workspace → Db F G → Result (Db F G)
  unfolding put_workspace workspace_row
  write_workspace w db =
      ok (record db { workspaces = put_workspace (workspace_row db.now w) db.workspaces })

  unfoldable pub upsert_workspace : Workspace → Exec (Db F G) Workspace
  unfolding find_workspace kept_creation write_workspace
  upsert_workspace given = do
    lift (validate_workspace given)
    w ← reading (λ db. ok (kept_creation (find_workspace given.id db) given))
    statement (write_workspace w)
    pure w
