-- ===== src/Sqlite/Writes/Invariant.antt =====
-- The keys and references that every sequence of calls on internal/adapters/sqlite keeps.
use tuskbase.Common.{List, Float64}
use tuskbase.Sqlite.Tables.{Db}
use tuskbase.Sqlite.Writes.{Write, replay}
use tuskbase.Sqlite.Writes.Preserves.{Stable}
use tuskbase.Sqlite.Writes.Preserves.Calls.{replay-Preserves}
use tuskbase.Sqlite.Writes.Keeps.{
  WellFormed, write_workspace-Keeps, supersede_if_named-Keeps, insert_decision-Keeps,
  insert_assessment-Keeps, insert_conflict-Keeps, write_status-Keeps, insert_resolution-Keeps,
}

module _ {F G : Type 0} where
  WellFormed-Stable : Stable (WellFormed {F = F} {G = G})
  WellFormed-Stable = record {
    elsewhere = λ s t a b c d e wf. rw (← a, ← b, ← c, ← d, ← e) wf;
    workspace = write_workspace-Keeps;
    supersession = supersede_if_named-Keeps;
    decision = insert_decision-Keeps;
    assessment = insert_assessment-Keeps;
    conflict = insert_conflict-Keeps;
    status = write_status-Keeps;
    resolution = insert_resolution-Keeps;
  }

  module _ ⦃fl : Float64 F⦄ where
    -- Through any sequence of calls, whether each succeeds or fails, identifiers of workspaces,
    -- decisions and conflicts stay unique, and each decision and conflict keeps its workspace, each
    -- assessment its decision and each resolution its conflict.
    pub replay-WellFormed :
        (ws : List (Write F G)) (s : Db F G) → WellFormed s → WellFormed (replay ws s)
    replay-WellFormed ws s wf = replay-Preserves WellFormed WellFormed-Stable ws s wf
