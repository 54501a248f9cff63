-- ===== src/Sqlite/Queries.antt =====
-- The queries for decisions of internal/adapters/sqlite/store.go.
use Prim.Native.Char.{Char, code}
use Prim.Native.String.{[], ◌∷◌}
use tuskbase.Common.{
  ℕ, String, Bool, true, false, not, ◌&&◌, ◌||◌, ◌==◌, eqb, if◌then◌else◌, List, [], ◌∷◌, take, any,
  select, join, ok, Exec, Float64, lt, le, hundredths,
}
use tuskbase.Domain.Types.{DecisionRelationship, Decision, is_active}
use tuskbase.Ports.{DecisionQuery}
use tuskbase.Sqlite.Tables.{Db, Engine, latest_first, row_limit, reading}
use tuskbase.Sqlite.Children.{load_decision_children}
use tuskbase.Sqlite.Decisions.{scan_decision}
use tuskbase.Sqlite.Tokens.{search_tokens}

-- `lower` of SQL changes ASCII letters alone.
unfoldable pub sql_lower_from : String → String → Char → Char
sql_lower_from (u ∷ us) (l ∷ ls) c = if eqb (code u) (code c) then l else sql_lower_from us ls c
sql_lower_from _ _ c = c

unfoldable pub sql_lower : String → String
unfolding sql_lower_from
sql_lower [] = []
sql_lower (c ∷ s) =
    sql_lower_from "ABCDEFGHIJKLMNOPQRSTUVWXYZ" "abcdefghijklmnopqrstuvwxyz" c ∷ sql_lower s

-- A token at the start of a text, as `LIKE` reads it: `_` stands for any character.
unfoldable pub like_prefix : String → String → Bool
like_prefix [] s = true
like_prefix (p ∷ ps) [] = false
like_prefix (p ∷ ps) (c ∷ s) = (eqb (code p) b'_' || eqb (code p) (code c)) && like_prefix ps s

-- `LIKE '%' || token || '%'`
unfoldable pub like_contains : String → String → Bool
unfolding like_prefix
like_contains token [] = like_prefix token []
like_contains token (c ∷ s) = like_prefix token (c ∷ s) || like_contains token s

module _ {F : Type 0} where
  unfoldable pub searched_text : Decision F → String
  unfolding sql_lower join
  searched_text d = sql_lower (
      join (d.type ∷ d.title ∷ d.outcome ∷ d.rationale ∷ d.precedent_ref ∷ d.supersedes_id ∷ [])
        " ")

  -- A clause for each token.
  unfoldable pub has_tokens : List String → Decision F → Bool
  unfolding searched_text like_contains
  has_tokens [] d = true
  has_tokens (t ∷ ts) d = like_contains t (searched_text d) && has_tokens ts d

  -- The row of `decision_relationships` that the `EXISTS` looks for; an empty target or type is not
  -- compared.
  unfoldable pub related_row : DecisionQuery F → Decision F → DecisionRelationship F → Bool
  related_row q d r =
      r.from_decision_id == d.id
      && r.workspace_id == d.workspace_id
      && (q.relationship_to == "" || r.to_decision_id == q.relationship_to)
      && (q.relationship_type == "" || r.type == q.relationship_type)

  unfoldable pub recent_row : String → Decision F → Bool
  unfolding is_active
  recent_row workspace_id d = d.workspace_id == workspace_id && is_active d

module _ {F G : Type 0} where
  unfoldable pub related : Db F G → DecisionQuery F → Decision F → Bool
  unfolding related_row
  related db q d =
      (q.relationship_to == "" && q.relationship_type == "")
      || any (related_row q d) db.decision_relationships

  -- The rows of a cursor, then the children of each.
  unfoldable pub load_decisions : Db F G → List (Decision F) → List (Decision F)
  unfolding scan_decision load_decision_children
  load_decisions db [] = []
  load_decisions db (r ∷ rs) = load_decision_children db (scan_decision r) ∷ load_decisions db rs

  module _ (engine : Engine F G) where
    unfoldable pub find_recent : String → ℕ → Db F G → List (Decision F)
    unfolding recent_row load_decisions latest_first
    find_recent workspace_id limit db = load_decisions db (
        take limit
          (latest_first engine (λ d. d.created_at) (select (recent_row workspace_id) db.decisions)))

    unfoldable pub recent_decisions : String → ℕ → Exec (Db F G) (List (Decision F))
    unfolding find_recent
    recent_decisions workspace_id limit = reading (λ db. ok (find_recent workspace_id limit db))

    module _ ⦃fl : Float64 F⦄ where
      -- The clauses of the `WHERE`.
      unfoldable pub asked_row : Db F G → DecisionQuery F → Decision F → Bool
      unfolding has_tokens related search_tokens sql_lower
      asked_row db q d =
          d.workspace_id == q.workspace_id
          && (q.type == "" || sql_lower d.type == sql_lower q.type)
          && (q.status == "" || d.status == q.status)
          && (not (lt (hundredths 0) q.min_confidence) || le q.min_confidence d.confidence)
          && has_tokens (search_tokens q.text) d
          && related db q d

      unfoldable pub find_decisions : DecisionQuery F → Db F G → List (Decision F)
      unfolding asked_row load_decisions latest_first row_limit
      find_decisions q db = load_decisions db (
          take (row_limit 10 q.limit)
            (latest_first engine (λ d. d.created_at) (select (asked_row db q) db.decisions)))

      unfoldable pub query_decisions : DecisionQuery F → Exec (Db F G) (List (Decision F))
      unfolding find_decisions
      query_decisions q = reading (λ db. ok (find_decisions q db))
