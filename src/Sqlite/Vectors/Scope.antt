-- ===== src/Sqlite/Vectors/Scope.antt =====
-- What the searches of internal/adapters/sqlite/store.go may return.
use tuskbase.Common.{
  ℕ, ◌≤◌, String, true, ◌||◌, ◌==◌, leb, Bool-cases, if◌then◌else◌, List, take, length, length-take,
  is_blank, All, Float64, ◌≡◌, inl, inr, arith, eq_iff,
}
use mathlib.Core.Path.{subst}
use tuskbase.Ports.{SearchQuery, SearchResult, VectorQuery}
use tuskbase.Sqlite.Tables.{Db, Engine, IndexRow, VectorRow}
use tuskbase.Sqlite.Tables.Rows.{select-All, sort_stable-All, take-All, map-All, length-map}
use tuskbase.Sqlite.Tokens.{fts_query}
use tuskbase.Sqlite.Index.{is_searchable, matching_row, text_result, rank_before, find_text}
use tuskbase.Sqlite.Vectors.{is_empty, comparable_row, vector_result, higher_score, find_vectors}

-- The limit of a search: ten where none is given.
abbrev pub search_limit : ℕ → ℕ
search_limit limit = if leb limit 0 then 10 else limit

module _ {F G : Type 0} where
  -- A result of the workspace that is a document, or belongs to a decision that is active there.
  abbrev pub InScope : Db F G → String → SearchResult F → Type 0
  InScope db w r = (r.workspace_id ≡ w) × (is_searchable db r.kind r.entity_id w ≡ true)

  module _ (engine : Engine F G) ⦃fl : Float64 F⦄ where
    text_result-InScope :
        (db : Db F G) (match w : String) (r : IndexRow)
        → matching_row engine db match w r ≡ true
        → InScope db w (text_result engine db match r)
    unfolding matching_row text_result
    text_result-InScope db match w r h =
        let own : r.workspace_id ≡ w = ground (arith, eq_iff r.workspace_id w) in
        (own, subst (λ x. is_searchable db r.kind r.entity_id x ≡ true) own (ground arith))

    vector_result-InScope :
        (db : Db F G) (v : List G) (w : String) (r : VectorRow G)
        → comparable_row engine db w r ≡ true
        → InScope db w (vector_result engine v r)
    unfolding comparable_row vector_result
    vector_result-InScope db v w r h =
        let own : r.workspace_id ≡ w = ground (arith, eq_iff r.workspace_id w) in
        (own, subst (λ x. is_searchable db r.kind r.entity_id x ≡ true) own (ground arith))

    pub find_text-InScope :
        (q : SearchQuery) (db : Db F G)
        → (length (find_text engine q db) ≤ search_limit q.limit)
          × All (InScope db q.workspace_id) (find_text engine q db)
    unfolding find_text
    find_text-InScope q db = elim (Bool-cases (fts_query q.query == "")) [
      | inl nothing ↦ rw nothing (ground arith, tt)
      | inr some_ ↦ rw some_ (
        rw (length-map (text_result engine db (fts_query q.query)) (take (search_limit q.limit) _))
            (length-take (search_limit q.limit) _),
        map-All (InScope db q.workspace_id)
            (λ r. matching_row engine db (fts_query q.query) q.workspace_id r ≡ true)
            (text_result engine db (fts_query q.query)) _
            (λ r h. text_result-InScope db (fts_query q.query) q.workspace_id r h)
            (take-All _ (search_limit q.limit) _ (
              sort_stable-All _ (rank_before engine db (fts_query q.query)) _ (
                select-All _ (matching_row engine db (fts_query q.query) q.workspace_id)
                  db.search_index (λ r h. h)))),
      )
    ]

    find_vectors-InScope :
        (q : VectorQuery (List G)) (db : Db F G)
        → (length (find_vectors engine q db) ≤ search_limit q.limit)
          × All (InScope db q.workspace_id) (find_vectors engine q db)
    unfolding find_vectors
    find_vectors-InScope q db = elim (Bool-cases (is_empty q.vector || is_blank q.workspace_id)) [
      | inl nothing ↦ rw nothing (ground arith, tt)
      | inr some_ ↦ rw some_ (
        length-take (search_limit q.limit) _,
        take-All _ (search_limit q.limit) _ (
            sort_stable-All _ higher_score _ (
              map-All (InScope db q.workspace_id)
                (λ r. comparable_row engine db q.workspace_id r ≡ true)
                (vector_result engine q.vector) _
                (λ r h. vector_result-InScope db q.vector q.workspace_id r h)
                (select-All _ (comparable_row engine db q.workspace_id) db.vector_index
                  (λ r h. h)))),
      )
    ]

    -- A text search and a vector search each return at most as many results as asked for, ten where
    -- no number is given, all of the workspace asked about, and each a document or part of a decision
    -- that is active there.
    pub searches-InScope :
        (db : Db F G) (q : SearchQuery) (v : VectorQuery (List G))
        → (length (find_text engine q db) ≤ search_limit q.limit)
          × All (InScope db q.workspace_id) (find_text engine q db)
          × (length (find_vectors engine v db) ≤ search_limit v.limit)
          × All (InScope db v.workspace_id) (find_vectors engine v db)
    searches-InScope db q v =
        let (short, own) = find_text-InScope q db in
        let (few, near) = find_vectors-InScope v db in (short, own, few, near)
