-- ===== src/Sqlite/Vectors.antt =====
-- The vector index of internal/adapters/sqlite/store.go.
pub mod Scope
use Prim.Native.String.{len}
use Prim.Native.String
use tuskbase.Common.{
  take_text, ℕ, suc, zero, String, Bool, true, false, not, ◌&&◌, ◌||◌, ◌==◌, leb, eqb,
  if◌then◌else◌, is_blank, trim_space, ◌⧺◌, List, [], ◌∷◌, ◌++◌, length, take, any, select, map,
  Option, none, some, Result, ok, Exec, pure, ◌>>=◌, Float64, add, mul, div, same, lt, hundredths,
  sort_stable,
}
use tuskbase.Ports.{VectorRecord, VectorQuery, SearchResult}
use tuskbase.Sqlite.Tables.{Db, Engine, VectorRow, update, reading, statement}
use tuskbase.Sqlite.Index.{is_searchable}

-- `text[:240]` counts bytes, which in ASCII are characters.
unfoldable pub snippet_text : String → String
unfolding trim_space take_text
snippet_text given =
    let text = trim_space given in if leb (len text) 240 then text else take_text 240 text ⧺ "..."

module _ {G : Type 0} where
  -- `PRIMARY KEY(workspace_id, kind, entity_id, path)`
  unfoldable pub same_vector : VectorRow G → VectorRow G → Bool
  same_vector a b =
      b.workspace_id == a.workspace_id
      && b.kind == a.kind
      && b.entity_id == a.entity_id
      && b.path == a.path

  -- `DO UPDATE SET`
  unfoldable pub renew_vector : VectorRow G → VectorRow G → VectorRow G
  renew_vector excluded r = record r {
    title = excluded.title;
    body = excluded.body;
    vector = excluded.vector;
  }

  unfoldable pub put_vector : VectorRow G → List (VectorRow G) → List (VectorRow G)
  unfolding same_vector renew_vector update
  put_vector row rows =
      if any (same_vector row) rows
      then update (same_vector row) (renew_vector row) rows
      else rows ++ row ∷ []

  -- `len(v) == 0`
  unfoldable pub is_empty : List G → Bool
  is_empty [] = true
  is_empty (x ∷ xs) = false

  -- A record without a vector has none of length 0 either.
  abbrev pub vector_of : Option (List G) → List G
  vector_of none = []
  vector_of (some v) = v

  unfoldable pub vector_row : VectorRecord (List G) → VectorRow G
  unfolding snippet_text
  vector_row r = record {
    workspace_id = r.workspace_id;
    kind = r.kind;
    entity_id = r.entity_id;
    title = r.title;
    path = r.path;
    body = snippet_text r.text;
    vector = vector_of r.vector;
  }

module _ {F : Type 0} ⦃fl : Float64 F⦄ where
  unfoldable pub higher_score : SearchResult F → SearchResult F → Bool
  higher_score a b = lt b.score a.score

module _ {F G : Type 0} where
  unfoldable pub upsert_vector : VectorRecord (List G) → Exec (Db F G) (Unit {0})
  unfolding is_empty vector_row put_vector
  upsert_vector r =
      if is_blank r.workspace_id || is_empty (vector_of r.vector)
      then pure tt
      else statement
          (λ db. ok (record db { vector_index = put_vector (vector_row r) db.vector_index }))

  module _ (engine : Engine F G) ⦃fl : Float64 F⦄ where
    -- The loop of `cosine`: the sums of the products, of the squares of `a`, and of those of `b`.
    unfoldable pub cosine_sums : List G → List G → F → F → F → F × F × F
    cosine_sums (x ∷ xs) (y ∷ ys) dot na nb =
        let av = engine.widen x in
        let bv = engine.widen y in
        cosine_sums xs ys (add dot (mul av bv)) (add na (mul av av)) (add nb (mul bv bv))
    cosine_sums _ _ dot na nb = (dot, na, nb)

    unfoldable pub cosine_of : F × F × F → F
    cosine_of (dot, na, nb) =
        if same na (hundredths 0) || same nb (hundredths 0)
        then hundredths 0
        else div dot (mul (engine.sqrt na) (engine.sqrt nb))

    unfoldable pub cosine : List G → List G → F
    unfolding is_empty cosine_sums cosine_of
    cosine a b =
        if is_empty a || is_empty b || not (eqb (length a) (length b))
        then hundredths 0
        else cosine_of (cosine_sums a b (hundredths 0) (hundredths 0) (hundredths 0))

    unfoldable pub comparable_row : Db F G → String → VectorRow G → Bool
    unfolding is_searchable is_empty
    comparable_row db workspace_id r =
        r.workspace_id == workspace_id
        && is_searchable db r.kind r.entity_id r.workspace_id
        && not (is_empty r.vector)

    unfoldable pub vector_result : List G → VectorRow G → SearchResult F
    unfolding cosine
    vector_result v r = record {
      kind = r.kind;
      entity_id = r.entity_id;
      workspace_id = r.workspace_id;
      title = r.title;
      path = r.path;
      snippet = r.body;
      score = cosine v r.vector;
    }

    unfoldable pub find_vectors : VectorQuery (List G) → Db F G → List (SearchResult F)
    unfolding is_empty comparable_row vector_result higher_score sort_stable
    find_vectors q db =
        if is_empty q.vector || is_blank q.workspace_id
        then []
        else take (if leb q.limit 0 then 10 else q.limit) (
            sort_stable higher_score (
              map (vector_result q.vector)
                (select (comparable_row db q.workspace_id) db.vector_index)))

    unfoldable pub search_vector : VectorQuery (List G) → Exec (Db F G) (List (SearchResult F))
    unfolding find_vectors
    search_vector q = reading (λ db. ok (find_vectors q db))
