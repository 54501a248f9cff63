-- ===== src/Sqlite/Adapter/Served.antt =====
-- The recent decisions of internal/adapters/sqlite/store.go, and what internal/app makes of them.
use tuskbase.Sqlite.Index.{is_searchable, find_text, search}
use tuskbase.Sqlite.Vectors.Scope.{InScope, find_text-InScope}
use tuskbase.Sqlite.Tables.Runs.{ok-injective}
use tuskbase.Common.{
  text_eq, mem_text, leb, Bool-cases, ℕ, ◌≤◌, String, true, false, ◌&&◌, ◌==◌, List, [], ◌∷◌, take,
  length, length-take, All, Option, Option-cases, ok, Float64, ◌≡◌, refl, ap, inl, inr, arith,
  eq_iff,
}
use mathlib.Core.Path.{subst}
use tuskbase.Domain.Types.{Decision, is_active}
use tuskbase.Ports.{SearchQuery, SearchResult, IdGenerator, Clock, RelationshipValidator}
use tuskbase.App.Service.Limits.{limits}
use tuskbase.App.Service.{Service, bounded_limit, default_limit, is_decision_bound_result}
use tuskbase.App.Lookup.{
  Found, add_recent, append_if, mark, add_results, fill_recent, decisions_for_results,
  candidate_decisions,
}
use tuskbase.App.Lookup.Candidates.{Serves, IsGood, RecentAreOwn, decisions_for_results-IsGood}
use tuskbase.Sqlite.Tables.{Db, Engine, latest_first, active_row, has_active_decision, with_key}
use tuskbase.Sqlite.Tables.Rows.{
  select-All, first-any, any_mono, sort_stable-All, take-All, All-map,
}
use tuskbase.Sqlite.Children.{load_decision_children}
use tuskbase.Sqlite.Decisions.{scan_decision, find_decision, get_decision}
use tuskbase.Sqlite.Queries.{recent_row, load_decisions, find_recent, recent_decisions}
use tuskbase.Sqlite.Adapter.{sqlite_store, sqlite_search}

module _ {F : Type 0} where
  row-Serves : (w : String) (r : Decision F) → recent_row w r ≡ true → Serves w r
  unfolding recent_row is_active
  row-Serves w r h = (ground (arith, eq_iff r.workspace_id w), ground arith)

  -- A decision that is active is read as one.
  scan_decision-is_active :
      (r : Decision F) → is_active r ≡ true → is_active (scan_decision r) ≡ true
  unfolding is_active scan_decision
  scan_decision-is_active r h = elim (Option-cases r.valid_to) [
    | inl unset ↦ rw unset refl
    | inr (t, set) ↦ let g : false ≡ true = rw set at h in cc
  ]

module _ {F G : Type 0} where
  load_decisions-All :
      (P : Decision F → Type 0) (db : Db F G) (rows : List (Decision F))
      → ((r : Decision F) → P r → P (load_decision_children db (scan_decision r)))
      → All P rows
      → All P (load_decisions db rows)
  unfolding load_decisions
  load_decisions-All P db [] h q = tt
  load_decisions-All P db (r ∷ rs) h (q, qs) = (h r q, load_decisions-All P db rs h qs)

  length-load_decisions :
      (db : Db F G) (rows : List (Decision F)) → length (load_decisions db rows) ≡ length rows
  unfolding load_decisions
  length-load_decisions db [] = refl
  length-load_decisions db (r ∷ rs) = omega (arith, length-load_decisions db rs)

  load-Serves :
      (w : String) (db : Db F G) (r : Decision F)
      → Serves w r
      → Serves w (load_decision_children db (scan_decision r))
  unfolding load_decision_children scan_decision is_active
  load-Serves w db r (own, active) = (own, scan_decision-is_active r active)

  module _ (engine : Engine F G) where
    -- The recent decisions are at most as many as asked for, active, and of the workspace.
    pub find_recent-Serves :
        (w : String) (n : ℕ) (db : Db F G)
        → (length (find_recent engine w n db) ≤ n) × All (Serves w) (find_recent engine w n db)
    unfolding find_recent latest_first
    find_recent-Serves w n db = (
      rw (length-load_decisions db (take n _)) (length-take n _),
      load_decisions-All (Serves w) db _ (load-Serves w db) (
          take-All (Serves w) n _ (
            sort_stable-All (Serves w) _ _
              (select-All (Serves w) (recent_row w) db.decisions (row-Serves w)))),
    )

bound_kind : (kind : String) → is_decision_bound_result kind ≡ true → (kind == "document") ≡ false
unfolding is_decision_bound_result
bound_kind kind h = elim (Bool-cases (kind == "document")) [
  | inl is ↦
      let g : false ≡ true =
        subst (λ k. is_decision_bound_result k ≡ true) (text_eq kind "document" is) h in
      cc
  | inr not_ ↦ not_
]

module _ {F G : Type 0} ⦃fl : Float64 F⦄ (engine : Engine F G) (ids : IdGenerator (Db F G))
    (clock : Clock (Db F G)) (validator : Option (RelationshipValidator F (Db F G))) where
  -- The application on this store.
  abbrev pub on_sqlite : Service F (Db F G)
  on_sqlite = record {
    store = sqlite_store engine;
    search = sqlite_search engine;
    ids = ids;
    clock = clock;
    validator = validator;
  }

  on_sqlite-RecentAreOwn : RecentAreOwn on_sqlite
  unfolding sqlite_store recent_decisions
  on_sqlite-RecentAreOwn w n s t ds h =
      let same : find_recent engine w n s ≡ ds = ok-injective _ ds (ap (λ p. p.0) h) in
      subst (All (λ (d : Decision F). d.workspace_id ≡ w)) same (
        All-map (Serves w) _ (find_recent engine w n s) (λ d good. good.0)
          (find_recent-Serves engine w n s).1)

  -- The decision of a result can be read.
  abbrev Readable : Db F G → SearchResult F → Type 0
  Readable s r =
      is_decision_bound_result r.kind ≡ true
      → (d : Decision F) × (find_decision r.entity_id s ≡ ok d)

  has_active_decision-find_decision :
      (s : Db F G) (id w : String)
      → has_active_decision s id w ≡ true
      → (d : Decision F) × (find_decision id s ≡ ok d)
  unfolding has_active_decision active_row find_decision
  has_active_decision-find_decision s id w h =
      let (d, found, _) = first-any (with_key (λ d. d.id) id) s.decisions (
        any_mono (active_row id w) (with_key (λ d. d.id) id) s.decisions (λ x e. ground arith) h) in
      (load_decision_children s (scan_decision d), rw found refl)

  InScope-Readable : (s : Db F G) (w : String) (r : SearchResult F) → InScope s w r → Readable s r
  unfolding is_searchable
  InScope-Readable s w r (own, found) bound =
      has_active_decision-find_decision s r.entity_id w (rw (bound_kind r.kind bound) at found)

  add_results-Accepted :
      (w : String) (n : ℕ) (rs : List (SearchResult F)) (found : Found F) (s : Db F G)
      → All (Readable s) rs
      → (end : Found F) × (add_results on_sqlite w n rs found s ≡ (ok end, s))
  unfolding add_results sqlite_store get_decision
  add_results-Accepted w n [] found s h = (found, refl)
  add_results-Accepted w n (r ∷ rs) found s (readable, more) =
      elim (Bool-cases (is_decision_bound_result r.kind)) [
        | inr other ↦ let (end, e) = add_results-Accepted w n rs found s more in (end, rw other e)
        | inl bound ↦ elim (Bool-cases (mem_text r.entity_id found.seen)) [
          | inl old ↦
              let (end, e) = add_results-Accepted w n rs found s more in (end, rw (bound, old) e)
          | inr new ↦
              let (d, read) = readable bound in
              let next =
                append_if (d.workspace_id == w && is_active d) d (mark r.entity_id found) in
              elim (Bool-cases (leb n (length next.decisions))) [
                | inl full ↦ (next, rw (bound, new, read, full) refl)
                | inr room ↦
                    let (end, e) = add_results-Accepted w n rs next s more in
                    (end, rw (bound, new, read, room) e)
              ]
        ]
      ]

  decisions_for_results-Accepted :
      (w : String) (rs : List (SearchResult F)) (limit : ℕ) (s : Db F G)
      → All (Readable s) rs
      → (ds : List (Decision F)) × (decisions_for_results on_sqlite w rs limit s ≡ (ok ds, s))
  unfolding decisions_for_results fill_recent sqlite_store recent_decisions
  decisions_for_results-Accepted w rs limit s h =
      let n = bounded_limit limit default_limit in
      let (found, e) = add_results-Accepted w n rs (record { seen = []; decisions = [] }) s h in
      elim (Bool-cases (leb n (length found.decisions))) [
        | inl full ↦ (found.decisions, rw (e, full) refl)
        | inr room ↦ ((add_recent n (find_recent engine w n s) found).decisions, rw (e, room) refl)
      ]

  -- On this store the decisions that a proposal is compared with are always found and the database is
  -- left alone: they are at most the bounded limit, active, and of the workspace.
  pub candidate_decisions-on_sqlite :
      (w text : String) (limit : ℕ) (s : Db F G)
      → (ds : List (Decision F)) × (candidate_decisions on_sqlite w text limit s ≡ (ok ds, s))
        × IsGood w (bounded_limit limit default_limit) ds
  unfolding candidate_decisions sqlite_search search
  candidate_decisions-on_sqlite w text limit s =
      let n = bounded_limit limit default_limit in
      let q : SearchQuery = record { workspace_id = w; query = text; limit = n } in
      let results = find_text engine q s in
      let readable : All (Readable s) results =
        All-map (InScope s w) (Readable s) results (InScope-Readable s w)
          (find_text-InScope engine q s).1 in
      let (ds, e) = decisions_for_results-Accepted w results n s readable in
      let good : IsGood w (bounded_limit n default_limit) ds =
        decisions_for_results-IsGood on_sqlite w results n s ds s on_sqlite-RecentAreOwn e in
      let (_, _, _, positive, bounded, _) = limits limit default_limit (omega arith) in
      let same : bounded_limit n default_limit ≡ n =
        (limits n default_limit (omega arith)).5 positive bounded in
      (ds, e, subst (λ (k : ℕ). IsGood w k ds) same good)
