-- ===== src/App/Lookup.antt =====
-- `Lookup`, `Recent` and `Conflicts` of internal/app/service.go, and the decisions behind search
-- results of internal/app/workflows.go.
pub mod Candidates
use tuskbase.Common.{
  ℕ, String, Bool, ◌==◌, ◌&&◌, not, leb, if◌then◌else◌, List, [], ◌∷◌, ◌++◌, length, mem_text,
  trim_space, Result, ok, message, fail_if, Exec, pure, lift, call, ◌>>=◌, ◌>>◌,
}
use tuskbase.Domain.Types.{Decision, Conflict, LookupReceipt, LookupReceiptResult, is_active}
use tuskbase.Ports.{SearchResult}
use tuskbase.App.Auth.{Context, require_read}
use tuskbase.App.Service.{Service, default_limit, bounded_limit, is_decision_bound_result}

pub record LookupInput : Type 0 where
  pub workspace_id : String
  pub query : String
  pub limit : ℕ

pub record LookupOutput (F : Type 0) : Type 0 where
  pub results : List (SearchResult F)
  pub receipt : LookupReceipt F

-- `if text == "" { return message }`
abbrev pub required : String → String → Result (Unit {0})
required text m = fail_if (text == "") (message m) (ok tt)

unfoldable pub receipt_results : {F : Type 0} → List (SearchResult F) → List (LookupReceiptResult F)
receipt_results [] = []
receipt_results (r ∷ rs) =
    record {
      kind = r.kind;
      entity_id = r.entity_id;
      workspace_id = r.workspace_id;
      title = r.title;
      path = r.path;
      snippet = r.snippet;
      score = r.score;
    }
    ∷ receipt_results rs

module _ {F S : Type 0} (svc : Service F S) where
  unfoldable pub lookup : Context → LookupInput → Exec S (LookupOutput F)
  unfolding receipt_results
  lookup ctx input = do
    lift (require_read ctx)
    let workspace_id = trim_space input.workspace_id
    let query = trim_space input.query
    lift (required workspace_id "workspace_id is required")
    lift (required query "query is required")
    let limit = if leb input.limit 0 then default_limit else input.limit
    results ←
        svc.search.search (record { workspace_id = workspace_id; query = query; limit = limit })
    id ← call svc.ids
    now ← call svc.clock
    let receipt : LookupReceipt F = record {
      id = id;
      workspace_id = workspace_id;
      query = query;
      result_count = length results;
      results = receipt_results results;
      created_at = now;
    }
    svc.store.save_lookup_receipt receipt
    pure (record { results = results; receipt = receipt })

  unfoldable pub recent : Context → String → ℕ → Exec S (List (Decision F))
  recent ctx workspace_id limit = do
    lift (require_read ctx)
    let id = trim_space workspace_id
    lift (required id "workspace_id is required")
    svc.store.recent_decisions id (if leb limit 0 then default_limit else limit)

  unfoldable pub open_conflicts : Context → String → Exec S (List (Conflict F))
  open_conflicts ctx workspace_id = do
    lift (require_read ctx)
    let id = trim_space workspace_id
    lift (required id "workspace_id is required")
    svc.store.list_open_conflicts id

-- What the loops over results and over recent decisions have collected.
pub record Found (F : Type 0) : Type 0 where
  pub seen : List String
  pub decisions : List (Decision F)

module _ {F : Type 0} where
  -- `decisions = append(decisions, decision)` under a test.
  abbrev pub append_if : Bool → Decision F → Found F → Found F
  append_if test d found =
      if test then record found { decisions = found.decisions ++ d ∷ [] } else found

  abbrev pub mark : String → Found F → Found F
  mark id found = record found { seen = id ∷ found.seen }

  -- The loop over recent decisions, which ends at the limit.
  unfoldable pub add_recent : ℕ → List (Decision F) → Found F → Found F
  add_recent limit [] found = found
  add_recent limit (d ∷ ds) found =
      let next = append_if (is_active d) d (mark d.id found) in
      let skipped = add_recent limit ds found in
      let more = add_recent limit ds next in
      if mem_text d.id found.seen
      then skipped
      else if leb limit (length next.decisions)
      then next
      else more

module _ {F S : Type 0} (svc : Service F S) where
  -- The loop over search results, which ends at the limit.
  unfoldable pub add_results : String → ℕ → List (SearchResult F) → Found F → Exec S (Found F)
  add_results workspace_id limit [] found = pure found
  add_results workspace_id limit (r ∷ rs) found =
      let skipped = add_results workspace_id limit rs found in
      let fetched = (do
        d ← svc.store.get_decision r.entity_id
        let next =
            append_if (d.workspace_id == workspace_id && is_active d) d (mark r.entity_id found)
        let more = add_results workspace_id limit rs next
        if leb limit (length next.decisions) then pure next else more) in
      if not (is_decision_bound_result r.kind)
      then skipped
      else if mem_text r.entity_id found.seen
      then skipped
      else fetched

  -- Recent decisions fill up what the results leave.
  unfoldable pub fill_recent : String → ℕ → Found F → Exec S (List (Decision F))
  unfolding add_recent
  fill_recent workspace_id limit found = do
    ds ← svc.store.recent_decisions workspace_id limit
    pure (add_recent limit ds found).decisions

  unfoldable pub decisions_for_results :
      String → List (SearchResult F) → ℕ → Exec S (List (Decision F))
  unfolding add_results fill_recent
  decisions_for_results workspace_id results limit = do
    let n = bounded_limit limit default_limit
    found ← add_results workspace_id n results (record { seen = []; decisions = [] })
    if leb n (length found.decisions)
        then pure found.decisions
        else fill_recent workspace_id n found

  unfoldable pub candidate_decisions : String → String → ℕ → Exec S (List (Decision F))
  unfolding decisions_for_results
  candidate_decisions workspace_id text limit = do
    let n = bounded_limit limit default_limit
    results ← svc.search.search (record { workspace_id = workspace_id; query = text; limit = n })
    decisions_for_results workspace_id results n
