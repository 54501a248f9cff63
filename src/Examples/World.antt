-- ===== src/Examples/World.antt =====
-- A store that always answers, and numbers in hundredths.
use tuskbase.Common.{
  arith, ℕ, ◌+◌, ◌-◌, ◌*◌, ◌/◌, ◌≡◌, refl, sym, ap, ltb, leb, eqb, none, some, List, [], ◌∷◌, ◌++◌,
  Result, ok, err, external, Accepted, raise, pure, Float64,
}
use tuskbase.Domain.Parse.{actor_agent, decision_active, severity_high, conflict_open}
use tuskbase.Domain.Types.{Actor, RepoDocument, Workspace, Decision, Conflict}
use tuskbase.Ports.{Store, SearchIndex, SearchResult}
use tuskbase.App.Auth.{Context, role_agent, role_reader}
use tuskbase.App.Service.{Service, Repository}
use tuskbase.App.Service.Ledger.{ConflictLog}

-- A number counts hundredths.
instance abbrev pub hundredth_float : Float64 ℕ
hundredth_float = record {
  lt = ltb;
  le = leb;
  same = eqb;
  add = λ a b. a + b;
  sub = λ a b. a - b;
  mul = λ a b. a * b / 100;
  div = λ a b. a * 100 / b;
  neg = λ a. 0;
  hundredths = λ n. n;
  of_nat = λ n. n * 100;
  whole = λ a. a / 100 * 100;
}

abbrev pub agent : Actor
agent = record { kind = actor_agent; name = "codex" }

abbrev pub writer : Context
writer = record {
  principal =
      some (record { subject = "codex"; role = role_agent; actor = agent; auth_source = "token" });
}

abbrev pub reader : Context
reader = record {
  principal =
      some
        (record { subject = "viewer"; role = role_reader; actor = agent; auth_source = "token" });
}

abbrev pub readme : RepoDocument
readme = record {
  id = "doc";
  workspace_id = "w";
  path = "README.md";
  title = "Readme";
  content = "Events";
  chunk_index = 0;
  created_at = 1;
  updated_at = 1;
}

abbrev pub home : Workspace
home = record {
  id = "w";
  repo_root = "/repo";
  display_name = "repo";
  repo_fingerprint = "f";
  detected_docs = [];
  created_at = 1;
  updated_at = 1;
}

abbrev pub kafka : Decision ℕ
kafka = record {
  id = "d1";
  workspace_id = "w";
  actor = agent;
  type = "architecture";
  title = "Use Kafka";
  outcome = "use kafka for billing events";
  rationale = "";
  confidence = 90;
  status = decision_active;
  valid_from = 1;
  valid_to = none;
  transaction_time = 1;
  alternatives = [];
  claims = [];
  evidence = [];
  relationships = [];
  precedent_ref = "";
  supersedes_id = "d0";
  completeness_score = 50;
  metadata = [];
  created_at = 1;
  updated_at = 1;
}

abbrev pub dispute : Conflict ℕ
dispute = record {
  id = "c1";
  workspace_id = "w";
  decision_id = "d2";
  proposal = "";
  conflicting_with_id = "d1";
  summary = "They differ.";
  severity = severity_high;
  confidence = 90;
  status = conflict_open;
  created_at = 1;
  resolved_at = none;
}

abbrev pub hit : SearchResult ℕ
hit = record {
  kind = "decision";
  entity_id = "d1";
  workspace_id = "w";
  title = "Use Kafka";
  path = "";
  snippet = "";
  score = 80;
}

-- The state is the list of the conflicts that were saved.
abbrev pub World : Type 0
World = List (Conflict ℕ)

abbrev pub world_store : Store ℕ World
world_store = record {
  upsert_workspace = λ w. pure w;
  get_workspace = λ id. pure home;
  save_decision = λ d. pure tt;
  get_decision = λ id. pure kafka;
  recent_decisions = λ id n. pure (record kafka { workspace_id = id } ∷ []);
  query_decisions = λ q. pure (kafka ∷ []);
  upsert_decision_candidate = λ c. pure c;
  get_decision_candidate = λ id. raise (external "not found");
  list_decision_candidates = λ q. pure [];
  update_decision_candidate_status = λ u. raise (external "not found");
  replace_workspace_documents = λ id docs. pure tt;
  list_workspace_documents = λ id n. pure (readme ∷ []);
  save_lookup_receipt = λ r. pure tt;
  save_assessment = λ a. pure tt;
  list_assessments = λ q. pure [];
  save_conflict = λ c s. (ok tt, s ++ c ∷ []);
  get_conflict = λ id. pure dispute;
  list_open_conflicts = λ id s. (ok s, s);
  list_conflicts = λ q s. (ok s, s);
  resolve_conflict =
      λ id status now r. pure (record dispute { status = status; resolved_at = some now });
}

abbrev pub world_search : SearchIndex ℕ World
world_search = record {
  index_decision = λ d. pure tt;
  index_document = λ d. pure tt;
  search = λ q. pure (hit ∷ []);
}

abbrev pub world : Service ℕ World
world = record {
  store = world_store;
  search = world_search;
  ids = λ s. ("id", s);
  clock = λ s. (7, s);
  validator = none;
}

abbrev pub log : World → List (Conflict ℕ)
log s = s

pub world-ConflictLog : ConflictLog world log
world-ConflictLog = record {
  ids_keep = λ s. refl;
  clock_keep = λ s. refl;
  validator_keep = λ v e q s. absurd (none_some e);
  clock_set = λ s. ground arith;
  saved = λ c s t is_open set unresolved h. sym (ap (λ p. p.1) h);
}
  where
    none_some : {A : Type 0} {a : A} → none ≡ some a → ⊥
    none_some e = cc

abbrev pub repository : Repository
repository = record {
  resolve_repo_root = λ path. ok path;
  scan_repo_documents = λ root. ok (readme ∷ []);
  workspace_id = λ root. "w";
  repo_fingerprint = λ root. "f";
  base_name = λ root. "repo";
}

-- What a run that succeeded returned, and the state it ended in.
abbrev pub outcome : {A S : Type 0} (p : Result A × S) → Accepted p.0 → A × S
outcome (ok a, s) h = (a, s)
outcome (err e, s) h = absurd h

pub outcome_lem :
    {A S : Type 0} (p : Result A × S) (h : Accepted p.0) → p ≡ (ok (outcome p h).0, (outcome p h).1)
outcome_lem (ok a, s) h = refl
outcome_lem (err e, s) h = absurd h
