-- ===== src/App/Workflows/Query.antt =====
-- `Query` of internal/app/workflows.go.
pub mod Filters
use tuskbase.Common.{
  ℕ, String, is_blank, if◌then◌else◌, List, length, trim_space, Result, ok, err, Exec, pure, lift,
  ◌>>=◌, ◌>>◌,
}
use tuskbase.Domain.Parse.{
  DecisionStatus, RelationshipType, parse_decision_status, parse_relationship_type,
}
use tuskbase.Domain.Types.{Decision}
use tuskbase.Ports.{DecisionQuery}
use tuskbase.App.Auth.{Context, require_read}
use tuskbase.App.Service.{Service, default_limit, bounded_limit}
use tuskbase.App.Lookup.{required}

pub record QueryInput (F : Type 0) : Type 0 where
  pub workspace_id : String
  pub text : String
  pub type : String
  pub status : String
  pub relationship_to : String
  pub relationship_type : String
  pub min_confidence : F
  pub limit : ℕ

pub record QueryOutput (F : Type 0) : Type 0 where
  pub decisions : List (Decision F)
  pub count : ℕ

-- A relationship type that is given is parsed, and one that is not stays blank: no filter.
unfoldable pub relationship_filter : String → Result RelationshipType
relationship_filter text = if is_blank text then ok "" else parse_relationship_type text

module _ {F : Type 0} where
  -- The query of an input, its status and its relationship type having been parsed in that order.
  unfoldable pub built_query :
      QueryInput F → Result DecisionStatus → Result RelationshipType → Result (DecisionQuery F)
  built_query input (err e) type = err e
  built_query input (ok status) (err e) = err e
  built_query input (ok status) (ok type) = ok (record {
    workspace_id = trim_space input.workspace_id;
    text = trim_space input.text;
    type = trim_space input.type;
    status = if is_blank input.status then "" else status;
    relationship_to = trim_space input.relationship_to;
    relationship_type = type;
    min_confidence = input.min_confidence;
    limit = bounded_limit input.limit default_limit;
  })

  unfoldable pub decision_query : QueryInput F → Result (DecisionQuery F)
  unfolding relationship_filter built_query
  decision_query input =
      built_query input (parse_decision_status input.status)
        (relationship_filter input.relationship_type)

module _ {F S : Type 0} (svc : Service F S) where
  unfoldable pub query : Context → QueryInput F → Exec S (QueryOutput F)
  unfolding decision_query
  query ctx input = do
    lift (require_read ctx)
    lift (required (trim_space input.workspace_id) "workspace_id is required")
    q ← lift (decision_query input)
    ds ← svc.store.query_decisions q
    pure (record { decisions = ds; count = length ds })
