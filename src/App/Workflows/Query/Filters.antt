-- ===== src/App/Workflows/Query/Filters.antt =====
-- The query that `Query` sends to the store: internal/app/workflows.go.
use tuskbase.Common.{
  ℕ, String, true, ◌≤◌, ◌<◌, ◌≡◌, refl, inl, inr, arith, Bool-cases, if◌then◌else◌, ◌∷◌, OneOf,
  Result, ok, err, is_blank,
}
use mathlib.Core.Path.{subst}
use tuskbase.Domain.Parse.{DecisionStatus, RelationshipType, parse_decision_status}
use tuskbase.Domain.Parse.Canonical.{
  relationship_types, decision_statuses, parse_relationship_type-canonical,
  parse_decision_status-canonical,
}
use tuskbase.Ports.{DecisionQuery}
use tuskbase.App.Service.{default_limit, stats_scan_limit, bounded_limit}
use tuskbase.App.Service.Limits.{limits}
use tuskbase.App.Workflows.Query.{QueryInput, relationship_filter, built_query, decision_query}

relationship_filter-known :
    (text type : String) → relationship_filter text ≡ ok type → OneOf ("" ∷ relationship_types) type
unfolding relationship_filter
relationship_filter-known text type e = elim (Bool-cases (is_blank text)) [
  | inl is ↦ let g : ok "" ≡ ok type = rw is at e in inl cc
  | inr not_ ↦ inr (parse_relationship_type-canonical text type (rw not_ at e)).0
]

bounds :
    (limit : ℕ)
    → (0 < bounded_limit limit default_limit)
      × (bounded_limit limit default_limit ≤ stats_scan_limit)
      × Unit {0}
bounds limit =
    let (_, _, _, low, high, _) = limits limit default_limit (omega arith) in (low, high, tt)

module _ {F : Type 0} where
  abbrev pub Bounded : QueryInput F → DecisionQuery F → Type 0
  Bounded input q =
      (0 < q.limit)
      × (q.limit ≤ stats_scan_limit)
      × OneOf ("" ∷ decision_statuses) q.status
      × OneOf ("" ∷ relationship_types) q.relationship_type
      × (is_blank input.status ≡ true → q.status ≡ "")

  abbrev BoundedOk : QueryInput F → Result (DecisionQuery F) → Type 0
  BoundedOk input (ok q) = Bounded input q
  BoundedOk input (err e) = ⊥

  status_filter-known :
      (input : QueryInput F) (status : DecisionStatus)
      → parse_decision_status input.status ≡ ok status
      → OneOf ("" ∷ decision_statuses) (if is_blank input.status then "" else status)
  status_filter-known input status e = elim (Bool-cases (is_blank input.status)) [
    | inl is ↦ rw is (inl refl)
    | inr not_ ↦ rw not_ (inr (parse_decision_status-canonical input.status status e).0)
  ]

  built_query-Bounded :
      (input : QueryInput F) (status : Result DecisionStatus) (type : Result RelationshipType)
      (q : DecisionQuery F)
      → parse_decision_status input.status ≡ status
      → relationship_filter input.relationship_type ≡ type
      → built_query input status type ≡ ok q
      → Bounded input q
  unfolding built_query
  built_query-Bounded input (err x) type q p r e = cc
  built_query-Bounded input (ok status) (err x) q p r e = cc
  built_query-Bounded input (ok status) (ok type) q p r e =
      let (low, high, _) = bounds input.limit in
      subst (λ v. BoundedOk input v) e
        (
          low,
          high,
          status_filter-known input status p,
          relationship_filter-known input.relationship_type type r,
          λ is. rw is refl,
        )

  -- A query that is built without an error asks for 1 to 1000 decisions, of a known status or of
  -- any, with relationships of a known type or of any; for a blank status it asks for any.
  pub decision_query-Bounded :
      (input : QueryInput F) (q : DecisionQuery F) → decision_query input ≡ ok q → Bounded input q
  unfolding decision_query
  decision_query-Bounded input q e = built_query-Bounded input _ _ q refl refl e
