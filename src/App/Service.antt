-- ===== src/App/Service.antt =====
-- The `Service` of internal/app/service.go, and the limits of its operations.
pub mod Limits
pub mod Ledger
use tuskbase.Common.{
  ℕ, String, Bool, ◌==◌, ◌||◌, Option, ltb, leb, if◌then◌else◌, Float64, lt, le, hundredths,
}
use tuskbase.Common.{add, mul, div, whole, Result, List}
use tuskbase.Domain.Parse.{ConflictSeverity, severity_low, severity_medium, severity_high}
use tuskbase.Domain.Types.{RepoDocument}
use tuskbase.Ports.{Store, SearchIndex, IdGenerator, Clock, RelationshipValidator}

-- What `Attach` reads of the file system: the root of a path, the documents below it, and what is
-- derived from a root by hashing and by `filepath.Base`.
pub record Repository : Type 0 where
  pub resolve_repo_root : String → Result String
  pub scan_repo_documents : String → Result (List RepoDocument)
  pub workspace_id : String → String
  pub repo_fingerprint : String → String
  pub base_name : String → String

pub record Service (F S : Type 0) : Type 0 where
  pub store : Store F S
  pub search : SearchIndex F S
  pub ids : IdGenerator S
  pub clock : Clock S
  pub validator : Option (RelationshipValidator F S)

abbrev pub default_limit : ℕ
default_limit = 10

abbrev pub default_context_limit : ℕ
default_context_limit = 6

abbrev pub context_document_scan_limit : ℕ
context_document_scan_limit = 1000

abbrev pub stats_scan_limit : ℕ
stats_scan_limit = 1000

unfoldable pub context_limit : ℕ → ℕ
context_limit limit =
    if leb limit 0
    then default_context_limit
    else if ltb default_limit limit
    then default_limit
    else limit

unfoldable pub bounded_limit : ℕ → ℕ → ℕ
bounded_limit limit fallback =
    let n = if leb limit 0 then fallback else limit in
    if ltb stats_scan_limit n then stats_scan_limit else n

unfoldable pub is_decision_bound_result : String → Bool
is_decision_bound_result kind =
    kind == "decision" || kind == "claim" || kind == "evidence" || kind == "alternative"

module _ {F : Type 0} ⦃fl : Float64 F⦄ where
  unfoldable pub clamp : F → F
  clamp v =
      if lt v (hundredths 0)
      then hundredths 0
      else if lt (hundredths 100) v
      then hundredths 100
      else v

  -- `float64(int(v*100+0.5)) / 100`
  unfoldable pub round2 : F → F
  round2 v = div (whole (add (mul v (hundredths 10000)) (hundredths 50))) (hundredths 10000)

  unfoldable pub severity_for_confidence : F → ConflictSeverity
  severity_for_confidence confidence =
      if le (hundredths 90) confidence
      then severity_high
      else if le (hundredths 75) confidence
      then severity_medium
      else severity_low
