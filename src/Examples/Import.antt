-- ===== src/Examples/Import.antt =====
-- Runs of the import of documents.
use tuskbase.App.Auth.{require_write, can_write, apply_principal_actor, actor_is_empty}
use tuskbase.Domain.Validate.{validate_workspace, validate_decision}
use tuskbase.App.Attach.Documents.{chunks, splits_character, chunk_text}
use tuskbase.App.Attach.Documents.Chunks.{Chunked, chunk_text-Chunked}
use tuskbase.Common.{
  String, arith, mem_text, to_lower, fields_count, is_blank, map, refl, [], ◌∷◌, ℕ, ◌⊎◌, quote,
  Result, pure, Accepted, ◌≡◌, ok, trim_space,
}
use tuskbase.Domain.Parse.{parse_decision_status, parse_actor_kind, candidate_pending}
use tuskbase.Domain.Types.{DecisionCandidate, RepoDocument}
use tuskbase.App.Service.{Service, round2, clamp}
use tuskbase.App.Import.Extract.{Importing, extract_rule_candidates}
use tuskbase.App.Import.Candidates.{
  ImportScanInput, ImportScanOutput, ImportAcceptOutput, import_document,
}
use tuskbase.App.Import.Scan.{import_scan}
use tuskbase.App.Import.Counts.{Counted, import_scan-Counted}
use tuskbase.App.Import.Review.{import_accept}
use tuskbase.App.Import.Outcomes.{Repeated, Remembered, import_accept-cases}
use tuskbase.Examples.World.{
  hundredth_float, World, world_store, world, repository, writer, outcome, outcome_lem, readme,
}

abbrev files : Importing
files = record {
  clean_path = λ p. p;
  to_slash = λ p. p;
  base_stem = λ p. p;
  sha256_hex = λ t. t;
  json_text = quote;
}

abbrev rules : RepoDocument
rules = record readme {
  path = "AGENTS.md";
  content =
      "# Rules\n- We use Kafka for events.\n- we use kafka for events.\n- Avoid cron jobs here.";
}

abbrev idea : DecisionCandidate ℕ
idea = record {
  id = "cand_1";
  workspace_id = "w";
  type = "architecture";
  title = "We use Kafka";
  outcome = "We use Kafka.";
  rationale = "";
  confidence = 70;
  source_path = "AGENTS.md";
  source_title = "Rules";
  source_snippet = "We use Kafka";
  source_hash = "h";
  detector = "rule:v1";
  status = candidate_pending;
  accepted_decision_id = "";
  rejection_summary = "";
  created_at = 1;
  updated_at = 1;
}

abbrev desk : Service ℕ World
desk = record world {
  store = record world_store {
    list_workspace_documents = λ id n. pure (rules ∷ []);
    get_decision_candidate = λ id. pure idea;
    update_decision_candidate_status = λ u.
        pure (record idea { status = u.status; accepted_decision_id = u.accepted_decision_id });
  };
}

rules_found :
    map (λ c. c.outcome) (extract_rule_candidates {F = ℕ} files (import_document rules))
    ≡ "We use Kafka for events." ∷ "Avoid cron jobs here." ∷ []
unfolding extract_rule_candidates import_document mem_text
rules_found = refl

abbrev place : ImportScanInput
place = record { repo_path = "/repo"; display_name = "" }

abbrev scanned : Result (ImportScanOutput ℕ) × World
scanned = import_scan desk files repository writer place []

scanned-ok : Accepted scanned.0
unfolding import_scan require_write can_write is_blank validate_workspace mem_text
scanned-ok = tt

import_scan-Counted_example : Counted (outcome scanned scanned-ok).0
import_scan-Counted_example =
    import_scan-Counted desk files repository writer place (outcome scanned scanned-ok).0 []
      (outcome scanned scanned-ok).1 (outcome_lem scanned scanned-ok)

abbrev kept : Result (ImportAcceptOutput ℕ) × World
kept = import_accept desk files writer " cand_1 " []

kept-ok : Accepted kept.0
unfolding import_accept can_write apply_principal_actor actor_is_empty is_blank
    parse_decision_status validate_decision parse_actor_kind to_lower round2 clamp fields_count
kept-ok = tt

import_accept-cases_example :
    let out = (outcome kept kept-ok).0 in
    let t = (outcome kept kept-ok).1 in
    (c : DecisionCandidate ℕ) × (u : World) × (desk.store.get_decision_candidate
        (trim_space " cand_1 ")
        []
      ≡ (ok c, u))
    × (Repeated desk files c out u t ⊎ Remembered desk files writer c out u t)
import_accept-cases_example =
    import_accept-cases desk files writer " cand_1 " (outcome kept kept-ok).0 []
      (outcome kept kept-ok).1 (outcome_lem kept kept-ok)

abbrev page : String
page = " first\n\nsecond line\nthird"

chunks_found : chunk_text page 12 ≡ chunks ("first" ∷ "second line" ∷ "third" ∷ [])
unfolding chunk_text
chunks_found = refl

-- A cut after two bytes is in the middle of the second character.
character_split : chunk_text "aéb" 2 ≡ splits_character
unfolding chunk_text
character_split = refl

chunk_text-Chunked_example : Chunked 12 page (chunk_text page 12)
chunk_text-Chunked_example = chunk_text-Chunked page 12 (omega arith)
