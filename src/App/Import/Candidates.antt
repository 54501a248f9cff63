-- ===== src/App/Import/Candidates.antt =====
-- The inputs and outputs of the import, and the candidates it makes, in internal/app/importer.go.
use tuskbase.Common.{
  ℕ, suc, String, Bool, true, false, ◌&&◌, ◌==◌, ◌⧺◌, eqb, if◌then◌else◌, List, [], ◌∷◌, ◌++◌,
  trim_space, take_text, to_lower, join, decimal, text_before, nul_text, Result, ok, err, Float64,
  same, hundredths,
}
use tuskbase.Domain.Parse.{CandidateStatus, candidate_pending, parse_decision_candidate_status}
use tuskbase.Domain.Types.{Time, RepoDocument, Workspace, Decision, DecisionCandidate}
use tuskbase.App.Remember.Draft.{RememberInput}
use tuskbase.App.Remember.{RememberOutput}
use tuskbase.App.Import.Sentences.{normalize_snippet, clean_default}
use tuskbase.App.Import.Extract.{Importing, ImportDocument, ExtractedCandidate, rule_detector}

pub record ImportScanInput : Type 0 where
  pub repo_path : String
  pub display_name : String

pub record ImportScanOutput (F : Type 0) : Type 0 where
  pub workspace : Workspace
  pub candidates : List (DecisionCandidate F)
  pub scanned : ℕ
  pub created : ℕ
  pub updated : ℕ
  pub by_status : List (String × ℕ)

pub record ImportListInput : Type 0 where
  pub workspace_id : String
  pub status : String
  pub limit : ℕ

pub record ImportListOutput (F : Type 0) : Type 0 where
  pub candidates : List (DecisionCandidate F)
  pub count : ℕ

pub record ImportAcceptOutput (F : Type 0) : Type 0 where
  pub candidate : DecisionCandidate F
  pub decision : Decision F
  pub indexing_status : String
  pub indexing_error : String
  pub quality_warnings : List String

pub record ImportRejectInput : Type 0 where
  pub candidate_id : String
  pub summary : String

abbrev pub default_import_limit : ℕ
default_import_limit = 50

abbrev pub import_scan_doc_limit : ℕ
import_scan_doc_limit = 2000

unfoldable pub candidate_source_hash : Importing → String → String → ℕ → String → String
unfolding join decimal normalize_snippet trim_space
candidate_source_hash files workspace_id path chunk_index snippet = files.sha256_hex (
    join
      (trim_space workspace_id
        ∷ files.clean_path path
        ∷ decimal chunk_index
        ∷ normalize_snippet snippet
        ∷ [])
      nul_text)

-- `importListStatus`: the status, and whether every status is asked for.
unfoldable pub import_list_status : String → Result (CandidateStatus × Bool)
unfolding to_lower trim_space parse_decision_candidate_status
import_list_status given =
    let value = to_lower (trim_space given) in
    if value == ""
    then ok (candidate_pending, false)
    else if value == "all"
    then ok ("", true)
    else elim (parse_decision_candidate_status value) [
      | ok status ↦ ok (status, false)
      | err e ↦ err e
    ]

-- `out.ByStatus[status]++`
unfoldable pub count_status_of : String → List (String × ℕ) → List (String × ℕ)
count_status_of status [] = (status, 1) ∷ []
count_status_of status ((k, n) ∷ more) =
    let rest = count_status_of status more in
    if k == status then (k, suc n) ∷ more else (k, n) ∷ rest

unfoldable pub import_document : RepoDocument → ImportDocument
import_document doc = record {
  workspace_id = doc.workspace_id;
  path = doc.path;
  title = doc.title;
  content = doc.content;
  chunk_index = doc.chunk_index;
}

module _ {F : Type 0} where
  -- The order of the candidates that are returned.
  unfoldable pub candidate_before : DecisionCandidate F → DecisionCandidate F → Bool
  unfolding text_before
  candidate_before a b =
      if a.source_path == b.source_path
      then text_before a.source_snippet b.source_snippet
      else text_before a.source_path b.source_path

  -- What a saved candidate adds to the output.
  unfoldable pub count_saved :
      DecisionCandidate F → DecisionCandidate F → ImportScanOutput F → ImportScanOutput F
  unfolding count_status_of
  count_saved pending saved out =
      let fresh = saved.id == pending.id && eqb saved.created_at pending.created_at in
      record out {
        created = if fresh then suc out.created else out.created;
        updated = if fresh then out.updated else suc out.updated;
        by_status = count_status_of saved.status out.by_status;
        candidates = out.candidates ++ saved ∷ [];
      }

  -- What is remembered of a candidate.
  unfoldable pub accepted_input : Importing → DecisionCandidate F → RememberInput F
  accepted_input files c = record {
    workspace_id = c.workspace_id;
    actor = record { kind = ""; name = "" };
    type = c.type;
    title = c.title;
    outcome = c.outcome;
    rationale = c.rationale;
    confidence = c.confidence;
    status = "";
    valid_from = 0;
    alternatives = [];
    claims = [];
    evidence =
        record {
          id = "";
          decision_id = "";
          kind = "document";
          uri = c.source_path;
          title = c.source_title;
          snippet = c.source_snippet;
          metadata =
              ("candidate_id", files.json_text c.id)
              ∷ ("source_hash", files.json_text c.source_hash)
              ∷ ("detector", files.json_text c.detector)
              ∷ [];
        }
        ∷ [];
    relationships = [];
    precedent_ref = "";
    supersedes_id = "";
    metadata =
        ("import_candidate_id", files.json_text c.id)
        ∷ ("import_source_hash", files.json_text c.source_hash)
        ∷ ("import_detector", files.json_text c.detector)
        ∷ [];
  }

  unfoldable pub already_accepted : DecisionCandidate F → Decision F → ImportAcceptOutput F
  already_accepted c d = record {
    candidate = c;
    decision = d;
    indexing_status = "already_accepted";
    indexing_error = "";
    quality_warnings = [];
  }

  unfoldable pub newly_accepted : DecisionCandidate F → RememberOutput F → ImportAcceptOutput F
  newly_accepted c r = record {
    candidate = c;
    decision = r.decision;
    indexing_status = r.indexing_status;
    indexing_error = r.indexing_error;
    quality_warnings = r.quality_warnings;
  }

module _ {F : Type 0} ⦃fl : Float64 F⦄ where
  unfoldable pub pending_candidate :
      Importing → Time → RepoDocument → ExtractedCandidate F → DecisionCandidate F
  unfolding candidate_source_hash clean_default trim_space take_text
  pending_candidate files now doc c =
      let hash =
        candidate_source_hash files doc.workspace_id doc.path doc.chunk_index c.source_snippet in
      record {
        id = "cand_" ⧺ take_text 24 hash;
        workspace_id = doc.workspace_id;
        type = clean_default c.type "architecture";
        title = clean_default c.title "Imported repo decision";
        outcome = trim_space c.outcome;
        rationale = trim_space c.rationale;
        confidence = if same c.confidence (hundredths 0) then hundredths 65 else c.confidence;
        source_path = doc.path;
        source_title = doc.title;
        source_snippet = trim_space c.source_snippet;
        source_hash = hash;
        detector = clean_default c.detector rule_detector;
        status = candidate_pending;
        accepted_decision_id = "";
        rejection_summary = "";
        created_at = now;
        updated_at = now;
      }
