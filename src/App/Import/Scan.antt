-- ===== src/App/Import/Scan.antt =====
-- The scan of a repository's documents for decision candidates in internal/app/importer.go.
use tuskbase.Common.{
  suc, if◌then◌else◌, List, [], ◌∷◌, sort_stable, Exec, pure, lift, call, ◌>>=◌, ◌>>◌, Float64,
}
use tuskbase.Domain.Types.{Time, RepoDocument}
use tuskbase.App.Auth.{Context, require_write}
use tuskbase.App.Service.{Service, Repository}
use tuskbase.App.Attach.{attach}
use tuskbase.App.Import.Extract.{
  Importing, ExtractedCandidate, is_import_source_path, extract_candidates,
}
use tuskbase.App.Import.Candidates.{
  ImportScanInput, ImportScanOutput, import_scan_doc_limit, import_document, candidate_before,
  count_saved, pending_candidate,
}

module _ {F S : Type 0} ⦃fl : Float64 F⦄ (svc : Service F S) (files : Importing) where
  -- The loop over the candidates of a document.
  unfoldable pub save_extracted :
      Time
      → RepoDocument
      → List (ExtractedCandidate F)
      → ImportScanOutput F
      → Exec S (ImportScanOutput F)
  unfolding pending_candidate count_saved
  save_extracted now doc [] out = pure out
  save_extracted now doc (c ∷ cs) out = do
    let pending = pending_candidate files now doc c
    saved ← svc.store.upsert_decision_candidate pending
    save_extracted now doc cs (count_saved pending saved out)

  -- The loop over the documents.
  unfoldable pub scan_documents :
      Time → List RepoDocument → ImportScanOutput F → Exec S (ImportScanOutput F)
  unfolding save_extracted is_import_source_path extract_candidates import_document
  scan_documents now [] out = pure out
  scan_documents now (doc ∷ docs) out =
      let skipped = scan_documents now docs out in
      let scanned = (do
        let counted : ImportScanOutput F = record out { scanned = suc out.scanned }
        next ← save_extracted now doc (extract_candidates files (import_document doc)) counted
        scan_documents now docs next) in
      if is_import_source_path files doc.path then scanned else skipped

  unfoldable pub import_scan : Repository → Context → ImportScanInput → Exec S (ImportScanOutput F)
  unfolding scan_documents attach candidate_before sort_stable
  import_scan repo ctx input = do
    lift (require_write ctx)
    attached ←
        attach svc repo ctx
          (record { repo_path = input.repo_path; display_name = input.display_name })
    docs ← svc.store.list_workspace_documents attached.workspace.id import_scan_doc_limit
    now ← call svc.clock
    out ← scan_documents now docs (record {
      workspace = attached.workspace;
      candidates = [];
      scanned = 0;
      created = 0;
      updated = 0;
      by_status = [];
    })
    pure (record out { candidates = sort_stable candidate_before out.candidates })
