-- ===== src/App/Import/Counts.antt =====
-- The counts of a scan of documents in internal/app/importer.go.
use tuskbase.Common.{
  ℕ, suc, ◌+◌, String, Bool, Bool-cases, List, [], ◌∷◌, length, length-append, insert_stable,
  sort_stable, pure-eq-ok, bind-eq-ok, lift-eq-ok, ok, ◌≡◌, refl, sym, ap, ◌∙◌, inl, inr, arith,
  Float64,
}
use tuskbase.Domain.Types.{Time, RepoDocument, DecisionCandidate}
use tuskbase.App.Auth.{Context, require_write}
use tuskbase.App.Service.{Service, Repository}
use tuskbase.App.Attach.{attach}
use tuskbase.App.Import.Extract.{
  Importing, ExtractedCandidate, is_import_source_path, extract_candidates,
}
use tuskbase.App.Import.Candidates.{
  ImportScanInput, ImportScanOutput, import_scan_doc_limit, import_document, candidate_before,
  count_saved, pending_candidate, count_status_of,
}
use tuskbase.App.Import.Scan.{save_extracted, scan_documents, import_scan}

-- The sum of the counts by status.
unfoldable pub status_total : List (String × ℕ) → ℕ
status_total [] = 0
status_total ((k, n) ∷ more) = n + status_total more

count-total :
    (status : String) (counts : List (String × ℕ))
    → status_total (count_status_of status counts) ≡ suc (status_total counts)
unfolding status_total count_status_of
count-total status [] = refl
count-total status ((k, n) ∷ more) = ground (arith, count-total status more)

length-insert {ℓ} :
    {A : Type ℓ} (before : A → A → Bool) (x : A) (ys : List A)
    → length (insert_stable before x ys) ≡ suc (length ys)
unfolding insert_stable
length-insert before x [] = refl
length-insert before x (y ∷ ys) = elim (Bool-cases (before y x)) [
  | inl b ↦ rw (b) (ap suc (length-insert before x ys))
  | inr b ↦ rw (b) refl
]

length-sort {ℓ} :
    {A : Type ℓ} (before : A → A → Bool) (ys : List A) → length (sort_stable before ys) ≡ length ys
unfolding sort_stable
length-sort before [] = refl
length-sort before (y ∷ ys) =
    length-insert before y (sort_stable before ys) ∙ ap suc (length-sort before ys)

-- Each candidate is counted as created or as updated, and once under its status.
abbrev pub Counted : {F : Type 0} → ImportScanOutput F → Type 0
Counted out =
    (out.created + out.updated ≡ length out.candidates)
    × (status_total out.by_status ≡ length out.candidates)

module _ {F : Type 0} where
  count_saved-Counted :
      (pending saved : DecisionCandidate F) (out : ImportScanOutput F)
      → Counted out
      → Counted (count_saved pending saved out)
  unfolding count_saved
  count_saved-Counted pending saved out (a, b) = (
    ground (arith, length-append out.candidates (saved ∷ [])),
    count-total saved.status out.by_status
        ∙ ap suc b
        ∙ omega (arith, length-append out.candidates (saved ∷ [])),
  )

module _ {F S : Type 0} ⦃fl : Float64 F⦄ (svc : Service F S) (files : Importing) (now : Time) where
  save_extracted-Counted :
      (doc : RepoDocument) (cs : List (ExtractedCandidate F)) (out result : ImportScanOutput F)
      (s t : S)
      → Counted out
      → save_extracted svc files now doc cs out s ≡ (ok result, t)
      → Counted result
  unfolding save_extracted
  save_extracted-Counted doc [] out result s t c h = rw (pure-eq-ok out result s t h).0 at c
  save_extracted-Counted doc (e ∷ es) out result s t c h =
      let pending : DecisionCandidate F = pending_candidate files now doc e in
      let (saved, u, _, rest) =
        bind-eq-ok (svc.store.upsert_decision_candidate pending) _ s result t h in
      save_extracted-Counted doc es (count_saved pending saved out) result u t
        (count_saved-Counted pending saved out c) rest

  scan_documents-Counted :
      (docs : List RepoDocument) (out result : ImportScanOutput F) (s t : S)
      → Counted out
      → scan_documents svc files now docs out s ≡ (ok result, t)
      → Counted result
  unfolding scan_documents
  scan_documents-Counted [] out result s t c h = rw (pure-eq-ok out result s t h).0 at c
  scan_documents-Counted (doc ∷ docs) out result s t c h =
      elim (Bool-cases (is_import_source_path files doc.path)) [
        | inl taken ↦
            let g = rw taken at h in
            let counted : ImportScanOutput F = record out { scanned = suc out.scanned } in
            let found = extract_candidates files (import_document doc) in
            let (next, u, first, rest) =
              bind-eq-ok (save_extracted svc files now doc found counted) _ s result t g in
            scan_documents-Counted docs next result u t
              (save_extracted-Counted doc found counted next s u c first) rest
        | inr skipped ↦ scan_documents-Counted docs out result s t c (rw skipped at h)
      ]

-- When a scan succeeds, each candidate that it returns was counted as created or as updated, and the
-- counts by status add up to the number of candidates.
pub import_scan-Counted :
    {F S : Type 0} ⦃fl : Float64 F⦄ (svc : Service F S) (files : Importing) (repo : Repository)
    (ctx : Context) (input : ImportScanInput) (out : ImportScanOutput F) (s t : S)
    → import_scan svc files repo ctx input s ≡ (ok out, t)
    → Counted out
unfolding import_scan status_total
import_scan-Counted {F = F} svc files repo ctx input out s t h =
    let (_, _, g1) = lift-eq-ok (require_write ctx) _ s out t h in
    let (attached, s2, _, g2) =
      bind-eq-ok
        (attach svc repo ctx
          (record { repo_path = input.repo_path; display_name = input.display_name }))
        _ s out t g1 in
    let (docs, s3, _, g3) =
      bind-eq-ok (svc.store.list_workspace_documents attached.workspace.id import_scan_doc_limit) _
        s2 out t g2 in
    let now = (svc.clock s3).0 in
    let s4 = (svc.clock s3).1 in
    let none_yet : ImportScanOutput F = record {
      workspace = attached.workspace;
      candidates = [];
      scanned = 0;
      created = 0;
      updated = 0;
      by_status = [];
    } in
    let (found, s5, scan, g5) =
      bind-eq-ok (scan_documents svc files now docs none_yet) _ s4 out t g3 in
    let (a, b) = scan_documents-Counted svc files now docs none_yet found s4 s5 (refl, refl) scan in
    let same =
      (pure-eq-ok (record found { candidates = sort_stable candidate_before found.candidates }) out
        s5 t g5).0 in
    let size = length-sort candidate_before found.candidates in
    rw (sym same) (a ∙ sym size, b ∙ sym size)
