-- ===== src/App/Briefing/Documents.antt =====
-- The documents of a briefing: `summarizeDocuments` and `uniqueDocumentCount` of
-- internal/app/service.go.
pub mod Counts
use tuskbase.Common.{
  ℕ, suc, String, Bool, ◌==◌, leb, if◌then◌else◌, length, take, List, [], ◌∷◌, text_before,
  trim_space, sort_stable, mem_text,
}
use tuskbase.Domain.Types.{RepoDocument}
use tuskbase.App.Service.{default_context_limit}

pub record ContextDocument : Type 0 where
  pub path : String
  pub title : String
  pub chunks : ℕ

unfoldable pub path_before : ContextDocument → ContextDocument → Bool
unfolding text_before
path_before a b = text_before a.path b.path

-- The maps `titles` and `chunks` and the slice `paths` are one list, in the order of `paths`: a
-- path that is known gets one more chunk, and a new one its title and its first chunk.
unfoldable pub add_chunk : String → String → List ContextDocument → List ContextDocument
add_chunk path title [] = record { path = path; title = title; chunks = 1 } ∷ []
add_chunk path title (d ∷ ds) =
    let rest = add_chunk path title ds in
    if d.path == path then record d { chunks = suc d.chunks } ∷ ds else d ∷ rest

unfoldable pub add_documents : List RepoDocument → List ContextDocument → List ContextDocument
unfolding add_chunk
add_documents [] known = known
add_documents (doc ∷ docs) known =
    let path = trim_space doc.path in
    let skipped = add_documents docs known in
    let added = add_documents docs (add_chunk path (trim_space doc.title) known) in
    if path == "" then skipped else added

unfoldable pub summarize_documents : List RepoDocument → ℕ → List ContextDocument
unfolding add_documents path_before
summarize_documents docs limit =
    take (if leb limit 0 then default_context_limit else limit)
      (sort_stable path_before (add_documents docs []))

unfoldable pub add_paths : List RepoDocument → List String → List String
add_paths [] seen = seen
add_paths (doc ∷ docs) seen =
    let path = trim_space doc.path in
    let skipped = add_paths docs seen in
    let added = add_paths docs (path ∷ seen) in
    if path == "" then skipped else if mem_text path seen then skipped else added

unfoldable pub unique_document_count : List RepoDocument → ℕ
unfolding add_paths
unique_document_count docs = length (add_paths docs [])
