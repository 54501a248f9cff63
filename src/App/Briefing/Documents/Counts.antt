-- ===== src/App/Briefing/Documents/Counts.antt =====
-- The documents that a briefing counts and lists: internal/app/service.go.
use tuskbase.Common.{ℕ, String, ◌+◌, ◌≡◌, List, [], ◌∷◌, map, length, mem_text}
use tuskbase.App.Briefing.Documents.{ContextDocument}

abbrev paths : List ContextDocument → List String
paths ds = map (λ (d : ContextDocument). d.path) ds

abbrev pub chunk_total : List ContextDocument → ℕ
chunk_total [] = 0
chunk_total (d ∷ ds) = d.chunks + chunk_total ds

-- The two loops know the same paths.
abbrev SamePaths : List ContextDocument → List String → Type 0
SamePaths known seen =
    (length known ≡ length seen) × ((k : String) → mem_text k (paths known) ≡ mem_text k seen)
