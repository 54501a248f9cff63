-- ===== src/App/Attach.antt =====
-- `Attach` of internal/app/service.go, over what it reads of the file system.
pub mod Documents
use tuskbase.Common.{
  String, ◌==◌, if◌then◌else◌, List, [], ◌∷◌, trim_space, is_blank, ok, message, fail_if, Exec,
  pure, lift, call, ◌>>=◌, ◌>>◌, Result, err, external, ◌⧺◌, error_text,
}
use tuskbase.Domain.Types.{Time, RepoDocument, Workspace}
use tuskbase.Domain.Validate.{validate_workspace}
use tuskbase.App.Auth.{Context, require_write}
use tuskbase.App.Service.{Service, Repository}

pub record AttachInput : Type 0 where
  pub repo_path : String
  pub display_name : String

pub record AttachOutput : Type 0 where
  pub workspace : Workspace

unfoldable pub stamp_documents : String → Time → List RepoDocument → List RepoDocument
stamp_documents workspace_id now [] = []
stamp_documents workspace_id now (doc ∷ docs) =
    record doc { workspace_id = workspace_id; created_at = now; updated_at = now }
    ∷ stamp_documents workspace_id now docs

-- An index failure names the document.
index_failure : RepoDocument → Result (Unit {0}) → Result (Unit {0})
index_failure doc (ok _) = ok tt
index_failure doc (err e) = err (external ("index repo document " ⧺ doc.path ⧺ ": " ⧺ error_text e))

module _ {F S : Type 0} (svc : Service F S) where
  unfoldable pub index_documents : List RepoDocument → Exec S (Unit {0})
  unfolding index_failure
  index_documents [] = pure tt
  index_documents (doc ∷ docs) = do
    answer ← (λ s. let (r, t) = svc.search.index_document doc s in (ok r, t))
    lift (index_failure doc answer)
    index_documents docs

  unfoldable pub attach : Repository → Context → AttachInput → Exec S AttachOutput
  unfolding stamp_documents index_documents
  attach repo ctx input = do
    lift (require_write ctx)
    lift (fail_if (is_blank input.repo_path) (message "repo_path is required") (ok tt))
    root ← lift (repo.resolve_repo_root input.repo_path)
    docs ← lift (repo.scan_repo_documents root)
    now ← call svc.clock
    let name = trim_space input.display_name
    let workspace : Workspace = record {
      id = repo.workspace_id root;
      repo_root = root;
      display_name = if name == "" then repo.base_name root else name;
      repo_fingerprint = repo.repo_fingerprint root;
      detected_docs = docs;
      created_at = now;
      updated_at = now;
    }
    lift (validate_workspace workspace)
    let stamped = stamp_documents workspace.id now docs
    saved ← svc.store.upsert_workspace (record workspace { detected_docs = stamped })
    svc.store.replace_workspace_documents saved.id stamped
    index_documents stamped
    pure (record { workspace = record saved { detected_docs = stamped } })
