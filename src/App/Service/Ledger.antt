-- ===== src/App/Service/Ledger.antt =====
-- What the services of internal/app rely on of the conflicts behind their store.
use tuskbase.Common.{◌≡◌, ◌≢◌, none, some, ok, List, [], ◌∷◌, ◌++◌}
use tuskbase.Domain.Parse.{conflict_open}
use tuskbase.Domain.Types.{Conflict}
use tuskbase.Ports.{RelationshipValidator, RelationshipValidationRequest}
use tuskbase.App.Service.{Service}

-- A view of the conflicts behind the store: a new identifier, the clock and the validator leave it
-- alone, the clock shows a time, and a new conflict that is saved without an error stands at its
-- end. A new conflict is open, has a time and is not resolved: a store may normalise another one.
pub record ConflictLog {F S : Type 0} (svc : Service F S) (log : S → List (Conflict F))
    : Type 0 where
  pub ids_keep : (s : S) → log (svc.ids s).1 ≡ log s
  pub clock_keep : (s : S) → log (svc.clock s).1 ≡ log s
  pub validator_keep :
      (v : RelationshipValidator F S)
      → svc.validator ≡ some v
      → (q : RelationshipValidationRequest F) (s : S) → log (v q s).1 ≡ log s
  pub clock_set : (s : S) → (svc.clock s).0 ≢ 0
  pub saved :
      (c : Conflict F) (s t : S)
      → c.status ≡ conflict_open
      → c.created_at ≢ 0
      → c.resolved_at ≡ none
      → svc.store.save_conflict c s ≡ (ok tt, t)
      → log t ≡ log s ++ c ∷ []
