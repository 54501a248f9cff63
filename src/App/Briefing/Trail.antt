-- ===== src/App/Briefing/Trail.antt =====
-- `contextSupersessions` of internal/app/service.go. A decision that cannot be read leaves its
-- title blank.
pub mod Bounds
use tuskbase.Common.{
  ℕ, String, ◌==◌, leb, if◌then◌else◌, List, [], ◌∷◌, ◌++◌, length, trim_space, mem_text, ◌⧺◌,
  nul_text, Result, ok, err,
}
use tuskbase.Domain.Parse.{supersedes}
use tuskbase.Domain.Types.{Time, DecisionRelationship, Decision}
use tuskbase.Ports.{Store}

pub record ContextSupersession : Type 0 where
  pub decision_id : String
  pub title : String
  pub superseded_id : String
  pub superseded_title : String
  pub reason : String
  pub transaction_time : Time

-- The variables `out` and `seen` that the function `add` captures.
pub record Trail : Type 0 where
  pub out : List ContextSupersession
  pub seen : List String

unfoldable pub supersession_key : String → String → String
supersession_key decision_id superseded_id = decision_id ⧺ nul_text ⧺ superseded_id

module _ {F : Type 0} where
  title_of : Result (Decision F) → String
  title_of (ok d) = d.title
  title_of (err e) = ""

  unfoldable pub supersession :
      Decision F → String → String → Result (Decision F) → ContextSupersession
  unfolding title_of
  supersession d superseded_id reason answer = record {
    decision_id = d.id;
    title = d.title;
    superseded_id = superseded_id;
    superseded_title = title_of answer;
    reason = trim_space reason;
    transaction_time = d.transaction_time;
  }

module _ {F S : Type 0} (store : Store F S) (limit : ℕ) where
  unfoldable pub add_supersession : Decision F → String → String → Trail → S → Trail × S
  unfolding supersession supersession_key
  add_supersession d superseded reason trail s =
      let superseded_id = trim_space superseded in
      let key = supersession_key d.id superseded_id in
      let (answer, t) = store.get_decision superseded_id s in
      let added : Trail = record {
        out = trail.out ++ supersession d superseded_id reason answer ∷ [];
        seen = key ∷ trail.seen;
      } in
      if leb limit (length trail.out)
      then (trail, s)
      else if superseded_id == ""
      then (trail, s)
      else if mem_text key trail.seen
      then (trail, s)
      else (added, t)

  unfoldable pub add_relationships :
      Decision F → List (DecisionRelationship F) → Trail → S → Trail × S
  unfolding add_supersession
  add_relationships d [] trail s = (trail, s)
  add_relationships d (rel ∷ rels) trail s =
      let skipped = add_relationships d rels trail s in
      let (next, t) = add_supersession d rel.to_decision_id rel.reason trail s in
      let added = add_relationships d rels next t in
      if rel.type == supersedes then added else skipped

  unfoldable pub add_decisions : List (Decision F) → Trail → S → Trail × S
  unfolding add_relationships
  add_decisions [] trail s = (trail, s)
  add_decisions (d ∷ ds) trail s =
      let (first, t) =
        add_supersession d d.supersedes_id "Supersedes prior active decision." trail s in
      let (next, u) = add_relationships d d.relationships first t in add_decisions ds next u

  unfoldable pub context_supersessions : List (Decision F) → S → List ContextSupersession × S
  unfolding add_decisions
  context_supersessions decisions s =
      let (trail, t) = add_decisions decisions (record { out = []; seen = [] }) s in (trail.out, t)
