-- ===== src/App/Workflows/Resolve/Statuses.antt =====
-- The status that a conflict is given: internal/app/workflows.go.
use tuskbase.Common.{
  text_eq, String, true, false, ◌==◌, ◌≡◌, refl, sym, inl, inr, arith, text_ne, Bool-cases,
  Result-cases, ok, err, OneOf, is_blank, List, [], ◌∷◌, trim_space, to_lower,
}
use mathlib.Core.Path.{subst}
use tuskbase.Domain.Parse.{
  ConflictStatus, conflict_resolved, conflict_dismissed, conflict_deferred, parse_conflict_status,
}
use tuskbase.Domain.Parse.Canonical.{conflict_statuses, parse_conflict_status-canonical}
use tuskbase.App.Workflows.Resolve.{
  action_status, with_action, resolution_action, conflict_resolution_status,
}

abbrev pub closed_statuses : List ConflictStatus
closed_statuses = conflict_resolved ∷ conflict_dismissed ∷ conflict_deferred ∷ []

pub resolution_action-blank :
    (written : String) → is_blank written ≡ true → resolution_action written ≡ "resolved"
unfolding resolution_action is_blank to_lower
resolution_action-blank written blank =
    let none_left : trim_space written ≡ "" = text_eq (trim_space written) "" blank in
    rw (none_left) refl

to_lower-empty : (s : String) → to_lower s ≡ "" → s ≡ ""
unfolding to_lower
to_lower-empty String.[] h = refl
to_lower-empty (String.◌∷◌ c s) h = cc

pub resolution_action-words :
    (written : String)
    → is_blank written ≡ false
    → resolution_action written ≡ to_lower (trim_space written)
unfolding resolution_action is_blank
resolution_action-words written words = elim (Bool-cases (to_lower (trim_space written) == "")) [
  | inl is ↦
      let left : trim_space written ≡ "" =
        to_lower-empty (trim_space written) (text_eq (to_lower (trim_space written)) "" is) in
      absurd (text_ne (trim_space written) "" words left)
  | inr not_ ↦ rw not_ refl
]

action_status-closed :
    (action written : String) (status : ConflictStatus) (kept : String)
    → action_status action written ≡ ok (status, kept)
    → OneOf closed_statuses status × (kept ≡ action)
unfolding action_status
action_status-closed action written status kept e = ground arith

-- A status and an action that are chosen without an error are a known status and the action that was
-- written; where no status was given, the status is not `open`.
pub conflict_resolution_status-canonical :
    (status_input action_input : String) (status : ConflictStatus) (action : String)
    → conflict_resolution_status status_input action_input ≡ ok (status, action)
    → OneOf conflict_statuses status
      × (action ≡ resolution_action action_input)
      × (is_blank status_input ≡ true → OneOf closed_statuses status)
unfolding conflict_resolution_status with_action
conflict_resolution_status-canonical status_input action_input status action e =
    elim (Bool-cases (is_blank status_input)) [
      | inl is ↦
          let (closed, same) =
            action_status-closed (resolution_action action_input) action_input status action
              (rw is at e) in
          (inr closed, same, λ _. closed)
      | inr not_ ↦ elim (Result-cases (parse_conflict_status status_input)) [
        | inl (v, parsed) ↦
            let g : ok (v, resolution_action action_input) ≡ ok (status, action) =
              rw (not_, parsed) at e in
            let (is_v, same) : (v ≡ status) × (resolution_action action_input ≡ action) =
              (cc, cc) in
            (
              subst (λ x. OneOf conflict_statuses x) is_v
                  (parse_conflict_status-canonical status_input v parsed).0,
              sym same,
              λ is. cc,
            )
        | inr (x, failed) ↦ let g : err x ≡ ok (status, action) = rw (not_, failed) at e in cc
      ]
    ]
