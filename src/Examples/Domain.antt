-- ===== src/Examples/Domain.antt =====
-- Validation, parsing, limits and permissions at concrete values.
use tuskbase.App.Auth.{
  actor_is_empty, actors_match, apply_principal_actor, Principal, role_reader, role_agent,
  role_admin, require_read, require_write, require_admin,
}
use tuskbase.Common.{
  to_lower, String, ◌≡◌, refl, none, some, [], ◌∷◌, ok, Accepted, ◌⊎◌, ◌↔◌, OneOf, is_blank,
}
use tuskbase.Domain.Parse.{parse_actor_kind}
use tuskbase.Examples.World.{hundredth_float, agent, kafka}
use tuskbase.Domain.Validate.Soundness.{IsSoundDecision, validate_decision_iff}
use tuskbase.Domain.Validate.{validate_decision}
use tuskbase.App.Auth.Laws.{SameIdentity, permissions, apply_principal_actor-SameIdentity}
use tuskbase.Domain.Types.{Actor}

validate_decision_iff_example : (validate_decision kafka ≡ ok tt) ↔ IsSoundDecision kafka
validate_decision_iff_example = validate_decision_iff kafka

abbrev written : String
written = " Supersedes "

abbrev read : String
read = "supersedes"

abbrev viewer : Principal
viewer = record { subject = "viewer"; role = role_reader; actor = agent; auth_source = "token" }

permissions_example :
    (Accepted (require_read (record { principal = some viewer }))
      ↔ OneOf (role_reader ∷ role_agent ∷ role_admin ∷ []) viewer.role)
    × (Accepted (require_write (record { principal = some viewer }))
        ↔ OneOf (role_agent ∷ role_admin ∷ []) viewer.role)
    × (Accepted (require_admin (record { principal = some viewer }))
        ↔ OneOf (role_admin ∷ []) viewer.role)
    × (require_read (record { principal = none }) ≡ ok tt)
    × (require_write (record { principal = none }) ≡ ok tt)
    × (require_admin (record { principal = none }) ≡ ok tt)
permissions_example = permissions viewer

abbrev alias : Actor
alias = record { kind = "Agent"; name = " codex " }

alias-accepted : apply_principal_actor (record { principal = some viewer }) alias ≡ ok alias
unfolding actor_is_empty actors_match apply_principal_actor is_blank parse_actor_kind to_lower
alias-accepted = refl

apply_principal_actor-SameIdentity_example :
    (alias ≡ viewer.actor) ⊎ ((alias ≡ alias) × SameIdentity alias viewer.actor)
apply_principal_actor-SameIdentity_example =
    apply_principal_actor-SameIdentity (record { principal = some viewer }) viewer alias alias refl
      alias-accepted
