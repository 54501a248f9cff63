-- ===== src/App/Auth.antt =====
-- Roles, permissions and the actor behind a request: internal/app/auth.go.
pub mod Laws
use tuskbase.Common.{
  String, Bool, true, false, ◌&&◌, ◌==◌, Option, none, some, if◌then◌else◌, is_blank, trim_space,
  ◌⧺◌, Error, Result, ok, err, forbidden,
}
use tuskbase.Domain.Parse.{parse_actor_kind}
use tuskbase.Domain.Types.{Actor}

abbrev pub Role : Type 0
Role = String

abbrev pub role_reader : Role
role_reader = "reader"

abbrev pub role_agent : Role
role_agent = "agent"

abbrev pub role_admin : Role
role_admin = "admin"

pub record Principal : Type 0 where
  pub subject : String
  pub role : Role
  pub actor : Actor
  pub auth_source : String

-- What the program reads of a `context.Context`: the principal, if there is one.
pub record Context : Type 0 where
  pub principal : Option Principal

unfoldable pub context_with_principal : Context → Principal → Context
context_with_principal ctx p = record { principal = some p }

unfoldable pub principal_from_context : Context → Option Principal
principal_from_context ctx = ctx.principal

unfoldable pub can_read : Principal → Bool
can_read p =
    if p.role == role_reader
    then true
    else if p.role == role_agent
    then true
    else if p.role == role_admin
    then true
    else false

unfoldable pub can_write : Principal → Bool
can_write p = if p.role == role_agent then true else if p.role == role_admin then true else false

unfoldable pub can_admin : Principal → Bool
can_admin p = p.role == role_admin

permit : Option Principal → (Principal → Bool) → String → Result (Unit {0})
permit none allowed action = ok tt
permit (some p) allowed action =
    if allowed p then ok tt else err (forbidden (action ⧺ " permission required"))

unfoldable pub require_permission : Context → (Principal → Bool) → String → Result (Unit {0})
unfolding permit principal_from_context
require_permission ctx allowed action = permit (principal_from_context ctx) allowed action

unfoldable pub require_read : Context → Result (Unit {0})
unfolding require_permission
require_read ctx = require_permission ctx (λ p. can_read p) "read"

unfoldable pub require_write : Context → Result (Unit {0})
unfolding require_permission
require_write ctx = require_permission ctx (λ p. can_write p) "write"

unfoldable pub require_admin : Context → Result (Unit {0})
unfolding require_permission
require_admin ctx = require_permission ctx (λ p. can_admin p) "admin"

unfoldable pub actor_is_empty : Actor → Bool
actor_is_empty actor = is_blank actor.kind && is_blank actor.name

match_kinds : Result String → Result String → Bool → Bool
match_kinds (err e) bk names = false
match_kinds (ok ak) (err e) names = false
match_kinds (ok ak) (ok bk) names = ak == bk && names

unfoldable pub actors_match : Actor → Actor → Bool
unfolding match_kinds
actors_match a b =
    match_kinds (parse_actor_kind a.kind) (parse_actor_kind b.kind)
      (trim_space a.name == trim_space b.name)

bind_actor : Option Principal → Actor → Result Actor
bind_actor none actor = ok actor
bind_actor (some p) actor =
    if actor_is_empty actor
    then ok p.actor
    else if actors_match actor p.actor
    then ok actor
    else err (forbidden "actor must match authenticated identity")

unfoldable pub apply_principal_actor : Context → Actor → Result Actor
unfolding bind_actor principal_from_context
apply_principal_actor ctx actor = bind_actor (principal_from_context ctx) actor
