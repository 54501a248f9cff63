-- ===== src/App/Auth/Laws.antt =====
-- Permissions, and the actor of a request: internal/app/auth.go.
use tuskbase.Common.{
  String, ◌≡◌, ◌↔◌, ◌⊎◌, Bool, true, arith, eq_iff, none, some, Result, Accepted, ok, err,
  trim_space, OneOf, [], ◌∷◌,
}
use tuskbase.Domain.Parse.{parse_actor_kind}
use tuskbase.Domain.Types.{Actor}
use tuskbase.App.Auth.{
  role_reader, role_agent, role_admin, Principal, Context, can_read, can_write, can_admin,
  require_read, require_write, require_admin, match_kinds, actors_match, apply_principal_actor,
}

-- Reading, writing and administration are open to a request without a principal, and to one with a
-- principal exactly in these roles: reader, agent or admin; agent or admin; admin.
pub permissions :
    (p : Principal)
    → (Accepted (require_read (record { principal = some p }))
        ↔ OneOf (role_reader ∷ role_agent ∷ role_admin ∷ []) p.role)
      × (Accepted (require_write (record { principal = some p }))
          ↔ OneOf (role_agent ∷ role_admin ∷ []) p.role)
      × (Accepted (require_admin (record { principal = some p })) ↔ OneOf (role_admin ∷ []) p.role)
      × (require_read (record { principal = none }) ≡ ok tt)
      × (require_write (record { principal = none }) ≡ ok tt)
      × (require_admin (record { principal = none }) ≡ ok tt)
unfolding require_read require_write require_admin can_read can_write can_admin
permissions p =
    ground (arith, eq_iff p.role role_reader, eq_iff p.role role_agent, eq_iff p.role role_admin)

-- Two actors are one identity: their kinds parse to one kind, and their names agree but for space.
pub record SameIdentity (a b : Actor) : Type 0 where
  pub kind : parse_actor_kind a.kind ≡ parse_actor_kind b.kind
  pub known : Accepted (parse_actor_kind a.kind)
  pub name : trim_space a.name ≡ trim_space b.name

match_kinds-eq :
    (r q : Result String) (names : Bool)
    → match_kinds r q names ≡ true
    → (r ≡ q) × Accepted r × (names ≡ true)
unfolding match_kinds
match_kinds-eq (ok a) (ok b) names h = ground (arith, eq_iff a b)
match_kinds-eq (ok a) (err e) names h = cc
match_kinds-eq (err e) q names h = cc

actors_match-SameIdentity : (a b : Actor) → actors_match a b ≡ true → SameIdentity a b
unfolding actors_match
actors_match-SameIdentity a b h =
    let (kinds, known, names) = match_kinds-eq _ _ _ h in
    record {
      kind = kinds;
      known = known;
      name = (eq_iff (trim_space a.name) (trim_space b.name)).0 names;
    }

-- An authenticated request never acts as another: the actor is the principal's own, or the one
-- that the request names and that has the principal's identity.
pub apply_principal_actor-SameIdentity :
    (ctx : Context) (p : Principal) (requested actor : Actor)
    → ctx.principal ≡ some p
    → apply_principal_actor ctx requested ≡ ok actor
    → (actor ≡ p.actor) ⊎ ((actor ≡ requested) × SameIdentity actor p.actor)
unfolding apply_principal_actor
apply_principal_actor-SameIdentity ctx p requested actor hp h =
    ground (arith, actors_match-SameIdentity requested p.actor)
