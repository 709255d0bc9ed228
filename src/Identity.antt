-- ===== src/Identity.antt =====
-- identity.py: actors, their roles and grants.
use rednexus_ai.Base.{
  guard-eq-ok, ◌≡◌, true, String, ◌&&◌, Option, some, List, elem, if◌then◌else◌, Result, raise,
  guard, ok,
}
use Prim.Native.String
use rednexus_ai.Base.Table.{find}
use rednexus_ai.Store.{Db, User, Membership, membership, user_keyed}

pub record Actor : Type 0 where
  pub id : String
  pub workspace : String
  pub username : String
  pub role : String
  pub grants : List String
  pub kind : String

-- `actor.require_role(*roles)`.
unfoldable pub require_role : Actor → List String → Result (Unit {0})
require_role a roles = guard (elem a.role roles) 403 "role does not permit this action"

-- `actor.require(grant)`.
unfoldable pub require : Actor → String → Result (Unit {0})
require a grant = guard (elem grant a.grants) 403 (String.◌++◌ "missing grant: " grant)

unfoldable pub actor_of : String → Option User → Option Membership → Result Actor
actor_of w (some u) (some m) =
    if u.enabled && m.enabled
    then ok (record {
      id = u.id;
      workspace = w;
      username = u.username;
      role = m.role;
      grants = m.grants;
      kind = u.kind;
    })
    else raise 401 "identity or membership inactive"
actor_of w _ _ = raise 401 "identity or membership inactive"

-- `actor_for(s, user_id, workspace)`: the rights of a user now, read from the database.
unfoldable pub actor_for : Db → String → String → Result Actor
unfolding actor_of
actor_for db user w = actor_of w (find user db.users) (membership w user db.memberships)

pub require_role-eq-ok :
    (a : Actor) (roles : List String) {u : Unit {0}}
    → require_role a roles ≡ ok u
    → elem a.role roles ≡ true
unfolding require_role
require_role-eq-ok a roles {u} h = guard-eq-ok (elem a.role roles) 403 _ {u = u} h

pub require-eq-ok :
    (a : Actor) (grant : String) {u : Unit {0}}
    → require a grant ≡ ok u
    → elem grant a.grants ≡ true
unfolding require
require-eq-ok a grant {u} h = guard-eq-ok (elem grant a.grants) 403 _ {u = u} h
