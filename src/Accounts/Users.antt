-- ===== src/Accounts/Users.antt =====
-- `Identity.create_user` and `bootstrap`, and the API's endpoints for users and rules.
use rednexus_ai.Base.Text.{account_chars, text_length, starts_with}
use rednexus_ai.Base.{
  length, elem, leb, ℕ, String, Bool, true, false, not, ◌&&◌, ◌||◌, none, some, List, [], ◌∷◌, ◌++◌,
  ◌==◌, if◌then◌else◌, Result, ok, raise, guard, or_raise, ◌>>=◌, ◌>>◌,
}
use rednexus_ai.Base.Table.{find}
use rednexus_ai.Json.{str, obj}
use rednexus_ai.Contracts.Dump.{fields}
use rednexus_ai.Env.{Env}
use rednexus_ai.Identity.{Actor, require_role}
use rednexus_ai.Sessions.{user_named}
use rednexus_ai.Store.{Db, User, Membership, membership, emit}
use rednexus_ai.Extensions.Overview.{Tenancy, workspace_keyed}

pub record UserInput : Type 0 where
  pub username : String
  pub password : String
  pub role : String
  pub grants : List String
  pub kind : String

within_limits : ℕ → ℕ → ℕ → Bool
within_limits low high n = leb low n && leb n high

-- The limits of `UserInput`.
unfoldable pub accept_user : UserInput → Bool
unfolding within_limits
accept_user d =
    within_limits 3 80 (text_length d.username)
    && account_chars d.username
    && within_limits 12 256 (text_length d.password)
    && elem d.role ("admin" ∷ "operator" ∷ "reviewer" ∷ "viewer" ∷ [])
    && leb (length d.grants) 100
    && elem d.kind ("human" ∷ "service" ∷ [])

pub record AccessInput : Type 0 where
  pub role : String
  pub grants : List String
  pub enabled : Bool

unfoldable pub has_platform : List String → Bool
has_platform [] = false
has_platform (g ∷ gs) = starts_with "platform:" g || has_platform gs

unfoldable pub new_user : (String → String) → String → UserInput → User
new_user hash i d = record {
  id = i;
  username = d.username;
  password_hash = hash d.password;
  kind = d.kind;
  enabled = true;
}

unfoldable pub enrol : String → String → String → List String → Db → Db
enrol w user role grants db = record db {
  memberships =
      db.memberships
      ++ record { workspace = w; user_id = user; role = role; grants = grants; enabled = true }
        ∷ [];
}

unfoldable pub add_user : (String → String) → String → String → UserInput → Db → Db
add_user hash i w d db =
    enrol w i d.role d.grants (record db { users = db.users ++ new_user hash i d ∷ [] })

-- `create_user(s, workspace, data)`, with `password_hash` and the identifier that is drawn.
unfoldable pub create_user : (String → String) → String → String → UserInput → Db → Result Db
unfolding add_user
create_user hash i w d db = elim (user_named d.username db.users) [
  | some old ↦ raise 409 "username already exists; add membership via operator CLI"
  | none ↦ ok (add_user hash i w d db)
]

-- `bootstrap(workspace, name, data)`.
unfoldable pub bootstrap :
    (String → String) → String → String → String → UserInput → Tenancy → Result Tenancy
bootstrap hash i w name d s = elim (find w s.workspaces) [
  | some old ↦ raise 409 "workspace exists; bootstrap never resets credentials"
  | none ↦ (do
    db ← create_user hash i w d s.db
    ok (record s { db = db; workspaces = s.workspaces ++ record { id = w; name = name } ∷ [] }))
]

-- `user_create(data)` of api.py.
unfoldable pub user_create :
    Env → (String → String) → String → Actor → UserInput → Tenancy → Result Tenancy
user_create env hash i actor d s = do
  require_role actor ("admin" ∷ [])
  guard (not (has_platform d.grants)) 403
      "platform grants can only be assigned by the local operator"
  db ← create_user hash i actor.workspace d s.db
  ok (record s {
    db =
        emit env actor.workspace "identity.created"
          (obj (fields (("actor", str actor.id) ∷ ("user", str i) ∷ []))) none db;
  })

-- A write to the row with a primary key of two columns.
unfoldable pub modify_membership :
    String → String → (Membership → Membership) → List Membership → List Membership
modify_membership w u f [] = []
modify_membership w u f (m ∷ ms) =
    let rest = modify_membership w u f ms in
    if m.workspace == w && m.user_id == u then f m ∷ ms else m ∷ rest

-- `user_access(user_id, data)` of api.py.
unfoldable pub user_access : Env → Actor → String → AccessInput → Tenancy → Result Tenancy
user_access env actor user d s = do
  require_role actor ("admin" ∷ [])
  guard (not (has_platform d.grants)) 403
      "platform grants can only be assigned by the local operator"
  guard (not (user == actor.id)) 409 "use a different administrator to change your own access"
  m ← or_raise 404 "membership not found" (membership actor.workspace user s.db.memberships)
  let db = s.db
  ok (record s {
    db =
        emit env actor.workspace "identity.access_changed"
          (obj (fields (("actor", str actor.id) ∷ ("user", str user) ∷ []))) none
          (record db {
            memberships =
                modify_membership actor.workspace user
                  (λ m. record m { role = d.role; grants = d.grants; enabled = d.enabled })
                  db.memberships;
          });
  })
