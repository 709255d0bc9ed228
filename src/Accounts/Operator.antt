-- ===== src/Accounts/Operator.antt =====
-- The commands of cli.py that change users, memberships and workspaces.
use Prim.Native.Nat
use Prim.Native.String
use rednexus_ai.Base.{
  or_crash, value_error, ◌>>◌, String, Bool, true, false, not, ◌&&◌, ◌||◌, Option, none, some, List,
  [], ◌∷◌, ◌++◌, ◌==◌, elem, filter, map, if◌then◌else◌, Result, ok, raise, or_raise, ◌>>=◌,
}
use rednexus_ai.Base.Sorting.{sort}
use rednexus_ai.Base.Table.{find}
use rednexus_ai.Json.{str, obj, arr, texts}
use rednexus_ai.Contracts.{CapabilitySpec, is_disabled}
use rednexus_ai.Contracts.Dump.{fields}
use rednexus_ai.Env.{Env}
use rednexus_ai.Registry.{Registry}
use rednexus_ai.Sessions.{user_named}
use rednexus_ai.Store.{User, Membership, membership, emit}
use rednexus_ai.Extensions.Overview.{Tenancy, workspace_keyed, add_workspace}
use rednexus_ai.Accounts.Users.{
  UserInput, accept_user, UserInput, bootstrap, enrol, modify_membership,
}

unfoldable pub prefixed : String → List String → List String
prefixed kind names = map (λ n. String.◌++◌ kind n) names

unfoldable pub spec_names : Registry → List String
spec_names reg = map (λ (c : CapabilitySpec). c.name) reg

abbrev pub shared_grants : List String
shared_grants = "memory:shared:read" ∷ "memory:shared:write" ∷ "events:ingest" ∷ []

-- `grants(registry)`.
unfoldable pub all_grants : Registry → List String
unfolding prefixed spec_names
all_grants reg =
    prefixed "tool:" (spec_names reg) ++ (prefixed "review:" (spec_names reg) ++ shared_grants)

-- The user that the command `bootstrap` asks for.
unfoldable pub first_admin : Registry → String → String → UserInput
first_admin reg username password = record {
  username = username;
  password = password;
  role = "admin";
  grants = all_grants reg;
  kind = "human";
}

-- The command `bootstrap`. An input past the limits of `UserInput` is a ValidationError, which is a
-- ValueError.
unfoldable pub bootstrap_command :
    (String → String) → Registry → String → String → String → String → Tenancy → Result Tenancy
unfolding first_admin
bootstrap_command hash reg i w username password s = do
  or_crash value_error (if accept_user (first_admin reg username password) then some tt else none)
  bootstrap hash i w w (first_admin reg username password) s

unfoldable pub unbound : Option String → String → Bool
unbound none w = true
unbound (some b) w = b == "" || b == w

unfoldable pub usable : String → CapabilitySpec → Bool
usable w c = not (is_disabled c.mode) && unbound c.workspace_binding w

-- The order of texts by their characters.
abbrev pub text_le : String → String → Bool
text_le a b = elim (String.compare a b) [ Nat.Ordering.gt ↦ false | _ ↦ true ]

-- The texts that are not among others, each once.
unfoldable pub new_texts : List String → List String → List String
new_texts seen [] = []
new_texts seen (t ∷ ts) =
    let rest = new_texts seen ts in
    let others = new_texts (t ∷ seen) ts in if elem t seen then rest else t ∷ others

-- What the administrator gets: the tools and reviews of the workspace, sorted.
unfoldable pub added_grants : Registry → String → List String → List String
unfolding prefixed spec_names usable unbound
added_grants reg w old =
    let names = spec_names (filter (usable w) reg) in
    sort text_le (new_texts old (prefixed "tool:" names ++ prefixed "review:" names))

unfoldable pub merged_grants : List String → List String → List String
merged_grants old added = sort text_le (new_texts [] (old ++ added))

unfoldable pub is_active_admin : User → Membership → Bool
is_active_admin u m = u.enabled && m.enabled && m.role == "admin"

unfoldable pub synced : Env → Registry → String → User → Membership → Tenancy → Tenancy
synced env reg w u m s =
    let db = s.db in
    let added = added_grants reg w m.grants in
    record s {
      db =
          emit env w "identity.local_admin_grants_synced"
            (obj (
              fields (
                ("actor", str "local-operator-cli")
                ∷ ("user", str u.id)
                ∷ ("added", arr (texts added))
                ∷ [])))
            none
            (record db {
              memberships =
                  modify_membership w u.id (λ m. record m { grants = merged_grants m.grants added })
                    db.memberships;
            });
    }

unfoldable pub sync_found : Env → Registry → String → Option User → Tenancy → Result Tenancy
sync_found env reg w none s = raise 403 "an existing active administrator is required"
sync_found env reg w (some u) s = elim (membership w u.id s.db.memberships) [
  | none ↦ raise 403 "an existing active administrator is required"
  | some m ↦
      if is_active_admin u m
      then ok (synced env reg w u m s)
      else raise 403 "an existing active administrator is required"
]

-- The command `sync-admin-grants`, after the registry has been read again.
unfoldable pub sync_admin_grants : Env → Registry → String → String → Tenancy → Result Tenancy
unfolding sync_found synced is_active_admin
sync_admin_grants env reg w username s = sync_found env reg w (user_named username s.db.users) s

-- The command `add-membership`.
unfoldable pub add_membership : String → String → String → Tenancy → Result Tenancy
add_membership w username role s = do
  u ← or_raise 404 "user/workspace not found" (user_named username s.db.users)
  _ ← or_raise 404 "user/workspace not found" (find w s.workspaces)
  elim (membership w u.id s.db.memberships) [
    | some old ↦ raise 409 "membership already exists"
    | none ↦ ok (record s { db = enrol w u.id role [] s.db })
  ]

unfoldable pub active_user : Option User → Option User
active_user none = none
active_user (some u) = if u.enabled then some u else none

unfoldable pub operator_workspace : Env → String → String → Tenancy → Tenancy
operator_workspace env w user s =
    let t = add_workspace w w user s in
    record t {
      db =
          emit env w "workspace.created"
            (obj (fields (("actor", str "local-operator-cli") ∷ ("user", str user) ∷ []))) none
            t.db;
    }

-- The command `create-workspace`.
unfoldable pub create_workspace_command : Env → String → String → Tenancy → Result Tenancy
unfolding active_user operator_workspace
create_workspace_command env w username s = do
  u ← or_raise 404 "existing active user required" (active_user (user_named username s.db.users))
  elim (find w s.workspaces) [
    | some old ↦ raise 409 "workspace already exists"
    | none ↦ ok (operator_workspace env w u.id s)
  ]
