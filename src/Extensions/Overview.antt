-- ===== src/Extensions/Overview.antt =====
-- Workspaces, the registration of capabilities, and what administrators are shown.
use rednexus_ai.Base.{
  ◌*◌, ℕ, ◌+◌, String, Bool, true, false, not, ◌&&◌, ◌||◌, Option, none, some, List, [], ◌∷◌, ◌++◌,
  ◌==◌, elem, filter, map, count, ltb, leb, if◌then◌else◌, Result, ok, crashed, guard, ◌>>=◌, ◌>>◌,
  integrity_error,
}
use rednexus_ai.Base.Sorting.{sort, first_rows}
use rednexus_ai.Base.Table.{Keyed, find}
use rednexus_ai.Json.{str, obj}
use rednexus_ai.Contracts.{CapabilitySpec}
use rednexus_ai.Contracts.Dump.{fields, dump_spec}
use rednexus_ai.Env.{Env, digest}
use rednexus_ai.Identity.{Actor, actor_for, require, require_role}
use rednexus_ai.Registry.{Registry, spec_named}
use rednexus_ai.Store.{
  Db, Run, Event, Membership, Status, failed, blocked, needs_reconciliation, expired, membership,
  emit,
}
use rednexus_ai.Platform.Listing.{RunView, run_view}
use rednexus_ai.Extensions.Groups.{MissionGroup}

pub record Workspace : Type 0 where
  pub id : String
  pub name : String

instance abbrev pub workspace_keyed : Keyed Workspace
workspace_keyed = record { key = λ w. w.id }

pub record CapabilityRegistration : Type 0 where
  pub workspace : String
  pub name : String
  pub spec : CapabilitySpec
  pub updated : ℕ

instance abbrev pub registration_keyed : Keyed CapabilityRegistration
registration_keyed = record { key = λ r. r.name }

-- What a worker last said of itself.
pub record WorkerHeartbeat : Type 0 where
  pub id : String
  pub updated : ℕ
  pub status : String

pub record Tenancy : Type 0 where
  pub db : Db
  pub workspaces : List Workspace
  pub registrations : List CapabilityRegistration

-- The rows that a new workspace adds: itself, and its first administrator, who has no grants.
unfoldable pub add_workspace : String → String → String → Tenancy → Tenancy
add_workspace i name user s =
    let db = s.db in
    record s {
      db = record db {
        memberships =
            db.memberships
            ++ record { workspace = i; user_id = user; role = "admin"; grants = []; enabled = true }
              ∷ [];
      };
      workspaces = s.workspaces ++ record { id = i; name = name } ∷ [];
    }

unfoldable pub is_new : Option Workspace → Option Membership → Bool
is_new none none = true
is_new _ _ = false

unfoldable pub created_workspace : Env → Actor → String → String → Tenancy → Tenancy
created_workspace env actor i name s =
    let t = add_workspace i name actor.id s in
    record t {
      db =
          emit env actor.workspace "workspace.created"
            (obj (fields (("workspace", str i) ∷ ("actor", str actor.id) ∷ []))) none t.db;
    }

unfoldable pub guarded_workspace : Env → Actor → String → String → Tenancy → Result Tenancy
guarded_workspace env actor i name s =
    if is_new (find i s.workspaces) (membership i actor.id s.db.memberships)
    then ok (created_workspace env actor i name s)
    else crashed integrity_error

-- `create_workspace(data)`. Its keys are primary, so rows that are there are an `IntegrityError`.
unfoldable pub create_workspace : Env → Actor → String → String → Tenancy → Result Tenancy
unfolding is_new created_workspace guarded_workspace
create_workspace env actor i name s = do
  require_role actor ("admin" ∷ [])
  require actor "platform:workspaces:create"
  guarded_workspace env actor i name s

-- `digest(existing) != digest(data)` under one version.
changed_silently : Env → CapabilitySpec → Option CapabilitySpec → Bool
changed_silently env d none = false
changed_silently env d (some old) =
    old.version == d.version && not (digest env (dump_spec old) == digest env (dump_spec d))

same_binding : Option String → Option String → Bool
same_binding none none = true
same_binding (some v) (some w) = v == w
same_binding _ _ = false

reserved : Actor → Option CapabilitySpec → Bool
reserved actor none = false
reserved actor (some old) = not (same_binding old.workspace_binding (some actor.workspace))

-- `s.get(CapabilityRegistration, (workspace, name))`.
unfoldable pub registration_of :
    String → String → List CapabilityRegistration → Option CapabilityRegistration
registration_of w n [] = none
registration_of w n (r ∷ rs) =
    if r.workspace == w && r.name == n then some r else registration_of w n rs

unfoldable pub replace_spec :
    String → CapabilitySpec → ℕ → List CapabilityRegistration → List CapabilityRegistration
replace_spec w d now [] = []
replace_spec w d now (r ∷ rs) =
    if r.workspace == w && r.name == d.name
    then record r { spec = d; updated = now } ∷ rs
    else r ∷ replace_spec w d now rs

store_spec :
    Actor
    → CapabilitySpec
    → ℕ
    → Option CapabilityRegistration
    → List CapabilityRegistration
    → Result (List CapabilityRegistration)
store_spec actor d now (some old) rs = ok (replace_spec actor.workspace d now rs)
store_spec actor d now none rs = elim (find d.name rs) [
  | none ↦
      ok (rs ++ record { workspace = actor.workspace; name = d.name; spec = d; updated = now } ∷ [])
  | some other ↦ crashed integrity_error
]

registered : Env → Actor → CapabilitySpec → List CapabilityRegistration → Tenancy → Tenancy
registered env actor d rs s = record s {
  db =
      emit env actor.workspace "capability.registered"
        (obj (
          fields
            (("name", str d.name) ∷ ("version", str d.version) ∷ ("actor", str actor.id) ∷ [])))
        none s.db;
  registrations = rs;
}

-- `register(data)`: `checked` is what the constructor of a registry with only this contract says of
-- it, and `reg` the registry after it was read again.
unfoldable pub register :
    Env → Result (Unit {0}) → Registry → ℕ → Actor → CapabilitySpec → Tenancy → Result Tenancy
unfolding same_binding reserved changed_silently store_spec registered
register env checked reg now actor d s = do
  require_role actor ("admin" ∷ [])
  guard (same_binding d.workspace_binding (some actor.workspace)) 422
      "registration must be bound to this workspace"
  checked
  guard (not (reserved actor (spec_named d.name reg))) 409
      "capability name reserved by another scope"
  guard (not (changed_silently env d (spec_named d.name reg))) 409
      "changed contracts require a new version"
  rs ←
      store_spec actor d now (registration_of actor.workspace d.name s.registrations)
        s.registrations
  ok (registered env actor d rs s)

abbrev is_dead : Status → Bool
is_dead failed = true
is_dead blocked = true
is_dead needs_reconciliation = true
is_dead expired = true
is_dead _ = false

abbrev dead_letter_for : Actor → Run → Bool
dead_letter_for actor r =
    r.workspace == actor.workspace
    && is_dead r.status
    && (actor.role == "admin" || r.owner == actor.id)

abbrev later_updated : Run → Run → Bool
later_updated r q = leb q.updated r.updated

-- `dead_letters(limit)`.
unfoldable pub dead_letters : Actor → ℕ → Db → Result (List RunView)
dead_letters actor limit db = do
  require_role actor ("admin" ∷ "operator" ∷ [])
  ok (map run_view (first_rows limit (sort later_updated (filter (dead_letter_for actor) db.runs))))

abbrev listed_group : Actor → MissionGroup → Bool
listed_group actor g =
    g.workspace == actor.workspace
    && (elem actor.role ("admin" ∷ "reviewer" ∷ []) || g.owner == actor.id)

-- `list_groups()`: identifiers and titles.
unfoldable pub list_groups : Actor → List MissionGroup → List (String × String)
list_groups actor gs =
    map (λ (g : MissionGroup). (g.id, g.title)) (first_rows 100 (filter (listed_group actor) gs))

pub record Operations : Type 0 where
  pub reserved_cost : ℕ
  pub outbox_pending : ℕ
  pub workers_alive : ℕ
  pub workers_stale : ℕ

cost_in : String → List Run → ℕ
cost_in w [] = 0
cost_in w (r ∷ rs) = let rest = cost_in w rs in if r.workspace == w then r.cost + rest else rest

abbrev is_pending_in : String → Event → Bool
is_pending_in w e = e.workspace == w && not e.published

abbrev is_alive : ℕ → ℕ → WorkerHeartbeat → Bool
is_alive now span w = w.status == "running" && ltb now (w.updated + span)

abbrev is_late : ℕ → ℕ → WorkerHeartbeat → Bool
is_late now span w = w.status == "running" && leb (w.updated + span) now

summary : Env → (ℕ → ℕ) → Actor → List WorkerHeartbeat → Db → Operations
summary env t actor workers db = record {
  reserved_cost = cost_in actor.workspace db.runs;
  outbox_pending = count (is_pending_in actor.workspace) db.events;
  workers_alive = count (is_alive (t 0) (30 * env.second)) workers;
  workers_stale = count (is_late (t 1) (30 * env.second)) workers;
}

-- `operations()`, without the table of counts by status. The clock is read for each worker; here one
-- reading serves for a sum.
unfoldable pub operations : Env → (ℕ → ℕ) → Actor → List WorkerHeartbeat → Db → Result Operations
unfolding cost_in summary
operations env t actor workers db = do
  require_role actor ("admin" ∷ [])
  ok (summary env t actor workers db)

-- `access_check()`: the rights of the caller now.
unfoldable pub access_check : Actor → Db → Result Actor
access_check actor db = actor_for db actor.id actor.workspace
