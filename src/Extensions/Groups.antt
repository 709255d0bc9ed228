-- ===== src/Extensions/Groups.antt =====
-- Mission groups: several workflows submitted at once, each on behalf of an agent.
use Prim.Native.String
use rednexus_ai.Base.{
  ℕ, suc, ◌+◌, String, Bool, true, ◌&&◌, ◌||◌, Option, none, some, List, [], ◌∷◌, ◌++◌, ◌==◌, elem,
  leb, map, if◌then◌else◌, Result, ok, raise, guard, ◌>>=◌, ◌>>◌, raised, crashed,
}
use rednexus_ai.Base.Table.{Keyed, find}
use rednexus_ai.Base.Text.{show}
use rednexus_ai.Json.{Json, Items, str, obj, arr, nil, cons}
use rednexus_ai.Contracts.{StepInput, RunInput}
use rednexus_ai.Contracts.Dump.{fields, num, dump_run}
use rednexus_ai.Env.{Env, Draws, digest}
use rednexus_ai.Identity.{Actor, require_role}
use rednexus_ai.Registry.{Registry}
use rednexus_ai.Store.{Db, Run, Status, emit, is_completed}
use rednexus_ai.Platform.Access.{accessible_run}
use rednexus_ai.Platform.Agents.{Agent, get_agent}
use rednexus_ai.Platform.Submit.{submit_in}

pub record Assignment : Type 0 where
  pub agent_id : String
  pub workflow : RunInput

pub record GroupInput : Type 0 where
  pub title : String
  pub assignments : List Assignment
  pub budget_microunits : ℕ

-- An entry of `MissionGroup.runs`.
pub record GroupRun : Type 0 where
  pub agent_id : String
  pub run_id : String

pub record MissionGroup : Type 0 where
  pub id : String
  pub workspace : String
  pub owner : String
  pub request_key : String
  pub request_digest : String
  pub title : String
  pub runs : List GroupRun
  pub budget : ℕ
  pub created : ℕ

instance abbrev pub group_keyed : Keyed MissionGroup
group_keyed = record { key = λ g. g.id }

-- The tables that the operations on groups read and write.
pub record Desk : Type 0 where
  pub db : Db
  pub agents : List Agent
  pub groups : List MissionGroup

unfoldable pub total_budget : List Assignment → ℕ
total_budget [] = 0
total_budget (a ∷ rest) = a.workflow.budget_microunits + total_budget rest

dump_assignments : List Assignment → Items
dump_assignments [] = nil
dump_assignments (a ∷ rest) =
    cons (obj (fields (("agent_id", str a.agent_id) ∷ ("workflow", dump_run a.workflow) ∷ [])))
      (dump_assignments rest)

-- `data.model_dump()`.
unfoldable pub dump_group : GroupInput → Json
unfolding dump_assignments
dump_group d = obj (
    fields (
      ("title", str d.title)
      ∷ ("assignments", arr (dump_assignments d.assignments))
      ∷ ("budget_microunits", num d.budget_microunits)
      ∷ []))

dump_runs : List GroupRun → Items
dump_runs [] = nil
dump_runs (r ∷ rest) =
    cons (obj (fields (("agent_id", str r.agent_id) ∷ ("run_id", str r.run_id) ∷ [])))
      (dump_runs rest)

-- The group of an owner under a key, which is unique with the workspace.
unfoldable pub group_under : String → String → String → List MissionGroup → Option MissionGroup
group_under w owner k [] = none
group_under w owner k (g ∷ gs) =
    if g.workspace == w && g.owner == owner && g.request_key == k
    then some g
    else group_under w owner k gs

unfoldable pub in_scope : List String → List StepInput → Bool
in_scope names [] = true
in_scope names (s ∷ ss) = elem s.capability names && in_scope names ss

abbrev pub assignment_key : String → ℕ → String
assignment_key k i = String.◌++◌ "group:" (String.◌++◌ k (String.◌++◌ ":" (show i)))

-- The body of the loop over the assignments.
unfoldable pub submit_assignment :
    Env
    → Registry
    → Draws
    → Actor
    → String
    → ℕ
    → List Agent
    → Assignment
    → Db
    → Result (GroupRun × Db)
submit_assignment env reg t actor k i agents a db = do
  agent ← get_agent actor a.agent_id agents
  guard (leb a.workflow.budget_microunits agent.definition.budget_microunits) 422
      "assignment exceeds agent budget"
  guard (in_scope agent.definition.capabilities a.workflow.steps) 403
      "assignment exceeds agent capability scope"
  r ← submit_in env reg t actor a.workflow (assignment_key k i) db
  ok (record { agent_id = a.agent_id; run_id = r.0.id }, r.1)

unfoldable pub submit_assignments :
    Env
    → Registry
    → (ℕ → Draws)
    → Actor
    → String
    → ℕ
    → List Agent
    → List Assignment
    → Db
    → Result (List GroupRun × Db)
submit_assignments env reg t actor k i agents [] db = ok ([], db)
submit_assignments env reg t actor k i agents (a ∷ rest) db = do
  r ← submit_assignment env reg (t i) actor k i agents a db
  rs ← submit_assignments env reg t actor k (suc i) agents rest r.1
  ok (r.0 ∷ rs.0, rs.1)

-- The group that is added, with what its identifier and time are drawn from.
unfoldable pub new_group : Env → Draws → Actor → GroupInput → String → List GroupRun → MissionGroup
new_group env t actor d k runs = record {
  id = t.uid 0;
  workspace = actor.workspace;
  owner = actor.id;
  request_key = k;
  request_digest = digest env (dump_group d);
  title = d.title;
  runs = runs;
  budget = d.budget_microunits;
  created = t.clock 0;
}

unfoldable pub add_group :
    Env → Draws → Actor → GroupInput → String → List GroupRun → Db → Desk → MissionGroup × Desk
unfolding dump_runs
add_group env t actor d k runs db desk =
    let g = new_group env t actor d k runs in
    (
      g,
      record desk {
        db =
            emit env actor.workspace "mission_group.submitted"
              (obj (fields (("id", str g.id) ∷ ("runs", arr (dump_runs runs)) ∷ []))) none db;
        groups = desk.groups ++ g ∷ [];
      },
    )

unfoldable pub admit_group :
    Env
    → Registry
    → Draws
    → (ℕ → Draws)
    → Actor
    → GroupInput
    → String
    → Option MissionGroup
    → Desk
    → Result (MissionGroup × Desk)
admit_group env reg own t actor d k (some old) desk =
    if old.request_digest == digest env (dump_group d)
    then ok (old, desk)
    else raise 409 "group idempotency key conflict"
admit_group env reg own t actor d k none desk = do
  rs ← submit_assignments env reg t actor k 0 desk.agents d.assignments desk.db
  ok (add_group env own actor d k rs.0 rs.1 desk)

-- What is checked before the transaction.
unfoldable pub check_group : Actor → GroupInput → String → Result (Unit {0})
check_group actor d k = do
  require_role actor ("admin" ∷ "operator" ∷ [])
  guard (leb 1 (String.count k) && leb (String.count k) 160) 422
      "group idempotency key must contain 1..160 characters"
  guard (leb (total_budget d.assignments) d.budget_microunits) 422
      "assigned budgets exceed mission group budget"

unfoldable pub submit_group_in :
    Env
    → Registry
    → Draws
    → (ℕ → Draws)
    → Actor
    → GroupInput
    → String
    → Desk
    → Result (MissionGroup × Desk)
submit_group_in env reg own t actor d k desk = do
  check_group actor d k
  admit_group env reg own t actor d k (group_under actor.workspace actor.id k desk.groups) desk

abbrev pub at_desk {ℓ} : {A : Type ℓ} → Desk → Result (A × Desk) → Result A × Desk
at_desk desk (ok (a, next)) = (ok a, next)
at_desk desk (raised p) = (raised p, desk)
at_desk desk (crashed x) = (crashed x, desk)

-- `submit_group(data, idempotency_key)`: one transaction, with `t i` for the i-th assignment.
unfoldable pub submit_group :
    Env
    → Registry
    → Draws
    → (ℕ → Draws)
    → Actor
    → GroupInput
    → String
    → Desk
    → Result MissionGroup × Desk
submit_group env reg own t actor d k desk =
    at_desk desk (submit_group_in env reg own t actor d k desk)

abbrev sees_group : Actor → MissionGroup → Bool
sees_group actor g =
    g.workspace == actor.workspace
    && (g.owner == actor.id || elem actor.role ("admin" ∷ "reviewer" ∷ []))

pub record GroupStatus : Type 0 where
  pub id : String
  pub title : String
  pub budget : ℕ
  pub cost : ℕ
  pub completed : Bool
  pub runs : List (String × Status × ℕ)

group_runs : Actor → List GroupRun → Db → Result (List Run)
group_runs actor [] db = ok []
group_runs actor (g ∷ gs) db = do
  r ← accessible_run actor g.run_id db
  rs ← group_runs actor gs db
  ok (r ∷ rs)

total_cost : List Run → ℕ
total_cost [] = 0
total_cost (r ∷ rs) = r.cost + total_cost rs

all_completed : List Run → Bool
all_completed [] = true
all_completed (r ∷ rs) = is_completed r.status && all_completed rs

status_of : MissionGroup → List Run → GroupStatus
status_of g rs = record {
  id = g.id;
  title = g.title;
  budget = g.budget;
  cost = total_cost rs;
  completed = all_completed rs;
  runs = map (λ (r : Run). (r.id, r.status, r.cost)) rs;
}

shown_group : Actor → Option MissionGroup → Result MissionGroup
shown_group actor none = raise 404 "mission group not found"
shown_group actor (some g) =
    if sees_group actor g then ok g else raise 404 "mission group not found"

-- `group_status(group_id)`.
unfoldable pub group_status : Actor → String → Desk → Result GroupStatus
unfolding shown_group group_runs status_of total_cost all_completed
group_status actor i desk = do
  g ← shown_group actor (find i desk.groups)
  rs ← group_runs actor g.runs desk.db
  ok (status_of g rs)
