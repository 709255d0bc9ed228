-- ===== src/Platform/Agents.antt =====
-- `Platform.create_agent`, `get_agent` and `create_rule` of service.py, and `Registry.visible` of
-- adapters.py. Agents and rules are tables beside the database of runs.
use Prim.Native.String
use rednexus_ai.Base.{
  ◌>>=◌, ℕ, String, Bool, true, false, ◌&&◌, ◌||◌, Option, none, some, List, [], ◌∷◌, ◌++◌, ◌==◌,
  ◌≡◌, elem, filter, if◌then◌else◌, Result, ok, raise, guard, ◌>>◌, arith,
}
use rednexus_ai.Base.Table.{Keyed, find}
use rednexus_ai.Contracts.{CapabilitySpec, RunInput}
use rednexus_ai.Env.{Env}
use rednexus_ai.Identity.{Actor, require, require_role}
use rednexus_ai.Registry
use rednexus_ai.Registry.{Registry}
use rednexus_ai.Store.{Db, Membership, membership}
use rednexus_ai.Platform.Submit.{snapshot}

pub data Strategy : Type 0 where
  ordered model : Strategy

pub record AgentInput : Type 0 where
  pub name : String
  pub capabilities : List String
  pub strategy : Strategy
  pub budget_microunits : ℕ

pub record Agent : Type 0 where
  pub id : String
  pub workspace : String
  pub owner : String
  pub definition : AgentInput

pub record RuleInput : Type 0 where
  pub event_type : String
  pub source : String
  pub producer_id : String
  pub workflow : RunInput

pub record Rule : Type 0 where
  pub id : String
  pub workspace : String
  pub owner : String
  pub producer_id : String
  pub event_type : String
  pub source : String
  pub workflow : RunInput
  pub enabled : Bool

instance abbrev pub agent_keyed : Keyed Agent
agent_keyed = record { key = λ a. a.id }

-- The loop over the capabilities: each is in the registry, and the actor may use it.
unfoldable pub check_capabilities : Registry → Actor → List String → Result (Unit {0})
check_capabilities reg actor [] = ok tt
check_capabilities reg actor (c ∷ cs) = do
  _ ← Registry.get reg c
  require actor (String.◌++◌ "tool:" c)
  check_capabilities reg actor cs

-- `create_agent(actor, data)`, under the identifier `i` that is drawn.
unfoldable pub create_agent :
    Registry → String → Actor → AgentInput → List Agent → Result (Agent × List Agent)
create_agent reg i actor d agents = do
  require_role actor ("admin" ∷ "operator" ∷ [])
  check_capabilities reg actor d.capabilities
  ok (agent_of i actor d, agents ++ agent_of i actor d ∷ [])
  where
    agent_of : String → Actor → AgentInput → Agent
    agent_of i actor d = record {
      id = i;
      workspace = actor.workspace;
      owner = actor.id;
      definition = d;
    }

own_agent : Actor → Option Agent → Result Agent
own_agent actor none = raise 404 "agent not found"
own_agent actor (some a) =
    if a.workspace == actor.workspace && a.owner == actor.id
    then ok a
    else raise 404 "agent not found"

-- `get_agent(actor, agent_id)`.
unfoldable pub get_agent : Actor → String → List Agent → Result Agent
unfolding own_agent
get_agent actor i agents = own_agent actor (find i agents)

abbrev pub may_produce : Option Membership → Bool
may_produce none = false
may_produce (some m) = m.enabled && elem "events:ingest" m.grants

unfoldable pub new_rule : String → Actor → RuleInput → Rule
new_rule i actor d = record {
  id = i;
  workspace = actor.workspace;
  owner = actor.id;
  producer_id = d.producer_id;
  event_type = d.event_type;
  source = d.source;
  workflow = d.workflow;
  enabled = true;
}

-- `create_rule(actor, data)`.
unfoldable pub create_rule :
    Env → Registry → String → Actor → RuleInput → Db → List Rule → Result (List Rule)
create_rule env reg i actor d db rules = do
  require_role actor ("admin" ∷ "operator" ∷ [])
  _ ← snapshot env reg actor d.workflow
  guard (may_produce (membership actor.workspace d.producer_id db.memberships)) 422
      "producer requires active membership and events:ingest grant"
  ok (rules ++ new_rule i actor d ∷ [])

unbound : Option String → String → Bool
unbound none w = true
unbound (some b) w = b == "" || b == w

-- `visible(actor)`: the contracts that the actor is shown.
unfoldable pub visible_specs : Actor → Registry → Registry
unfolding unbound
visible_specs actor reg =
    filter
      (λ (c : CapabilitySpec).
        (elem (String.◌++◌ "tool:" c.name) actor.grants || actor.role == "admin")
        && unbound c.workspace_binding actor.workspace)
      reg

-- An agent that is given is the stored one, in the actor's workspace and owned by the actor.
pub get_agent-own :
    (actor : Actor) (i : String) (agents : List Agent) (a : Agent)
    → get_agent actor i agents ≡ ok a
    → (find i agents ≡ some a)
      × ((a.workspace == actor.workspace) ≡ true)
      × ((a.owner == actor.id) ≡ true)
unfolding get_agent
get_agent-own actor i agents a h = ground arith
