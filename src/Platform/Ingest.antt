-- ===== src/Platform/Ingest.antt =====
-- `Platform.ingest`: events of other systems start the workflows of the rules that wait for them.
use Prim.Native.String
use rednexus_ai.Base.{
  ℕ, suc, String, Bool, true, false, ◌&&◌, Option, none, some, List, [], ◌∷◌, ◌++◌, ◌==◌, filter,
  if◌then◌else◌, Result, ok, raise, raised, crashed, ◌>>=◌, ◌>>◌, index_error,
}
use rednexus_ai.Json.{Json, Fields, str, obj, arr, texts, set_field}
use rednexus_ai.Contracts.{StepInput}
use rednexus_ai.Contracts.Accept.{validated}
use rednexus_ai.Contracts.Dump.{fields}
use rednexus_ai.Env.{Env, Draws, digest}
use rednexus_ai.Identity.{Actor, require, actor_for}
use rednexus_ai.Registry.{Registry}
use rednexus_ai.Store.{Db, emit}
use rednexus_ai.Platform.Agents.{Rule}
use rednexus_ai.Platform.Submit.{submit_in}

pub record EventInput : Type 0 where
  pub id : String
  pub source : String
  pub type : String
  pub payload : Fields

-- A row of `Inbox`.
pub record Received : Type 0 where
  pub id : String
  pub workspace : String
  pub source : String
  pub external_id : String
  pub digest : String
  pub run_ids : List String

pub record Intake : Type 0 where
  pub db : Db
  pub rules : List Rule
  pub inbox : List Received

-- The answer of `ingest`.
pub record Accepted : Type 0 where
  pub duplicate : Bool
  pub run_ids : List String

unfoldable pub dump_event : EventInput → Json
dump_event e = obj (
    fields (
      ("id", str e.id)
      ∷ ("source", str e.source)
      ∷ ("type", str e.type)
      ∷ ("data", obj e.payload)
      ∷ []))

-- The row of an event, whose workspace, source and identifier are unique together.
unfoldable pub received_under : String → String → String → List Received → Option Received
received_under w source i [] = none
received_under w source i (r ∷ rs) =
    if r.workspace == w && r.source == source && r.external_id == i
    then some r
    else received_under w source i rs

-- The rules for an event of this producer.
abbrev pub is_for : Actor → EventInput → Rule → Bool
is_for actor e r =
    r.workspace == actor.workspace
    && r.producer_id == actor.id
    && r.source == e.source
    && r.event_type == e.type
    && r.enabled

-- The producer's data goes into one field of the first step's input.
unfoldable pub with_event : Fields → List StepInput → Result (List StepInput)
with_event payload [] = crashed index_error
with_event payload (s ∷ ss) = ok (record s { input = set_field "event" (obj payload) s.input } ∷ ss)

abbrev event_key : String → String → String
event_key record_id rule_id = String.◌++◌ "event:" (String.◌++◌ record_id (String.◌++◌ ":" rule_id))

-- The body of the loop over the rules: the workflow is submitted as its owner may submit it now.
unfoldable pub fire_rule :
    Env → Registry → Draws → Actor → EventInput → String → Rule → Db → Result (String × Db)
fire_rule env reg t actor e record_id rule db = do
  owner ← actor_for db rule.owner actor.workspace
  definition ← validated env rule.workflow
  steps ← with_event e.payload definition.steps
  r ←
      submit_in env reg t owner (record definition { steps = steps }) (event_key record_id rule.id)
        db
  ok (r.0.id, r.1)

unfoldable pub fire_rules :
    Env
    → Registry
    → (ℕ → Draws)
    → ℕ
    → Actor
    → EventInput
    → String
    → List Rule
    → Db
    → Result (List String × Db)
fire_rules env reg t i actor e record_id [] db = ok ([], db)
fire_rules env reg t i actor e record_id (rule ∷ rules) db = do
  first ← fire_rule env reg (t i) actor e record_id rule db
  rest ← fire_rules env reg t (suc i) actor e record_id rules first.1
  ok (first.0 ∷ rest.0, rest.1)

unfoldable pub accept_event :
    Env → String → Actor → EventInput → List String → Db → Intake → Accepted × Intake
accept_event env i actor e run_ids db s = (
  record { duplicate = false; run_ids = run_ids },
  record s {
    db =
        emit env actor.workspace "external_event.accepted"
          (obj (
            fields (
              ("event_id", str e.id)
              ∷ ("source", str e.source)
              ∷ ("producer", str actor.id)
              ∷ ("runs", arr (texts run_ids))
              ∷ [])))
          none db;
    inbox =
        s.inbox
        ++ record {
          id = i;
          workspace = actor.workspace;
          source = e.source;
          external_id = e.id;
          digest = digest env (dump_event e);
          run_ids = run_ids;
        }
          ∷ [];
  },
)

unfoldable pub ingest_found :
    Env
    → Registry
    → String
    → (ℕ → Draws)
    → Actor
    → EventInput
    → Option Received
    → Intake
    → Result (Accepted × Intake)
ingest_found env reg i t actor e (some old) s =
    if old.digest == digest env (dump_event e)
    then ok (record { duplicate = true; run_ids = old.run_ids }, s)
    else raise 409 "event ID reused with different data"
ingest_found env reg i t actor e none s = do
  fired ← fire_rules env reg t 0 actor e i (filter (is_for actor e) s.rules) s.db
  ok (accept_event env i actor e fired.0 fired.1 s)

unfoldable pub ingest_in :
    Env → Registry → String → (ℕ → Draws) → Actor → EventInput → Intake → Result (Accepted × Intake)
ingest_in env reg i t actor e s = do
  require actor "events:ingest"
  ingest_found env reg i t actor e (received_under actor.workspace e.source e.id s.inbox) s

abbrev pub take_in {ℓ} : {A : Type ℓ} → Intake → Result (A × Intake) → Result A × Intake
take_in s (ok (a, next)) = (ok a, next)
take_in s (raised p) = (raised p, s)
take_in s (crashed x) = (crashed x, s)

-- `ingest(actor, event)`: `i` is the identifier of the new row, and `t k` is for the k-th rule. A
-- transaction is atomic here, so that the `IntegrityError` of a concurrent one is not reached.
unfoldable pub ingest :
    Env → Registry → String → (ℕ → Draws) → Actor → EventInput → Intake → Result Accepted × Intake
ingest env reg i t actor e s = take_in s (ingest_in env reg i t actor e s)
