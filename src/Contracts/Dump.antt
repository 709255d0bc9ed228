-- ===== src/Contracts/Dump.antt =====
-- `model_dump()`: a contract as a plain value, its fields in the order of their declaration.
use rednexus_ai.Base.{ℕ, String, Option, none, some, List, [], ◌∷◌}
use rednexus_ai.Json.{
  Json, Items, Fields, null, bool, int, str, arr, obj, nil, cons, end, field, pos,
}
use rednexus_ai.Contracts.Types.{
  Mode, Effect, Protocol, CapabilitySpec, Format, OutputBinding, Operator, Condition, StepInput,
  RunInput, Outcome, demo, http, disabled, read, propose, write, nexus, redworld_v140,
  redworld_v200, redpulse_v400, redguard_v100, redforge_v161, redpa_v191, value, json, eq, ne, gt,
  gte, lt, lte, exists, confirmed_succeeded, confirmed_failed, abandon,
}

pub num : ℕ → Json
num n = int (pos n)

pub optional : Option String → Json
optional none = null
optional (some s) = str s

pub mode_text : Mode → String
mode_text demo = "demo"
mode_text http = "http"
mode_text disabled = "disabled"

pub effect_text : Effect → String
effect_text read = "read"
effect_text propose = "propose"
effect_text write = "write"

pub protocol_text : Protocol → String
protocol_text nexus = "nexus"
protocol_text redworld_v140 = "redworld_v140"
protocol_text redworld_v200 = "redworld_v200"
protocol_text redpulse_v400 = "redpulse_v400"
protocol_text redguard_v100 = "redguard_v100"
protocol_text redforge_v161 = "redforge_v161"
protocol_text redpa_v191 = "redpa_v191"

-- A `dict` from its entries.
pub fields : List (String × Json) → Fields
fields [] = end
fields ((k, v) ∷ kvs) = field k v (fields kvs)

pub dump_spec : CapabilitySpec → Json
dump_spec c = obj (
    fields (
      ("name", str c.name)
      ∷ ("project", str c.project)
      ∷ ("version", str c.version)
      ∷ ("description", str c.description)
      ∷ ("mode", str (mode_text c.mode))
      ∷ ("protocol", str (protocol_text c.protocol))
      ∷ ("workspace_binding", optional c.workspace_binding)
      ∷ ("resource_binding", optional c.resource_binding)
      ∷ ("effect", str (effect_text c.effect))
      ∷ ("approval", bool c.approval)
      ∷ ("endpoint", optional c.endpoint)
      ∷ ("health_endpoint", optional c.health_endpoint)
      ∷ ("credential_env", optional c.credential_env)
      ∷ ("timeout_seconds", num c.timeout_seconds)
      ∷ ("max_attempts", num c.max_attempts)
      ∷ ("estimated_cost_microunits", num c.estimated_cost_microunits)
      ∷ ("input_schema", c.input_schema)
      ∷ ("output_schema", c.output_schema)
      ∷ []))

format_text : Format → String
format_text value = "value"
format_text json = "json"

operator_text : Operator → String
operator_text eq = "eq"
operator_text ne = "ne"
operator_text gt = "gt"
operator_text gte = "gte"
operator_text lt = "lt"
operator_text lte = "lte"
operator_text exists = "exists"

dump_binding : OutputBinding → Json
dump_binding b = obj (
    fields (
      ("step", num b.step)
      ∷ ("pointer", str b.pointer)
      ∷ ("format", str (format_text b.format))
      ∷ []))

dump_bindings : List (String × OutputBinding) → Fields
dump_bindings [] = end
dump_bindings ((k, b) ∷ bs) = field k (dump_binding b) (dump_bindings bs)

dump_condition : Option Condition → Json
dump_condition none = null
dump_condition (some c) = obj (
    fields (
      ("step", num c.ref.step)
      ∷ ("pointer", str c.ref.pointer)
      ∷ ("format", str (format_text c.ref.format))
      ∷ ("op", str (operator_text c.op))
      ∷ ("value", c.value)
      ∷ []))

dump_step : StepInput → Json
dump_step s = obj (
    fields (
      ("capability", str s.capability)
      ∷ ("input", obj s.input)
      ∷ ("use_previous", bool s.use_previous)
      ∷ ("bindings", obj (dump_bindings s.bindings))
      ∷ ("when", dump_condition s.when)
      ∷ []))

dump_steps : List StepInput → Items
dump_steps [] = nil
dump_steps (s ∷ ss) = cons (dump_step s) (dump_steps ss)

pub dump_run : RunInput → Json
dump_run w = obj (
    fields (
      ("title", str w.title)
      ∷ ("steps", arr (dump_steps w.steps))
      ∷ ("budget_microunits", num w.budget_microunits)
      ∷ ("max_tool_calls", num w.max_tool_calls)
      ∷ ("deadline_seconds", num w.deadline_seconds)
      ∷ []))

pub outcome_text : Outcome → String
outcome_text confirmed_succeeded = "confirmed_succeeded"
outcome_text confirmed_failed = "confirmed_failed"
outcome_text abandon = "abandon"
