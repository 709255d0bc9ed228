-- ===== src/Contracts/Types.antt =====
-- The record types of contracts.py.
use rednexus_ai.Base.{ℕ, String, Bool, true, false, Option, List}
use rednexus_ai.Json.{Json, Fields}

pub data Mode : Type 0 where
  demo http disabled : Mode

pub data Effect : Type 0 where
  read propose write : Effect

-- `effect == "read"`.
abbrev pub is_read : Effect → Bool
is_read read = true
is_read _ = false

abbrev pub is_disabled : Mode → Bool
is_disabled disabled = true
is_disabled _ = false

abbrev pub is_demo : Mode → Bool
is_demo demo = true
is_demo _ = false

pub data Protocol : Type 0 where
  nexus redworld_v140 redworld_v200 redpulse_v400 redguard_v100 redforge_v161 redpa_v191 : Protocol

pub record CapabilitySpec : Type 0 where
  pub name : String
  pub project : String
  pub version : String
  pub description : String
  pub mode : Mode
  pub protocol : Protocol
  pub workspace_binding : Option String
  pub resource_binding : Option String
  pub effect : Effect
  pub approval : Bool
  pub endpoint : Option String
  pub health_endpoint : Option String
  pub credential_env : Option String
  pub timeout_seconds : ℕ
  pub max_attempts : ℕ
  pub estimated_cost_microunits : ℕ
  pub input_schema : Json
  pub output_schema : Json

pub data Format : Type 0 where
  value json : Format

pub record OutputBinding : Type 0 where
  pub step : ℕ
  pub pointer : String
  pub format : Format

pub data Operator : Type 0 where
  eq ne gt gte lt lte exists : Operator

-- A condition is a binding with a comparison.
pub record Condition : Type 0 where
  pub ref : OutputBinding
  pub op : Operator
  pub value : Json

pub record StepInput : Type 0 where
  pub capability : String
  pub input : Fields
  pub use_previous : Bool
  pub bindings : List (String × OutputBinding)
  pub when : Option Condition

pub record RunInput : Type 0 where
  pub title : String
  pub steps : List StepInput
  pub budget_microunits : ℕ
  pub max_tool_calls : ℕ
  pub deadline_seconds : ℕ

pub record ReviewInput : Type 0 where
  pub allow : Bool
  pub digest : String
  pub reason : String

pub data Outcome : Type 0 where
  confirmed_succeeded confirmed_failed abandon : Outcome

pub record ReconcileInput : Type 0 where
  pub outcome : Outcome
  pub evidence : String
  pub output : Json

pub record MemoryInput : Type 0 where
  pub namespace : String
  pub key : String
  pub text : String
  pub source : String
  pub ttl_seconds : ℕ
