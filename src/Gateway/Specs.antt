-- ===== src/Gateway/Specs.antt =====
-- `CapabilitySpec.valid` of contracts.py and `validate_native_spec` of native.py, on the fields that
-- pydantic has read. The JSON Schema library and `urlsplit` are outside.
use rednexus_ai.Base.{
  String, Bool, true, false, not, ◌&&◌, ◌||◌, Option, none, some, ◌==◌, if◌then◌else◌, leb,
}
use rednexus_ai.Base.Text.{contains, ends_with_rev}
use rednexus_ai.Json.{Json}
use rednexus_ai.Contracts.{
  CapabilitySpec, Mode, Effect, Protocol, http, is_read, read, write, nexus, redworld_v140,
  redworld_v200, redpulse_v400, redguard_v100, redforge_v161, redpa_v191,
}
use rednexus_ai.Contracts.Accept.{within}
use rednexus_ai.Contracts.Dump.{effect_text, protocol_text}
use rednexus_ai.Env.{Env}

-- The parts of an address that `urlsplit` finds.
pub record Url : Type 0 where
  pub scheme : String
  pub netloc : String
  pub path : String
  pub query : String
  pub fragment : String
  pub username : Option String
  pub password : Option String

pub record Outside : Type 0 where
  -- whether `Draft202012Validator.check_schema` returns
  pub schema_ok : Json → Bool
  pub split : String → Url

-- The truth of a field that may be `None`.
abbrev pub given : Option String → Bool
given none = false
given (some s) = not (s == "")

abbrev pub is_http : Mode → Bool
is_http http = true
is_http _ = false

-- What `OPERATIONS` says of a native capability.
pub record Native : Type 0 where
  pub protocol : Protocol
  pub project : String
  pub effect : Effect
  pub path : String

native_of : Protocol → String → Effect → String → Option Native
native_of protocol project effect path =
    some (record { protocol = protocol; project = project; effect = effect; path = path })

unfoldable pub native_operation : String → Option Native
unfolding native_of
native_operation name =
    if name == "redpulse.analyze"
    then native_of redpulse_v400 "redpulse" read "/api/v1/platform/v40/intelligence/evaluate"
    else if name == "redguard.inspect"
    then native_of redguard_v100 "redguard" write "/api/v1/inspections"
    else if name == "redforge.scan"
    then native_of redforge_v161 "redforge" read "/api/v1/repository/scan"
    else if name == "redpa.documents"
    then native_of redpa_v191 "redpa" read "/api/v1/documents"
    else if name == "redpa.chat"
    then native_of redpa_v191 "redpa" write "/api/v1/chat"
    else none

text_of : Option String → String
text_of none = ""
text_of (some s) = s

native_matches : Outside → CapabilitySpec → Option Native → Bool
native_matches o c none = false
native_matches o c (some n) =
    protocol_text c.protocol == protocol_text n.protocol
    && c.project == n.project
    && effect_text c.effect == effect_text n.effect
    && given c.workspace_binding
    && (not (is_http c.mode) || (o.split (text_of c.endpoint)).path == n.path)
    && (not (n.project == "redpa") || given c.credential_env)
    && (not (n.project == "redforge") || given c.resource_binding)

-- `validate_native_spec(spec)`.
unfoldable pub validate_native_spec : Outside → CapabilitySpec → Bool
unfolding native_matches text_of
validate_native_spec o c = native_matches o c (native_operation c.name)

redworld_effect : String → Option Effect
redworld_effect name =
    if name == "redworld.snapshot"
    then some read
    else if name == "redworld.advance"
    then some write
    else none

same_effect : Effect → Option Effect → Bool
same_effect e none = false
same_effect e (some f) = effect_text e == effect_text f

valid_redworld : CapabilitySpec → Bool
valid_redworld c =
    given c.workspace_binding
    && c.project == "redworld"
    && same_effect c.effect (redworld_effect c.name)
    && (not (is_http c.mode) || ends_with_rev "dlrow/1v/ipa/" (text_of c.endpoint))

valid_protocol : Outside → CapabilitySpec → Protocol → Bool
valid_protocol o c nexus = true
valid_protocol o c redworld_v140 = valid_redworld c
valid_protocol o c redworld_v200 = valid_redworld c
valid_protocol o c _ = validate_native_spec o c

has_reference : Env → Json → Bool
has_reference env schema = contains "\"$ref\"" (env.canonical schema)

-- Whether `CapabilitySpec.valid` returns, and the limits of the fields that are numbers.
unfoldable pub valid_spec : Env → Outside → CapabilitySpec → Bool
unfolding valid_protocol valid_redworld same_effect redworld_effect has_reference text_of
valid_spec env o c =
    (is_read c.effect || c.approval)
    && within 1 60 c.timeout_seconds
    && within 1 4 c.max_attempts
    && leb c.estimated_cost_microunits 1000000000
    && o.schema_ok c.input_schema
    && o.schema_ok c.output_schema
    && not (has_reference env c.input_schema)
    && not (has_reference env c.output_schema)
    && (not (is_http c.mode) || given c.endpoint)
    && valid_protocol o c c.protocol
