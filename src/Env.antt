-- ===== src/Env.antt =====
-- What the platform takes from outside its sources: serialisation and hashing, the JSON Schema
-- validator, the Unicode table of decimal digits, and the identifiers and time stamps of events.
-- Clock readings are numbers of some fixed unit; each operation takes its own.
use Prim.Native.Char.{Char}
use Prim.Native.String.{len}
use rednexus_ai.Base.{ℕ, String, Option, none, some, Result, ok, raise, ltb, if◌then◌else◌}
use rednexus_ai.Json.{Json}

-- What `emit` draws for one event.
pub record Stamp : Type 0 where
  pub id : String
  pub time : String
  pub created : ℕ

pub record Env : Type 0 where
  -- `json.dumps(value, sort_keys=True, separators=(",", ":"))`
  pub canonical : Json → String
  -- `hashlib.sha256(text.encode()).hexdigest()`
  pub sha256 : String → String
  -- jsonschema: the path and the validator of the first violation, or `none`
  pub violation : Json → Json → Option String
  -- the digit that a decimal character of Unicode stands for
  pub decimal : Char → Option ℕ
  -- the stamp of the n-th event that is stored
  pub stamp : ℕ → Stamp
  -- how many units of the clock make a second, and the settings that are durations
  pub second : ℕ
  pub lease_seconds : ℕ
  pub approval_seconds : ℕ

-- What one call reads from outside: the clock, `clock k` at its k-th reading, and `uuid4()`, `uid k`
-- at the k-th identifier that it draws.
pub record Draws : Type 0 where
  pub clock : ℕ → ℕ
  pub uid : ℕ → String

-- `digest(value)` of contracts.py.
unfoldable pub digest : Env → Json → String
digest env v = env.sha256 (env.canonical v)

abbrev pub max_bytes : ℕ
max_bytes = 65536

-- `validate_payload(schema, value)` of adapters.py.
unfoldable pub validate_payload : Env → Json → Json → Result (Unit {0})
validate_payload env schema v = elim (env.violation schema v) [
  | some at ↦ raise 422 (Prim.Native.String.◌++◌ "input contract violation at " at)
  | none ↦
      if ltb max_bytes (len (env.canonical v))
      then raise 422 "payload does not satisfy capability schema or size limit"
      else ok tt
]
