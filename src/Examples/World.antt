-- ===== src/Examples/World.antt =====
-- A small world: two users, one capability that writes, and runs in several states.
use rednexus_ai.Worker.Prepare.{Prepared}
use rednexus_ai.Platform.Agents.{agent_keyed}
use rednexus_ai.Base.{true, false, none, some, [], ◌∷◌, refl}
use rednexus_ai.Base.Table.{Distinct, find}
use rednexus_ai.Json.{end, null, obj, end}
use rednexus_ai.Contracts.{CapabilitySpec, StepInput, RunInput, http, nexus, write}
use rednexus_ai.Env.{Env, Draws}
use rednexus_ai.Identity.{Actor}
use rednexus_ai.Registry.{Registry}
use rednexus_ai.Store.{
  Run, Approval, User, Membership, Db, Decision, running, queued, waiting_approval, completed,
  run_keyed,
}

abbrev pub env0 : Env
env0 = record {
  canonical = λ _. "json";
  sha256 = λ s. s;
  violation = λ _ _. none;
  decimal = λ _. none;
  stamp = λ n. record { id = "e"; time = "now"; created = n };
  second = 1;
  lease_seconds = 45;
  approval_seconds = 3600;
}

abbrev pub spec0 : CapabilitySpec
spec0 = record {
  name = "deploy";
  project = "ops";
  version = "1";
  description = "deploys a build";
  mode = http;
  protocol = nexus;
  workspace_binding = none;
  resource_binding = none;
  effect = write;
  approval = true;
  endpoint = some "http://ops/execute";
  health_endpoint = none;
  credential_env = none;
  timeout_seconds = 10;
  max_attempts = 1;
  estimated_cost_microunits = 5;
  input_schema = obj end;
  output_schema = obj end;
}

abbrev pub reg0 : Registry
reg0 = spec0 ∷ []

abbrev pub step0 : StepInput
step0 = record {
  capability = "deploy";
  input = end;
  use_previous = false;
  bindings = [];
  when = none;
}

abbrev pub flow0 : RunInput
flow0 = record {
  title = "release";
  steps = step0 ∷ [];
  budget_microunits = 10;
  max_tool_calls = 3;
  deadline_seconds = 1000;
}

abbrev pub owner0 : Actor
owner0 = record {
  id = "u1";
  workspace = "w";
  username = "ann";
  role = "operator";
  grants = "tool:deploy" ∷ [];
  kind = "human";
}

abbrev pub reviewer0 : Actor
reviewer0 = record {
  id = "u2";
  workspace = "w";
  username = "bob";
  role = "reviewer";
  grants = "review:deploy" ∷ [];
  kind = "human";
}

abbrev pub user_of : Actor → User
user_of a = record {
  id = a.id;
  username = a.username;
  password_hash = "";
  kind = a.kind;
  enabled = true;
}

abbrev pub member_of : Actor → Membership
member_of a = record {
  workspace = a.workspace;
  user_id = a.id;
  role = a.role;
  grants = a.grants;
  enabled = true;
}

abbrev pub empty_db : Db
empty_db = record {
  users = user_of owner0 ∷ user_of reviewer0 ∷ [];
  memberships = member_of owner0 ∷ member_of reviewer0 ∷ [];
  runs = [];
  approvals = [];
  events = [];
  memory = [];
}

-- A run that a worker holds until 100.
abbrev pub held_run : Run
held_run = record {
  id = "r1";
  workspace = "w";
  owner = "u1";
  title = "release";
  request_key = "k";
  request_digest = "json";
  plan = record { step = step0; contract = spec0; fingerprint = "json" } ∷ [];
  status = running;
  cursor = 0;
  outputs = [];
  created = 0;
  deadline = 1000;
  updated = 0;
  next_attempt = 0;
  attempts = 0;
  tool_calls = 0;
  max_tool_calls = 3;
  cost = 0;
  budget = 10;
  lease_token = some "t1";
  lease_until = some 100;
  error = none;
  cancel_requested = false;
}

abbrev pub queued_run : Run
queued_run = record held_run { status = queued; lease_token = none; lease_until = none }

abbrev pub waiting_run : Run
waiting_run = record queued_run { status = waiting_approval }

abbrev pub done_run : Run
done_run = record queued_run { status = completed; cursor = 1; outputs = null ∷ [] }

abbrev pub pending0 : Approval
pending0 = record {
  id = "a1";
  workspace = "w";
  run_id = "r1";
  step = 0;
  action_digest = "json";
  action = null;
  status = Decision.pending;
  expires = 500;
  reviewer = none;
  reason = none;
}

abbrev pub db_of : Run → Approval → Db
db_of r a = record empty_db { runs = r ∷ []; approvals = a ∷ [] }

abbrev pub approved0 : Approval
approved0 = record pending0 { status = Decision.approved; reviewer = some "u2" }

abbrev pub held_db : Db
held_db = db_of held_run approved0

abbrev pub draws0 : Draws
draws0 = record { clock = λ k. 50; uid = λ k. "n1" }

pub keys0 : (r : Run) (a : Approval) → Distinct (db_of r a).runs
unfolding find
keys0 r a = (refl, tt)

-- What the worker is handed for its first step.
abbrev pub handed : Prepared
handed = record {
  spec = spec0;
  payload = end;
  context = record {
    run_id = "r1";
    workspace = "w";
    actor = "u1";
    step = 0;
    idempotency_key = "r1:0";
    deadline = 60;
  };
}
