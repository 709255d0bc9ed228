-- ===== src/Platform/Submit.antt =====
-- `Platform.snapshot`, `submit_in` and `submit`: admission of a workflow under an idempotency key.
use Prim.Native.String
use rednexus_ai.Base.{
  ℕ, suc, ◌+◌, ◌*◌, String, Bool, false, not, ◌&&◌, Option, none, some, List, [], ◌∷◌, ◌++◌, length,
  count, ltb, leb, eqb, ◌==◌, if◌then◌else◌, Result, ok, raise, guard, ◌>>=◌, ◌>>◌,
}
use rednexus_ai.Json.{str, obj}
use rednexus_ai.Contracts.{StepInput, RunInput}
use rednexus_ai.Contracts.Dump.{fields, num, dump_run}
use rednexus_ai.Env.{Draws, Env, digest}
use rednexus_ai.Identity.{Actor, require_role, require}
use rednexus_ai.Registry
use rednexus_ai.Registry.{Registry, fingerprint}
use rednexus_ai.Store.{Run, PlanStep, Db, run_keyed, queued, is_active, emit, transaction}
use rednexus_ai.Workflows.Flow.{validate_static}

-- A binding that is absent or empty binds nothing.
unfoldable pub bound_elsewhere : Option String → String → Bool
bound_elsewhere none w = false
bound_elsewhere (some b) w = not (b == "") && not (b == w)

unfoldable pub snapshot_step : Env → Registry → Actor → ℕ → StepInput → Result PlanStep
unfolding bound_elsewhere
snapshot_step env reg actor index s = do
  c ← Registry.get reg s.capability
  guard (not (bound_elsewhere c.workspace_binding actor.workspace)) 403
      "capability is bound to a different workspace"
  require actor (String.◌++◌ "tool:" c.name)
  guard (not (s.use_previous && eqb index 0)) 422 "first step cannot consume a previous result"
  validate_static env c.input_schema s
  print ← fingerprint env reg c.name
  ok (record { step = s; contract = c; fingerprint = print })

unfoldable pub snapshot_from : Env → Registry → Actor → ℕ → List StepInput → Result (List PlanStep)
snapshot_from env reg actor index [] = ok []
snapshot_from env reg actor index (s ∷ ss) = do
  p ← snapshot_step env reg actor index s
  ps ← snapshot_from env reg actor (suc index) ss
  ok (p ∷ ps)

-- `snapshot(actor, workflow)`, after the registry has been read again.
unfoldable pub snapshot : Env → Registry → Actor → RunInput → Result (List PlanStep)
snapshot env reg actor w = do
  require_role actor ("admin" ∷ "operator" ∷ [])
  snapshot_from env reg actor 0 w.steps

-- The run of an owner under a key, which is unique with the workspace.
unfoldable pub run_under : String → String → String → List Run → Option Run
run_under w owner k [] = none
run_under w owner k (r ∷ rs) =
    if r.workspace == w && r.owner == owner && r.request_key == k
    then some r
    else run_under w owner k rs

abbrev pub is_active_in : String → Run → Bool
is_active_in w r = r.workspace == w && is_active r.status

-- The row that is added; the columns that it does not name have their defaults.
unfoldable pub new_run : Env → Draws → Actor → RunInput → String → List PlanStep → Run
new_run env t actor w k plan = record {
  id = t.uid 0;
  workspace = actor.workspace;
  owner = actor.id;
  title = w.title;
  request_key = k;
  request_digest = digest env (dump_run w);
  plan = plan;
  status = queued;
  cursor = 0;
  outputs = [];
  created = t.clock 1;
  deadline = t.clock 0 + w.deadline_seconds * env.second;
  updated = t.clock 2;
  next_attempt = 0;
  attempts = 0;
  tool_calls = 0;
  max_tool_calls = w.max_tool_calls;
  cost = 0;
  budget = w.budget_microunits;
  lease_token = none;
  lease_until = none;
  error = none;
  cancel_requested = false;
}

-- The run that is added, and the database with it.
unfoldable pub admit_new : Env → Draws → Actor → RunInput → String → List PlanStep → Db → Run × Db
unfolding new_run
admit_new env t actor w k plan db =
    let r = new_run env t actor w k plan in
    (
      r,
      emit env actor.workspace "workflow.submitted"
          (obj (fields (("steps", num (length plan)) ∷ ("actor", str actor.id) ∷ []))) (some r.id)
          (record db { runs = db.runs ++ r ∷ [] }),
    )

unfoldable pub admit :
    Env → Registry → Draws → Actor → RunInput → String → Option Run → Db → Result (Run × Db)
admit env reg t actor w k (some old) db =
    if old.request_digest == digest env (dump_run w)
    then ok (old, db)
    else raise 409 "idempotency key already used for different content"
admit env reg t actor w k none db = do
  guard (ltb (count (is_active_in actor.workspace) db.runs) 100) 429
      "workspace active mission quota exhausted"
  plan ← snapshot env reg actor w
  ok (admit_new env t actor w k plan db)

unfoldable pub submit_in :
    Env → Registry → Draws → Actor → RunInput → String → Db → Result (Run × Db)
submit_in env reg t actor w k db = do
  guard (not (k == "") && leb (String.count k) 200) 422
      "Idempotency-Key must contain 1..200 characters"
  admit env reg t actor w k (run_under actor.workspace actor.id k db.runs) db

-- `submit(actor, workflow, request_key)`. A transaction here is atomic, so no other request comes
-- between the query and the insertion, and the retry after an `IntegrityError` is not reached.
unfoldable pub submit : Env → Registry → Draws → Actor → RunInput → String → Db → Result Run × Db
submit env reg t actor w k db = transaction db (submit_in env reg t actor w k db)
