-- ===== src/Worker/Prepare.antt =====
-- `Worker.prepare`: under the lease, everything that must hold before a step is executed, checked
-- against the database and the registry as they are now.
use Prim.Native.String
use rednexus_ai.Base.{
  ℕ, ◌+◌, ◌*◌, String, true, not, ◌&&◌, ◌||◌, Option, none, some, [], ◌∷◌, ◌++◌, length, get_elem?,
  ltb, leb, eqb, min, ◌==◌, if◌then◌else◌, Result, ok, raised, crashed, index_error, raise, guard,
  or_crash, ◌>>=◌, ◌>>◌,
}
use rednexus_ai.Base.Table.{find}
use rednexus_ai.Base.Text.{show}
use rednexus_ai.Json.{Json, Fields, bool, str, obj, end}
use rednexus_ai.Contracts.{CapabilitySpec, is_demo}
use rednexus_ai.Contracts.Dump.{fields, num}
use rednexus_ai.Env.{Draws, Env, digest, validate_payload}
use rednexus_ai.Identity.{Actor, actor_for, require_role, require}
use rednexus_ai.Registry
use rednexus_ai.Registry.{Registry, fingerprint}
use rednexus_ai.Store.{
  Run, Approval, PlanStep, Status, Decision, Db, run_keyed, queued, completed, cancelled,
  waiting_approval, blocked, is_completed, is_approved, approval_at, put_run, emit, transaction,
}
use rednexus_ai.Worker.Defs.{lease_holds}
use rednexus_ai.Workflows.Flow.{condition_matches, input_for}

pub record Context : Type 0 where
  pub run_id : String
  pub workspace : String
  pub actor : String
  pub step : ℕ
  pub idempotency_key : String
  pub deadline : ℕ

-- What `prepare` hands to the gateway.
pub record Prepared : Type 0 where
  pub spec : CapabilitySpec
  pub payload : Fields
  pub context : Context

abbrev pub release : Run → Status → Run
release r st = record r { status = st; lease_token = none; lease_until = none }

abbrev pub append_text : String → String → String
append_text = String.◌++◌

-- A step whose condition is false counts as done.
unfoldable pub skipped_output : Json
skipped_output = obj (fields (("skipped", bool true) ∷ ("reason", str "condition_false") ∷ []))

unfoldable pub skip : Run → Run
skip r =
    let cursor = r.cursor + 1 in
    record r {
      outputs = r.outputs ++ skipped_output ∷ [];
      cursor = cursor;
      status = if eqb cursor (length r.plan) then completed else queued;
      lease_token = none;
      lease_until = none;
      attempts = 0;
    }

unfoldable pub skip_step : Env → Run → Db → Db
unfolding skip
skip_step env r db =
    let r' = skip r in
    let db₁ =
      emit env r.workspace "step.skipped" (obj (fields (("step", num r.cursor) ∷ []))) (some r.id)
        (put_run r' db) in
    if is_completed r'.status
    then emit env r.workspace "workflow.completed" (obj end) (some r.id) db₁
    else db₁

-- The record of the action that a reviewer sees, and whose digest binds the approval.
unfoldable pub action_of : Run → CapabilitySpec → String → Fields → Json
action_of r c print payload = obj (
    fields (
      ("run_id", str r.id)
      ∷ ("step", num r.cursor)
      ∷ ("capability", str c.name)
      ∷ ("fingerprint", str print)
      ∷ ("input", obj payload)
      ∷ ("estimated_cost_microunits", num c.estimated_cost_microunits)
      ∷ []))

unfoldable pub request_approval : Env → Draws → Run → Json → Db → Db
request_approval env t r action db =
    emit env r.workspace "approval.requested"
      (obj (fields (("step", num r.cursor) ∷ ("digest", str (digest env action)) ∷ []))) (some r.id)
      (put_run (release r waiting_approval) (record db {
        approvals =
            db.approvals
            ++ record {
              id = t.uid 0;
              workspace = r.workspace;
              run_id = r.id;
              step = r.cursor;
              action_digest = digest env action;
              action = action;
              status = Decision.pending;
              expires = min r.deadline (t.clock 2 + env.approval_seconds * env.second);
              reviewer = none;
              reason = none;
            }
              ∷ [];
      }))

-- The user that decided; one that is not there is no active identity.
unfoldable pub reviewer_of : Db → String → Option String → Result Actor
reviewer_of db w none = raise 401 "identity or membership inactive"
reviewer_of db w (some u) = actor_for db u w

-- An approval that was given still has to cover this very action, by a human who is not the owner.
unfoldable pub check_approval :
    Env → ℕ → Actor → Run → CapabilitySpec → Json → Approval → Db → Result (Unit {0})
check_approval env now actor r c action a db = do
  guard (is_approved a.status && a.action_digest == digest env action && not (ltb a.expires now))
      409 "approval_invalid_or_expired"
  reviewer ← reviewer_of db r.workspace a.reviewer
  require_role reviewer ("admin" ∷ "reviewer" ∷ [])
  require reviewer (append_text "review:" c.name)
  guard (reviewer.kind == "human" && not (reviewer.id == actor.id)) 403 "reviewer_identity_invalid"

unfoldable pub charge : CapabilitySpec → Run → Run
charge c r = record r {
  tool_calls = r.tool_calls + 1;
  attempts = r.attempts + 1;
  cost = r.cost + c.estimated_cost_microunits;
}

-- The last checks, the reservation of the cost, and what the gateway gets.
unfoldable pub start_step :
    Env → ℕ → Run → CapabilitySpec → Fields → Db → Result (Option Prepared × Db)
unfolding charge
start_step env now r c payload db = do
  guard
      (not
        (leb r.max_tool_calls r.tool_calls || ltb r.budget (r.cost + c.estimated_cost_microunits)))
      409 "mission_budget_exhausted"
  ok (
    some (record {
      spec = c;
      payload = payload;
      context = record {
        run_id = r.id;
        workspace = r.workspace;
        actor = r.owner;
        step = r.cursor;
        idempotency_key = append_text r.id (append_text ":" (show r.cursor));
        deadline = min r.deadline (now + c.timeout_seconds * env.second);
      };
    }),
    emit env r.workspace "step.started"
        (obj (
          fields (
            ("step", num r.cursor)
            ∷ ("capability", str c.name)
            ∷ ("attempt", num (r.attempts + 1))
            ∷ ("simulated", bool (is_demo c.mode))
            ∷ [])))
        (some r.id) (put_run (charge c r) db),
  )

-- The step with its approval, if its contract wants one.
unfoldable pub approve_step :
    Env
    → Draws
    → Actor
    → Run
    → CapabilitySpec
    → Json
    → Fields
    → Option Approval
    → Db
    → Result (Option Prepared × Db)
approve_step env t actor r c action payload none db = ok (none, request_approval env t r action db)
approve_step env t actor r c action payload (some a) db = do
  check_approval env (t.clock 2) actor r c action a db
  start_step env (t.clock 3) r c payload db

unfoldable pub run_step :
    Env → Draws → Actor → Run → PlanStep → CapabilitySpec → Db → Result (Option Prepared × Db)
run_step env t actor r step c db = do
  payload ← input_for env step.step r.outputs
  validate_payload env c.input_schema (obj payload)
  let action = action_of r c step.fingerprint payload
  if c.approval
      then approve_step env t actor r c action payload (approval_at r.id r.cursor db.approvals) db
      else start_step env (t.clock 3) r c payload db

-- The body of the `try`. Its second test of `cancel_requested` cannot differ from the first.
unfoldable pub prepare_row : Env → Registry → Draws → Run → Db → Result (Option Prepared × Db)
prepare_row env reg t r db = do
  actor ← actor_for db r.owner r.workspace
  require_role actor ("admin" ∷ "operator" ∷ [])
  step ← or_crash index_error (get_elem? r.plan r.cursor)
  require actor (append_text "tool:" step.step.capability)
  c ← Registry.get reg step.step.capability
  print ← fingerprint env reg c.name
  guard (print == step.fingerprint) 409 "capability_contract_changed"
  if r.cancel_requested then ok (none, put_run (release r cancelled) db) else do
    matches ← condition_matches env step.step.when r.outputs
    if matches then run_step env t actor r step c db else ok (none, skip_step env r db)

unfoldable pub block : String → Run → Run
block why r = record r {
  status = blocked;
  error = some why;
  lease_token = none;
  lease_until = none;
}

-- The `except Problem`: the run is blocked with the reason; other exceptions roll back.
unfoldable pub or_block :
    Env → Run → Db → Result (Option Prepared × Db) → Result (Option Prepared × Db)
unfolding block
or_block env r db (ok done) = ok done
or_block env r db (crashed x) = crashed x
or_block env r db (raised p) = ok (
  none,
  emit env r.workspace "step.blocked" (obj (fields (("reason", str p.message) ∷ []))) (some r.id)
      (put_run (block p.message r) db),
)

abbrev pub touch : ℕ → Run → Run
touch now r = record r { updated = now }

unfoldable pub prepare_found :
    Env → Registry → Draws → String → Option Run → Db → Result (Option Prepared × Db)
prepare_found env reg t token none db = ok (none, db)
prepare_found env reg t token (some r) db =
    if lease_holds token (t.clock 0) r
    then (let r' = touch (t.clock 1) r in
        let db' = put_run r' db in or_block env r' db' (prepare_row env reg t r' db'))
    else ok (none, db)

-- `Worker.prepare(run_id, token)`.
unfoldable pub prepare :
    Env → Registry → Draws → String → String → Db → Result (Option Prepared) × Db
prepare env reg t i token db = transaction db (prepare_found env reg t token (find i db.runs) db)
