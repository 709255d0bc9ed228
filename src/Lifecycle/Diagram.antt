-- ===== src/Lifecycle/Diagram.antt =====
-- The diagram of a run's states, written out without the program's own writers: each edge names the
-- state it leaves, the state it enters, its guard, and what it does to the other columns.
-- `human` says whether the edges of a human's reconciliation are among them.
use rednexus_ai.Store.{
  Run, PlanStep, Status, queued, running, waiting_approval, retry_wait, needs_reconciliation,
  completed, failed, cancelled, rejected, expired, blocked,
}
use rednexus_ai.Base.{
  ◌+◌, ◌≤◌, ◌<◌, ◌≡◌, String, Bool, true, false, none, some, [], ◌∷◌, ◌++◌, ◌⊎◌, get_elem?, length,
}
use rednexus_ai.Json.{Json}
use rednexus_ai.Contracts.{read}

-- The position, the outputs and what was spent stay.
pub record Still (r u : Run) : Type 0 where
  pub cursor : u.cursor ≡ r.cursor
  pub outputs : u.outputs ≡ r.outputs
  pub tool_calls : u.tool_calls ≡ r.tool_calls
  pub cost : u.cost ≡ r.cost

-- No worker holds a run in one of these, and it has not ended.
pub data IsIdle : Status → Type 0 where
  idle_queued : IsIdle queued
  idle_retry : IsIdle retry_wait
  idle_waiting : IsIdle waiting_approval

-- One step is done: one output more, and its attempts are forgotten.
pub record Moved (r u : Run) : Type 0 where
  pub cursor : u.cursor ≡ r.cursor + 1
  pub output : Json
  pub outputs : u.outputs ≡ r.outputs ++ output ∷ []
  pub attempts : u.attempts ≡ 0
  pub tool_calls : u.tool_calls ≡ r.tool_calls
  pub cost : u.cost ≡ r.cost

-- No worker holds the run.
pub record Freed (u : Run) : Type 0 where
  pub lease_token : u.lease_token ≡ none
  pub lease_until : u.lease_until ≡ none

pub data Edge (human : Bool) (r u : Run) : Type 0 where
  stay : u.status ≡ r.status → Still r u → u.attempts ≡ r.attempts → Edge human r u
  take :
      (token : String)
      → (r.status ≡ queued) ⊎ (r.status ≡ retry_wait)
      → r.cancel_requested ≡ false
      → u.status ≡ running
      → u.lease_token ≡ some token
      → Still r u
      → Edge human r u
  spend :
      r.status ≡ running
      → u.status ≡ running
      → u.cursor ≡ r.cursor
      → u.attempts ≡ r.attempts + 1
      → u.tool_calls ≡ r.tool_calls + 1
      → u.tool_calls ≤ r.max_tool_calls
      → r.cost ≤ u.cost
      → u.cost ≤ r.budget
      → Edge human r u
  park : r.status ≡ running → u.status ≡ waiting_approval → Still r u → Freed u → Edge human r u
  block : r.status ≡ running → u.status ≡ blocked → Still r u → Freed u → Edge human r u
  advance :
      r.status ≡ running
      → r.cursor + 1 < length r.plan
      → u.status ≡ queued
      → Moved r u
      → Freed u
      → Edge human r u
  complete :
      r.status ≡ running
      → r.cursor + 1 ≡ length r.plan
      → u.status ≡ completed
      → Moved r u
      → Freed u
      → Edge human r u
  complete_cancelled :
      r.status ≡ running
      → r.cancel_requested ≡ true
      → u.status ≡ cancelled
      → Moved r u
      → Freed u
      → Edge human r u
  stop :
      r.status ≡ running
      → r.cancel_requested ≡ true
      → u.status ≡ cancelled
      → Still r u
      → Freed u
      → Edge human r u
  retry :
      (s : PlanStep)
      → r.status ≡ running
      → get_elem? r.plan r.cursor ≡ some s
      → s.contract.effect ≡ read
      → r.cancel_requested ≡ false
      → r.attempts < s.contract.max_attempts
      → u.status ≡ retry_wait
      → u.attempts ≡ r.attempts
      → Still r u
      → Freed u
      → Edge human r u
  fail :
      (s : PlanStep)
      → r.status ≡ running
      → get_elem? r.plan r.cursor ≡ some s
      → s.contract.effect ≡ read
      → r.cancel_requested ≡ false
      → u.status ≡ failed
      → Still r u
      → Freed u
      → Edge human r u
  doubt :
      (s : PlanStep)
      → r.status ≡ running
      → get_elem? r.plan r.cursor ≡ some s
      → (s.contract.effect ≡ read → ⊥)
      → u.status ≡ needs_reconciliation
      → Still r u
      → Freed u
      → Edge human r u
  lapse : IsIdle r.status → u.status ≡ expired → Still r u → Edge human r u
  withdraw :
      IsIdle r.status
      → r.cancel_requested ≡ true
      → u.status ≡ cancelled
      → Still r u
      → Edge human r u
  approve :
      r.status ≡ waiting_approval
      → r.cancel_requested ≡ false
      → u.status ≡ queued
      → Still r u
      → Edge human r u
  reject : r.status ≡ waiting_approval → u.status ≡ rejected → Still r u → Edge human r u
  confirm :
      human ≡ true
      → r.status ≡ needs_reconciliation
      → r.cancel_requested ≡ false
      → (u.status ≡ queued) × (r.cursor + 1 < length r.plan)
        ⊎ (u.status ≡ completed) × (r.cursor + 1 ≡ length r.plan)
      → Moved r u
      → Edge human r u
  confirm_cancelled :
      human ≡ true
      → r.status ≡ needs_reconciliation
      → r.cancel_requested ≡ true
      → u.status ≡ cancelled
      → Moved r u
      → Edge human r u
  give_up :
      human ≡ true
      → r.status ≡ needs_reconciliation
      → (u.status ≡ failed) ⊎ (u.status ≡ cancelled)
      → Still r u
      → Edge human r u

-- Any number of edges, one after the other.
pub data Walk (human : Bool) (r : Run) : Run → Type 0 where
  rest : Walk human r r
  then : {u v : Run} → Walk human r u → Edge human u v → Walk human r v
