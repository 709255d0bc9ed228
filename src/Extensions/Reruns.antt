-- ===== src/Extensions/Reruns.antt =====
-- A workflow taken from a run, the second submission of failed reads, and the guard of a new plan.
use Prim.Native.String
use rednexus_ai.Base.{
  ℕ, String, Bool, true, false, ◌&&◌, Option, none, some, List, [], ◌∷◌, map, Result, ok, guard,
  ◌>>=◌, ◌>>◌, and_then, length,
}
use rednexus_ai.Base.Text.{show}
use rednexus_ai.Contracts.{StepInput, RunInput, is_read}
use rednexus_ai.Env.{Env, Draws}
use rednexus_ai.Identity.{Actor}
use rednexus_ai.Registry.{Registry}
use rednexus_ai.Store.{
  Db, Run, PlanStep, Status, run_keyed, failed, blocked, cancelled, expired, status_text,
}
use rednexus_ai.Platform.Access.{accessible_run}
use rednexus_ai.Platform.Submit.{snapshot, submit}
use rednexus_ai.Contracts.Accept.{validated}

abbrev pub steps_of : List PlanStep → List StepInput
steps_of plan = map (λ (p : PlanStep). p.step) plan

-- The workflow of a run, with the default of one hour for its deadline.
abbrev pub workflow_of : Run → RunInput
workflow_of r = record {
  title = r.title;
  steps = steps_of r.plan;
  budget_microunits = r.budget;
  max_tool_calls = r.max_tool_calls;
  deadline_seconds = 3600;
}

-- `workflow_from_run(row)`.
unfoldable pub workflow_from_run : Env → Run → Result RunInput
workflow_from_run env r = validated env (workflow_of r)

abbrev has_failed : Status → Bool
has_failed failed = true
has_failed blocked = true
has_failed expired = true
has_failed _ = false

unfoldable pub all_reads : List PlanStep → Bool
all_reads [] = true
all_reads (p ∷ ps) = is_read p.contract.effect && all_reads ps

-- What `retry_read` submits.
unfoldable pub retry_workflow : Env → Actor → String → Db → Result RunInput
retry_workflow env actor i db = do
  row ← accessible_run actor i db
  guard (has_failed row.status) 409 "only failed terminal reads can be resubmitted"
  guard (all_reads row.plan) 409
      "effectful workflows require explicit reconciliation and a new plan"
  workflow_from_run env row

-- `retry_read(run_id, idempotency_key)`.
unfoldable pub retry_read : Env → Registry → Draws → Actor → String → String → Db → Result Run × Db
retry_read env reg t actor i k db =
    and_then (retry_workflow env actor i db, db) λ w db. submit env reg t actor w k db

-- The statuses that `replan` admits; no operation writes "reconciled_failed", the fifth of them.
abbrev pub may_replan : Status → Bool
may_replan failed = true
may_replan blocked = true
may_replan cancelled = true
may_replan expired = true
may_replan _ = false

or_none : Option String → String
or_none none = "None"
or_none (some e) = e

replan_context : Run → String
unfolding or_none
replan_context r = String.◌++◌ "Previous run status: " (
    String.◌++◌ (status_text r.status) (
      String.◌++◌ "; finished steps: " (
        String.◌++◌ (show r.cursor)
          (String.◌++◌ "; error code: " (String.◌++◌ (or_none r.error) ". ")))))

-- The objective that `replan(run_id, data)` gives to the planner.
unfoldable pub replan_objective : Actor → String → String → Db → Result String
unfolding replan_context
replan_objective actor i objective db = do
  row ← accessible_run actor i db
  guard (may_replan row.status) 409 "resolve active or uncertain execution before replanning"
  ok (String.◌++◌ (replan_context row) objective)

-- `validate_workflow(data)`: the number of steps of the plan.
unfoldable pub validate_workflow : Env → Registry → Actor → RunInput → Result ℕ
validate_workflow env reg actor w = do plan ← snapshot env reg actor w; ok (length plan)
