-- ===== src/Platform/Reconcile.antt =====
-- `Platform.reconcile`: a human settles a step whose effect is uncertain.
use Prim.Native.String
use rednexus_ai.Base.{
  ℕ, ◌+◌, String, not, none, some, [], ◌∷◌, ◌++◌, get_elem?, ◌==◌, Result, ok, guard, or_crash,
  index_error, ◌>>=◌, ◌>>◌,
}
use rednexus_ai.Json.{Json, str, obj}
use rednexus_ai.Contracts.{ReconcileInput, Outcome, confirmed_succeeded, confirmed_failed, abandon}
use rednexus_ai.Contracts.Dump.{fields, outcome_text}
use rednexus_ai.Env.{Env, validate_payload}
use rednexus_ai.Identity.{Actor, require_role, require}
use rednexus_ai.Store.{
  Run, PlanStep, Db, run_keyed, failed, cancelled, is_uncertain, put_run, emit, transaction,
}
use rednexus_ai.Platform.Access.{accessible_run}
use rednexus_ai.Worker.Finish.{next_status}

-- What is written to the run, by the outcome.
unfoldable pub settle : Outcome → Json → Run → Run
unfolding next_status
settle confirmed_succeeded v r = record r {
  outputs = r.outputs ++ v ∷ [];
  cursor = r.cursor + 1;
  attempts = 0;
  status = next_status r;
  error = none;
}
settle confirmed_failed v r = record r { status = failed; error = none }
settle abandon v r = record r { status = cancelled; error = none }

-- An output that is confirmed has to satisfy the contract.
unfoldable pub check_outcome : Env → PlanStep → Outcome → Json → Result (Unit {0})
check_outcome env step confirmed_succeeded v = validate_payload env step.contract.output_schema v
check_outcome env step _ v = ok tt

unfoldable pub reconcile_in : Env → ℕ → Actor → String → ReconcileInput → Db → Result (Run × Db)
unfolding settle check_outcome
reconcile_in env now actor i d db = do
  require_role actor ("admin" ∷ [])
  guard (actor.kind == "human") 403 "human reconciliation required"
  r ← accessible_run actor i db
  guard (not (r.owner == actor.id)) 403 "a different administrator must reconcile this run"
  guard (is_uncertain r.status) 409 "run does not require reconciliation"
  let r₁ = record r { updated = now }
  step ← or_crash index_error (get_elem? r₁.plan r₁.cursor)
  require actor (String.◌++◌ "review:" step.step.capability)
  check_outcome env step d.outcome d.output
  let r₂ = settle d.outcome d.output r₁
  ok (
    r₂,
    emit env actor.workspace "step.reconciled"
        (obj (
          fields (
            ("reviewer", str actor.id)
            ∷ ("outcome", str (outcome_text d.outcome))
            ∷ ("evidence", str d.evidence)
            ∷ [])))
        (some r₂.id) (put_run r₂ db),
  )

-- `reconcile(actor, run_id, data)`.
unfoldable pub reconcile : Env → ℕ → Actor → String → ReconcileInput → Db → Result Run × Db
reconcile env now actor i d db = transaction db (reconcile_in env now actor i d db)
