-- ===== src/Worker/Finish.antt =====
-- `Worker.finish`, which records how the execution of a step ended, and `Worker.tick`.
use rednexus_ai.Base.{
  ℕ, ◌+◌, ◌*◌, ◌^◌, String, Bool, true, false, not, ◌&&◌, Option, none, some, List, [], ◌∷◌, ◌++◌,
  length, get_elem?, ltb, eqb, min, if◌then◌else◌, Result, ok, raised, crashed, index_error,
  or_crash, ◌>>=◌,
}
use rednexus_ai.Base.Table.{find}
use rednexus_ai.Json.{Json, str, obj}
use rednexus_ai.Contracts.{CapabilitySpec, is_read}
use rednexus_ai.Contracts.Dump.{fields, num}
use rednexus_ai.Env.{Draws, Env}
use rednexus_ai.Registry.{Registry}
use rednexus_ai.Store.{
  Run, Status, Db, run_keyed, needs_reconciliation, cancelled, retry_wait, failed, completed,
  queued, is_completed, status_text, put_run, emit, transaction,
}
use rednexus_ai.Worker.Defs.{lease_holds, Failure, Reply, delivered, failure, timed_out, broke}
use rednexus_ai.Worker.Recover.{recover}
use rednexus_ai.Worker.Claim.{claim}
use rednexus_ai.Worker.Prepare.{Prepared, prepare, touch}

-- Only a read is tried again; an effect that failed is uncertain.
unfoldable pub failure_status : CapabilitySpec → Bool → Run → Status
failure_status c retryable r =
    if not (is_read c.effect)
    then needs_reconciliation
    else if r.cancel_requested
    then cancelled
    else if retryable && ltb r.attempts c.max_attempts
    then retry_wait
    else failed

unfoldable pub fail_step : Env → ℕ → CapabilitySpec → Failure → Run → Run
unfolding failure_status
fail_step env now c e r = record r {
  lease_token = none;
  lease_until = none;
  error = some e.code;
  status = failure_status c e.retryable r;
  next_attempt = now + min 30 (2 ^ r.attempts) * env.second;
}

unfoldable pub next_status : Run → Status
next_status r =
    if r.cancel_requested
    then cancelled
    else if eqb (r.cursor + 1) (length r.plan)
    then completed
    else queued

-- The step is done: its output is kept and the cursor moves on.
unfoldable pub complete_step : Json → Run → Run
unfolding next_status
complete_step output r = record r {
  lease_token = none;
  lease_until = none;
  outputs = r.outputs ++ output ∷ [];
  cursor = r.cursor + 1;
  attempts = 0;
  error = none;
  status = next_status r;
}

-- `if error.http_status`: a status of 0 is none.
http_entry : Option ℕ → List (String × Json)
http_entry none = []
http_entry (some s) = if eqb s 0 then [] else ("http_status", num s) ∷ []

unfoldable pub record_failure : Env → ℕ → CapabilitySpec → Failure → Run → Db → Db
unfolding fail_step http_entry
record_failure env now c e r db =
    let r' = fail_step env now c e r in
    emit env r.workspace "step.failed"
      (obj (
        fields (
          ("code", str e.code)
          ∷ ("status", str (status_text r'.status))
          ∷ http_entry e.http_status)))
      (some r.id) (put_run r' db)

unfoldable pub record_output : Env → Json → Run → Db → Db
unfolding complete_step
record_output env output r db =
    let r' = complete_step output r in
    let db₁ =
      emit env r.workspace "step.completed" (obj (fields (("step", num r.cursor) ∷ []))) (some r.id)
        (put_run r' db) in
    if is_completed r'.status
    then emit env r.workspace "workflow.completed"
        (obj (fields (("steps", num r'.cursor) ∷ ("cost", num r'.cost) ∷ []))) (some r.id) db₁
    else db₁

-- What `finish` is called with: an output, or an error.
pub data Ending : Type 0 where
  output : Json → Ending
  error : Failure → Ending

unfoldable pub finish_row : Env → ℕ → CapabilitySpec → Ending → Run → Db → Db
finish_row env now c (output v) r db = record_output env v r db
finish_row env now c (error e) r db = record_failure env now c e r db

-- Under the fence the step is read from the plan, and its end recorded.
unfoldable pub finish_held : Env → (ℕ → ℕ) → Ending → Run → Db → Result (Unit {0} × Db)
finish_held env t ending r db = do
  step ← or_crash index_error (get_elem? r.plan r.cursor)
  ok (tt, finish_row env (t 2) step.contract ending (touch (t 1) r) (put_run (touch (t 1) r) db))

unfoldable pub finish_found :
    Env → (ℕ → ℕ) → String → Ending → Option Run → Db → Result (Unit {0} × Db)
finish_found env t token ending none db = ok (tt, db)
finish_found env t token ending (some r) db =
    if lease_holds token (t 0) r then finish_held env t ending r db else ok (tt, db)

-- `Worker.finish(run_id, token, output, error)`.
unfoldable pub finish : Env → (ℕ → ℕ) → String → String → Ending → Db → Result (Unit {0}) × Db
finish env t i token ending db =
    transaction db (finish_found env t token ending (find i db.runs) db)

-- The handlers around the gateway's call in `tick`.
unfoldable pub ending_of : Reply → Ending
ending_of (delivered v) = output v
ending_of (failure e) = error e
ending_of timed_out =
    error (record { code = "mission_or_tool_timeout"; retryable = true; http_status = none })
ending_of broke =
    error (record { code = "internal_adapter_error"; retryable = false; http_status = none })

-- The clock of a tick's parts, and how the gateway answers what it is given.
pub record Round : Type 0 where
  pub recovering : ℕ
  pub claiming : ℕ
  pub tokens : ℕ → String
  pub preparing : Draws
  pub finishing : ℕ → ℕ
  pub gateway : Prepared → Reply

execute_step : Env → Round → String → String → Option Prepared → Db → Result Bool × Db
execute_step env round i token none db = (ok true, db)
execute_step env round i token (some p) db =
    let (r, db') = finish env round.finishing i token (ending_of (round.gateway p)) db in
    (r >>= λ _. ok true, db')

run_claimed : Env → Registry → Round → Option (String × String) → Db → Result Bool × Db
run_claimed env reg round none db = (ok false, db)
run_claimed env reg round (some (i, token)) db =
    let (r, db') = prepare env reg round.preparing i token db in
    elim r [
      | ok p ↦ execute_step env round i token p db'
      | raised p ↦ (raised p, db')
      | crashed x ↦ (crashed x, db')
    ]

-- `Worker.tick`, after the registry has been read again.
unfoldable pub tick : Env → Registry → Round → Db → Result Bool × Db
unfolding run_claimed execute_step
tick env reg round db =
    let (r, db₁) = recover env round.recovering db in
    elim r [
      | ok _ ↦
          (let (won, db₂) = claim env round.claiming round.tokens db₁ in
            run_claimed env reg round won db₂)
      | raised p ↦ (raised p, db₁)
      | crashed x ↦ (crashed x, db₁)
    ]
