-- ===== src/Platform/Cancel.antt =====
-- `Platform.cancel`.
use rednexus_ai.Base.{ℕ, String, Bool, true, not, some, [], ◌∷◌, Result, ok, guard, ◌>>=◌, ◌>>◌}
use rednexus_ai.Json.{str, obj}
use rednexus_ai.Contracts.Dump.{fields}
use rednexus_ai.Env.{Env}
use rednexus_ai.Identity.{Actor, require_role}
use rednexus_ai.Store.{
  Run, Decision, Db, run_keyed, cancelled, is_active, is_running, emit, close_pending, transaction,
}
use rednexus_ai.Platform.Access.{accessible_run}
use rednexus_ai.Worker.Recover.{affects, update_run}

abbrev pub cancellable : Run → Bool
cancellable r = is_active r.status

unfoldable pub request_cancel : ℕ → Run → Run
request_cancel now r = record r { cancel_requested = true; updated = now }

-- A run that no worker holds is cancelled at once.
unfoldable pub cancel_idle : Run → Run
cancel_idle r = record r { status = cancelled }

-- The conditional updates and the event.
unfoldable pub cancel_row : Env → ℕ → Actor → Run → Db → Db
unfolding request_cancel cancel_idle
cancel_row env now actor r db =
    let db₁ = update_run r.id cancellable (request_cancel now) db in
    let db₂ = update_run r.id (λ (x : Run). not (is_running x.status)) cancel_idle db₁ in
    emit env actor.workspace "workflow.cancellation_requested"
      (obj (fields (("actor", str actor.id) ∷ []))) (some r.id)
      (close_pending r.id Decision.cancelled db₂)

unfoldable pub cancel_in : Env → ℕ → Actor → String → Db → Result (Unit {0} × Db)
cancel_in env now actor i db = do
  require_role actor ("admin" ∷ "operator" ∷ [])
  r ← accessible_run actor i db
  guard (affects r.id cancellable db) 409 "run already terminal"
  ok (tt, cancel_row env now actor r db)

-- `cancel(actor, run_id)`.
unfoldable pub cancel : Env → ℕ → Actor → String → Db → Result (Unit {0}) × Db
cancel env now actor i db = transaction db (cancel_in env now actor i db)
