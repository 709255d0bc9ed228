-- ===== src/Lifecycle/WellFormed.antt =====
-- What holds of every run between two transitions.
use rednexus_ai.Base.{
  ℕ, zero, suc, ◌≤◌, ◌<◌, ◌≡◌, String, Bool, true, false, Option, none, some, List, [], ◌∷◌,
  get_elem?, length, length-append, arith,
}
use rednexus_ai.Env.{Env}
use rednexus_ai.Store.{
  Run, Status, queued, running, waiting_approval, retry_wait, needs_reconciliation, is_running,
  is_completed,
}
use rednexus_ai.Worker.Recover.{reclaim_status, reclaim, expire}
use rednexus_ai.Worker.Claim.{lease}
use rednexus_ai.Worker.Prepare.{skip, skipped_output, charge, block}
use rednexus_ai.Worker.Finish.{fail_step, complete_step}
use rednexus_ai.Platform.Cancel.{request_cancel, cancel_idle}
use rednexus_ai.Platform.Review.{resume}
use rednexus_ai.Platform.Reconcile.{settle}
use rednexus_ai.Lifecycle.Transition.{
  Transition, Steps, here, next, leased, touched, stopped, parked, blocked, skipped, charged,
  completed, failed, reclaimed, expired, cancel_asked, cancelled_idle, resumed, settled,
}

-- A run that still has a step to do, or to account for.
abbrev pub is_open : Status → Bool
is_open queued = true
is_open running = true
is_open waiting_approval = true
is_open retry_wait = true
is_open needs_reconciliation = true
is_open _ = false

abbrev pub is_set : Option String → Bool
is_set none = false
is_set (some t) = true

pub record IsWellFormed (r : Run) : Type 0 where
  pub within : r.cursor ≤ length r.plan
  pub unfinished : is_open r.status ≡ true → r.cursor < length r.plan
  pub finished : is_completed r.status ≡ true → r.cursor ≡ length r.plan
  pub one_output_each : length r.outputs ≡ r.cursor
  pub calls_capped : r.tool_calls ≤ r.max_tool_calls
  pub cost_capped : r.cost ≤ r.budget
  pub leased_iff_running : is_set r.lease_token ≡ is_running r.status

-- A step stands at the cursor only if the cursor is inside the plan.
pub current-lt {ℓ} :
    {A : Type ℓ} (xs : List A) (i : ℕ) {x : A} → get_elem? xs i ≡ some x → i < length xs
current-lt [] i e = cc
current-lt (x ∷ xs) zero e = omega arith
current-lt (x ∷ xs) (suc i) {x = y} e = omega (arith, current-lt xs i {x = y} e)

-- Every transition keeps a run well formed.
pub Transition-IsWellFormed :
    {human : Bool} {env : Env} {r u : Run}
    → Transition human env r u
    → IsWellFormed r
    → IsWellFormed u
unfolding lease skip charge block fail_step complete_step reclaim reclaim_status expire
    request_cancel cancel_idle resume settle
Transition-IsWellFormed (leased now token c n e) w = rw e (ground arith)
Transition-IsWellFormed (touched now c e) w = rw e (ground arith)
Transition-IsWellFormed (stopped c n e) w = rw e (ground arith)
Transition-IsWellFormed (parked c e) w = rw e (ground arith)
Transition-IsWellFormed (blocked why c e) w = rw e (ground arith)
Transition-IsWellFormed {r = r} (skipped {s} c h e) w = rw e (
    ground
      (arith, current-lt r.plan r.cursor {x = s} h, length-append r.outputs (skipped_output ∷ [])))
Transition-IsWellFormed (charged c h a b e) w = rw e (ground arith)
Transition-IsWellFormed {r = r} (completed {s} v c h e) w =
    rw e (ground (arith, current-lt r.plan r.cursor {x = s} h, length-append r.outputs (v ∷ [])))
Transition-IsWellFormed (failed now f c h e) w = rw e (ground arith)
Transition-IsWellFormed (reclaimed now c h e) w = rw e (ground arith)
Transition-IsWellFormed (expired now why c e) w = rw e (ground arith)
Transition-IsWellFormed (cancel_asked now c e) w = rw e (ground arith)
Transition-IsWellFormed (cancelled_idle c n e) w = rw e (ground arith)
Transition-IsWellFormed (resumed now allow c n e) w = rw e (ground arith)
Transition-IsWellFormed {r = r} (settled {s} now o v k c h e) w =
    rw e (ground (arith, current-lt r.plan r.cursor {x = s} h, length-append r.outputs (v ∷ [])))

pub Steps-IsWellFormed :
    {human : Bool} {env : Env} {r u : Run} → Steps human env r u → IsWellFormed r → IsWellFormed u
Steps-IsWellFormed here w = w
Steps-IsWellFormed (next p t) w = Transition-IsWellFormed t (Steps-IsWellFormed p w)
