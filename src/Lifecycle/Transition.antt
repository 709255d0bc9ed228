-- ===== src/Lifecycle/Transition.antt =====
-- The transitions of one run, with the condition under which each may happen. `human` says whether
-- the transitions of a human's reconciliation are among them.
use rednexus_ai.Base.{
  arith, ok, index_error, or_crash, ℕ, ◌+◌, ◌≤◌, ◌<◌, ◌≡◌, String, Bool, true, false, Option, some,
  get_elem?,
}
use rednexus_ai.Json.{Json}
use rednexus_ai.Contracts.{CapabilitySpec, Outcome}
use rednexus_ai.Env.{Env}
use rednexus_ai.Store.{
  Run, PlanStep, waiting_approval, cancelled, is_running, is_claimable, is_idle, is_waiting,
  is_active, is_uncertain,
}
use rednexus_ai.Worker.{Failure}
use rednexus_ai.Worker.Recover.{reclaim_status, reclaim, expire}
use rednexus_ai.Worker.Claim.{lease}
use rednexus_ai.Worker.Prepare.{release, skip, charge, block, touch}
use rednexus_ai.Worker.Finish.{fail_step, complete_step}
use rednexus_ai.Platform.Cancel.{request_cancel, cancel_idle}
use rednexus_ai.Platform.Review.{resume}
use rednexus_ai.Platform.Reconcile.{settle}

-- The step at the cursor.
abbrev pub current : Run → Option PlanStep
current r = get_elem? r.plan r.cursor

pub data Transition (human : Bool) (env : Env) (r u : Run) : Type 0 where
  leased :
      (now : ℕ) (token : String)
      → is_claimable r.status ≡ true
      → r.cancel_requested ≡ false
      → u ≡ lease env now token r
      → Transition human env r u
  touched : (now : ℕ) → is_running r.status ≡ true → u ≡ touch now r → Transition human env r u
  stopped :
      is_running r.status ≡ true
      → r.cancel_requested ≡ true
      → u ≡ release r cancelled
      → Transition human env r u
  parked : is_running r.status ≡ true → u ≡ release r waiting_approval → Transition human env r u
  blocked : (why : String) → is_running r.status ≡ true → u ≡ block why r → Transition human env r u
  skipped :
      {s : PlanStep}
      → is_running r.status ≡ true
      → current r ≡ some s
      → u ≡ skip r
      → Transition human env r u
  charged :
      (c : CapabilitySpec)
      → is_running r.status ≡ true
      → r.tool_calls < r.max_tool_calls
      → r.cost + c.estimated_cost_microunits ≤ r.budget
      → u ≡ charge c r
      → Transition human env r u
  completed :
      {s : PlanStep} (v : Json)
      → is_running r.status ≡ true
      → current r ≡ some s
      → u ≡ complete_step v r
      → Transition human env r u
  failed :
      {s : PlanStep} (now : ℕ) (e : Failure)
      → is_running r.status ≡ true
      → current r ≡ some s
      → u ≡ fail_step env now s.contract e r
      → Transition human env r u
  reclaimed :
      {s : PlanStep} (now : ℕ)
      → is_running r.status ≡ true
      → current r ≡ some s
      → u ≡ reclaim now (reclaim_status s.contract r) r
      → Transition human env r u
  expired :
      (now : ℕ) (why : String)
      → is_idle r.status ≡ true
      → u ≡ expire now why r
      → Transition human env r u
  cancel_asked :
      (now : ℕ) → is_active r.status ≡ true → u ≡ request_cancel now r → Transition human env r u
  cancelled_idle :
      is_idle r.status ≡ true
      → r.cancel_requested ≡ true
      → u ≡ cancel_idle r
      → Transition human env r u
  resumed :
      (now : ℕ) (allow : Bool)
      → is_waiting r.status ≡ true
      → r.cancel_requested ≡ false
      → u ≡ resume now allow r
      → Transition human env r u
  settled :
      {s : PlanStep} (now : ℕ) (o : Outcome) (v : Json)
      → human ≡ true
      → is_uncertain r.status ≡ true
      → current r ≡ some s
      → u ≡ settle o v (touch now r)
      → Transition human env r u

-- Any number of transitions, one after the other.
pub data Steps (human : Bool) (env : Env) (r : Run) : Run → Type 0 where
  here : Steps human env r r
  next : {u v : Run} → Steps human env r u → Transition human env u v → Steps human env r v

pub Steps-trans :
    {human : Bool} {env : Env} {r u v : Run}
    → Steps human env r u
    → Steps human env u v
    → Steps human env r v
Steps-trans s here = s
Steps-trans s (next p q) = next (Steps-trans s p) q

pub one : {human : Bool} {env : Env} {r u : Run} → Transition human env r u → Steps human env r u
one t = next here t

pub or_crash-current :
    (r : Run) {s : PlanStep} → or_crash index_error (current r) ≡ ok s → current r ≡ some s
or_crash-current r h = ground arith
