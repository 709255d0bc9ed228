-- ===== src/Lifecycle/Edges.antt =====
-- Each transition that the program's writers make is an edge of the diagram.
use rednexus_ai.Lifecycle.Transition.{
  Transition, Steps, here, next, current, leased, touched, stopped, parked, skipped, charged,
  reclaimed, cancel_asked, cancelled_idle, resumed, settled,
}
use rednexus_ai.Lifecycle.Diagram.{
  Edge, Moved, IsIdle, idle_queued, idle_retry, idle_waiting, stay, take, spend, park, advance,
  complete, complete_cancelled, stop, retry, fail, doubt, lapse, withdraw, approve, reject, confirm,
  confirm_cancelled, give_up, Walk, rest, then,
}
use rednexus_ai.Lifecycle.WellFormed.{current-lt}
use rednexus_ai.Platform.Reconcile.{settle}
use rednexus_ai.Platform.Review.{resume}
use rednexus_ai.Platform.Cancel.{request_cancel, cancel_idle}
use rednexus_ai.Worker.Finish.{fail_step, failure_status, complete_step, next_status}
use rednexus_ai.Worker.Prepare.{skip, skipped_output, charge, block, touch}
use rednexus_ai.Worker.Claim.{lease}
use rednexus_ai.Worker.Recover.{reclaim_status, reclaim, expire}
use rednexus_ai.Worker.{Failure}
use rednexus_ai.Env.{Env}
use rednexus_ai.Contracts.{
  Effect, read, is_read, Outcome, confirmed_succeeded, confirmed_failed, abandon,
}
use rednexus_ai.Store.{
  Run, PlanStep, Status, queued, running, waiting_approval, retry_wait, needs_reconciliation,
  is_running, is_waiting, is_uncertain, is_claimable, is_idle, completed, failed, cancelled,
  rejected, expired, blocked,
}
use rednexus_ai.Base.{
  ℕ, ◌+◌, ◌<◌, ◌≡◌, refl, Bool, true, false, some, ◌⊎◌, inl, inr, length, Bool-cases, ltb, eqb,
  ◌&&◌,
}
use native.Mathlib.Omega.{arith}
use rednexus_ai.Json.{Json}

running-eq : (s : Status) → is_running s ≡ true → s ≡ running
running-eq s h = ground arith

waiting-eq : (s : Status) → is_waiting s ≡ true → s ≡ waiting_approval
waiting-eq s h = ground arith

uncertain-eq : (s : Status) → is_uncertain s ≡ true → s ≡ needs_reconciliation
uncertain-eq s h = ground arith

claimable-eq : (s : Status) → is_claimable s ≡ true → (s ≡ queued) ⊎ (s ≡ retry_wait)
claimable-eq s h = ground arith

is_idle-IsIdle : (s : Status) → is_idle s ≡ true → IsIdle s
is_idle-IsIdle queued h = idle_queued
is_idle-IsIdle retry_wait h = idle_retry
is_idle-IsIdle waiting_approval h = idle_waiting
is_idle-IsIdle running h = cc
is_idle-IsIdle needs_reconciliation h = cc
is_idle-IsIdle completed h = cc
is_idle-IsIdle failed h = cc
is_idle-IsIdle cancelled h = cc
is_idle-IsIdle rejected h = cc
is_idle-IsIdle expired h = cc
is_idle-IsIdle blocked h = cc

read-eq : (x : Effect) → is_read x ≡ true → x ≡ read
read-eq x h = ground arith

not_read : (x : Effect) → is_read x ≡ false → x ≡ read → ⊥
not_read x h e = ground arith

fail_step-Edge :
    (human : Bool) (env : Env) (now : ℕ) (s : PlanStep) (e : Failure) (r : Run)
    → r.status ≡ running
    → current r ≡ some s
    → Edge human r (fail_step env now s.contract e r)
unfolding fail_step failure_status
fail_step-Edge human env now s e r live at_step = elim (Bool-cases (is_read s.contract.effect)) [
  | inr effect ↦
      doubt s live at_step (not_read s.contract.effect effect) (ground arith) (ground arith)
        (ground arith)
  | inl safe ↦ elim (Bool-cases r.cancel_requested) [
    | inl gone ↦ stop live gone (ground arith) (ground arith) (ground arith)
    | inr wanted ↦ elim (Bool-cases (e.retryable && ltb r.attempts s.contract.max_attempts)) [
      | inl again ↦
          retry s live at_step (read-eq s.contract.effect safe) wanted (ground arith) (ground arith)
            refl (ground arith) (ground arith)
      | inr last ↦
          fail s live at_step (read-eq s.contract.effect safe) wanted (ground arith) (ground arith)
            (ground arith)
    ]
  ]
]

reclaim-Edge :
    (human : Bool) (now : ℕ) (s : PlanStep) (r : Run)
    → r.status ≡ running
    → current r ≡ some s
    → Edge human r (reclaim now (reclaim_status s.contract r) r)
unfolding reclaim reclaim_status
reclaim-Edge human now s r live at_step = elim (Bool-cases (is_read s.contract.effect)) [
  | inr effect ↦
      doubt s live at_step (not_read s.contract.effect effect) (ground arith) (ground arith)
        (ground arith)
  | inl safe ↦ elim (Bool-cases r.cancel_requested) [
    | inl gone ↦ stop live gone (ground arith) (ground arith) (ground arith)
    | inr wanted ↦ elim (Bool-cases (ltb r.attempts s.contract.max_attempts)) [
      | inl again ↦
          retry s live at_step (read-eq s.contract.effect safe) wanted (ground arith) (ground arith)
            refl (ground arith) (ground arith)
      | inr last ↦
          fail s live at_step (read-eq s.contract.effect safe) wanted (ground arith) (ground arith)
            (ground arith)
    ]
  ]
]

complete_step-Edge :
    (human : Bool) (v : Json) (r : Run)
    → r.status ≡ running
    → r.cursor < length r.plan
    → Edge human r (complete_step v r)
unfolding complete_step next_status
complete_step-Edge human v r live inside = elim (Bool-cases r.cancel_requested) [
  | inl gone ↦ complete_cancelled live gone (ground arith) (moved v) (ground arith)
  | inr wanted ↦ elim (Bool-cases (eqb (r.cursor + 1) (length r.plan))) [
    | inl last ↦ complete live (ground arith) (ground arith) (moved v) (ground arith)
    | inr more ↦ advance live (ground arith) (ground arith) (moved v) (ground arith)
  ]
]
  where
    moved : (v : Json) → Moved r (complete_step v r)
    moved v = record {
      cursor = refl;
      output = v;
      outputs = refl;
      attempts = refl;
      tool_calls = refl;
      cost = refl;
    }

skip-Edge :
    (human : Bool) (r : Run) → r.status ≡ running → r.cursor < length r.plan → Edge human r (skip r)
unfolding skip
skip-Edge human r live inside = elim (Bool-cases (eqb (r.cursor + 1) (length r.plan))) [
  | inl last ↦ complete live (ground arith) (ground arith) moved (ground arith)
  | inr more ↦ advance live (ground arith) (ground arith) moved (ground arith)
]
  where
    moved : Moved r (skip r)
    moved = record {
      cursor = refl;
      output = skipped_output;
      outputs = refl;
      attempts = refl;
      tool_calls = refl;
      cost = refl;
    }

settle-Edge :
    {human : Bool} (o : Outcome) (v : Json) (now : ℕ) (r : Run)
    → human ≡ true
    → r.status ≡ needs_reconciliation
    → r.cursor < length r.plan
    → Edge human r (settle o v (touch now r))
unfolding settle next_status
settle-Edge confirmed_succeeded v now r k unsure inside = elim (Bool-cases r.cancel_requested) [
  | inl gone ↦ confirm_cancelled k unsure gone (ground arith) moved
  | inr wanted ↦ confirm k unsure wanted (ground arith) moved
]
  where
    moved : Moved r (settle confirmed_succeeded v (touch now r))
    moved = record {
      cursor = refl;
      output = v;
      outputs = refl;
      attempts = refl;
      tool_calls = refl;
      cost = refl;
    }
settle-Edge confirmed_failed v now r k unsure inside = give_up k unsure (inl refl) (ground arith)
settle-Edge abandon v now r k unsure inside = give_up k unsure (inr refl) (ground arith)

resume-Edge :
    (human : Bool) (now : ℕ) (allow : Bool) (r : Run)
    → r.status ≡ waiting_approval
    → r.cancel_requested ≡ false
    → Edge human r (resume now allow r)
unfolding resume
resume-Edge human now true r waits wanted = approve waits wanted refl (ground arith)
resume-Edge human now false r waits wanted = reject waits refl (ground arith)

-- Every transition is an edge.
pub Transition-Edge :
    {human : Bool} {env : Env} {r u : Run} → Transition human env r u → Edge human r u
unfolding lease charge block expire request_cancel cancel_idle
Transition-Edge {r = r} (leased now token c n e) =
    rw e (take token (claimable-eq r.status c) n refl refl (ground arith))
Transition-Edge (touched now c e) = rw e (stay refl (ground arith) refl)
Transition-Edge {r = r} (stopped c n e) =
    rw e (stop (running-eq r.status c) n refl (ground arith) (ground arith))
Transition-Edge {r = r} (parked c e) =
    rw e (park (running-eq r.status c) refl (ground arith) (ground arith))
Transition-Edge {r = r} (Transition.blocked why c e) =
    rw e (Edge.block (running-eq r.status c) refl (ground arith) (ground arith))
Transition-Edge {human} {r = r} (skipped {s} c h e) =
    rw e (skip-Edge human r (running-eq r.status c) (current-lt r.plan r.cursor {x = s} h))
Transition-Edge {r = r} (charged c h a b e) = rw e (
    spend (running-eq r.status h) (running-eq r.status h) refl refl refl (ground arith)
      (ground arith) (ground arith))
Transition-Edge {human} {r = r} (Transition.completed {s} v c h e) =
    rw e
      (complete_step-Edge human v r (running-eq r.status c) (current-lt r.plan r.cursor {x = s} h))
Transition-Edge {human} {env} {r} (Transition.failed {s} now f c h e) =
    rw e (fail_step-Edge human env now s f r (running-eq r.status c) h)
Transition-Edge {human} {r = r} (reclaimed {s} now c h e) =
    rw e (reclaim-Edge human now s r (running-eq r.status c) h)
Transition-Edge {r = r} (Transition.expired now why c e) =
    rw e (lapse (is_idle-IsIdle r.status c) refl (ground arith))
Transition-Edge (cancel_asked now c e) = rw e (stay refl (ground arith) refl)
Transition-Edge {r = r} (cancelled_idle c n e) =
    rw e (withdraw (is_idle-IsIdle r.status c) n refl (ground arith))
Transition-Edge {human} {r = r} (resumed now allow c n e) =
    rw e (resume-Edge human now allow r (waiting-eq r.status c) n)
Transition-Edge {r = r} (settled {s} now o v k c h e) =
    rw e (settle-Edge o v now r k (uncertain-eq r.status c) (current-lt r.plan r.cursor {x = s} h))

pub Steps-Walk : {human : Bool} {env : Env} {r u : Run} → Steps human env r u → Walk human r u
Steps-Walk here = rest
Steps-Walk (next p t) = then (Steps-Walk p) (Transition-Edge t)
