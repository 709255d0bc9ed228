-- ===== src/Lifecycle/History.antt =====
-- What transitions leave of a run's past.
use rednexus_ai.Base.{ap, ◌≤◌, ◌≡◌, refl, sym, ◌∙◌, Bool, true, false, List, [], ◌∷◌, ◌++◌, arith}
use mathlib.Core.List.{append-nil, append_assoc}
use rednexus_ai.Json.{Json}
use rednexus_ai.Contracts.{confirmed_succeeded, confirmed_failed, abandon}
use rednexus_ai.Env.{Env}
use rednexus_ai.Store.{
  Run, Status, queued, running, waiting_approval, retry_wait, needs_reconciliation, is_uncertain,
}
use rednexus_ai.Worker.Recover.{reclaim, expire}
use rednexus_ai.Worker.Claim.{lease}
use rednexus_ai.Worker.Prepare.{skip, skipped_output, charge, block}
use rednexus_ai.Worker.Finish.{fail_step, complete_step}
use rednexus_ai.Platform.Cancel.{request_cancel, cancel_idle}
use rednexus_ai.Platform.Review.{resume}
use rednexus_ai.Platform.Reconcile.{settle}
use rednexus_ai.Lifecycle.Transition.{
  Transition, Steps, here, next, leased, touched, stopped, parked, blocked, skipped, charged,
  completed, failed, reclaimed, expired, cancel_asked, cancelled_idle, resumed, settled,
}

-- The columns that never change, those that never fall, and the cancellation that is kept.
pub record Grows (r u : Run) : Type 0 where
  pub id : u.id ≡ r.id
  pub workspace : u.workspace ≡ r.workspace
  pub owner : u.owner ≡ r.owner
  pub request_key : u.request_key ≡ r.request_key
  pub request_digest : u.request_digest ≡ r.request_digest
  pub plan : u.plan ≡ r.plan
  pub deadline : u.deadline ≡ r.deadline
  pub max_tool_calls : u.max_tool_calls ≡ r.max_tool_calls
  pub budget : u.budget ≡ r.budget
  pub cursor : r.cursor ≤ u.cursor
  pub tool_calls : r.tool_calls ≤ u.tool_calls
  pub cost : r.cost ≤ u.cost
  pub cancel_kept : r.cancel_requested ≡ true → u.cancel_requested ≡ true

-- Outputs are only added at the end.
pub record Extends (r u : Run) : Type 0 where
  pub grows : Grows r u
  pub added : List Json
  pub outputs : u.outputs ≡ r.outputs ++ added

Transition-Grows : {human : Bool} {env : Env} {r u : Run} → Transition human env r u → Grows r u
unfolding lease skip charge block fail_step complete_step reclaim expire request_cancel cancel_idle
    resume settle
Transition-Grows (leased now token c n e) = rw e (ground arith)
Transition-Grows (touched now c e) = rw e (ground arith)
Transition-Grows (stopped c n e) = rw e (ground arith)
Transition-Grows (parked c e) = rw e (ground arith)
Transition-Grows (blocked why c e) = rw e (ground arith)
Transition-Grows (skipped c h e) = rw e (ground arith)
Transition-Grows (charged c h a b e) = rw e (ground arith)
Transition-Grows (completed v c h e) = rw e (ground arith)
Transition-Grows (failed now f c h e) = rw e (ground arith)
Transition-Grows (reclaimed now c h e) = rw e (ground arith)
Transition-Grows (expired now why c e) = rw e (ground arith)
Transition-Grows (cancel_asked now c e) = rw e (ground arith)
Transition-Grows (cancelled_idle c n e) = rw e (ground arith)
Transition-Grows (resumed now allow c n e) = rw e (ground arith)
Transition-Grows (settled now confirmed_succeeded v k c h e) = rw e (ground arith)
Transition-Grows (settled now confirmed_failed v k c h e) = rw e (ground arith)
Transition-Grows (settled now abandon v k c h e) = rw e (ground arith)

outputs-Transition :
    {human : Bool} {env : Env} {r u : Run}
    → Transition human env r u
    → (xs : List Json) × (u.outputs ≡ r.outputs ++ xs)
unfolding lease skip charge block fail_step complete_step reclaim expire request_cancel cancel_idle
    resume settle
outputs-Transition {r = r} (leased now token c n e) = ([], rw e (sym (append-nil r.outputs)))
outputs-Transition {r = r} (touched now c e) = ([], rw e (sym (append-nil r.outputs)))
outputs-Transition {r = r} (stopped c n e) = ([], rw e (sym (append-nil r.outputs)))
outputs-Transition {r = r} (parked c e) = ([], rw e (sym (append-nil r.outputs)))
outputs-Transition {r = r} (blocked why c e) = ([], rw e (sym (append-nil r.outputs)))
outputs-Transition {r = r} (skipped c h e) = (skipped_output ∷ [], rw e refl)
outputs-Transition {r = r} (charged c h a b e) = ([], rw e (sym (append-nil r.outputs)))
outputs-Transition {r = r} (completed v c h e) = (v ∷ [], rw e refl)
outputs-Transition {r = r} (failed now f c h e) = ([], rw e (sym (append-nil r.outputs)))
outputs-Transition {r = r} (reclaimed now c h e) = ([], rw e (sym (append-nil r.outputs)))
outputs-Transition {r = r} (expired now why c e) = ([], rw e (sym (append-nil r.outputs)))
outputs-Transition {r = r} (cancel_asked now c e) = ([], rw e (sym (append-nil r.outputs)))
outputs-Transition {r = r} (cancelled_idle c n e) = ([], rw e (sym (append-nil r.outputs)))
outputs-Transition {r = r} (resumed now allow c n e) = ([], rw e (sym (append-nil r.outputs)))
outputs-Transition {r = r} (settled now confirmed_succeeded v k c h e) = (v ∷ [], rw e refl)
outputs-Transition {r = r} (settled now confirmed_failed v k c h e) =
    ([], rw e (sym (append-nil r.outputs)))
outputs-Transition {r = r} (settled now abandon v k c h e) = ([], rw e (sym (append-nil r.outputs)))

Grows-refl : (r : Run) → Grows r r
Grows-refl r = ground arith

Grows-trans : (r u v : Run) → Grows r u → Grows u v → Grows r v
Grows-trans r u v p q = record {
  id = q.id ∙ p.id;
  workspace = q.workspace ∙ p.workspace;
  owner = q.owner ∙ p.owner;
  request_key = q.request_key ∙ p.request_key;
  request_digest = q.request_digest ∙ p.request_digest;
  plan = q.plan ∙ p.plan;
  deadline = q.deadline ∙ p.deadline;
  max_tool_calls = q.max_tool_calls ∙ p.max_tool_calls;
  budget = q.budget ∙ p.budget;
  cursor = omega arith;
  tool_calls = omega arith;
  cost = omega arith;
  cancel_kept = λ h. q.cancel_kept (p.cancel_kept h);
}

pub Steps-Extends : {human : Bool} {env : Env} {r u : Run} → Steps human env r u → Extends r u
Steps-Extends {r = r} here = record {
  grows = Grows-refl r;
  added = [];
  outputs = sym (append-nil r.outputs);
}
Steps-Extends {r = r} {u = v} (next {u} s t) =
    let before = Steps-Extends s in
    let (more, last) = outputs-Transition t in
    record {
      grows = Grows-trans r u v before.grows (Transition-Grows t);
      added = before.added ++ more;
      outputs =
          last ∙ ap (λ xs. xs ++ more) before.outputs ∙ append_assoc r.outputs before.added more;
    }

-- `completed`, `failed`, `cancelled`, `rejected`, `expired` and `blocked`.
abbrev pub is_terminal : Status → Bool
is_terminal queued = false
is_terminal running = false
is_terminal waiting_approval = false
is_terminal retry_wait = false
is_terminal needs_reconciliation = false
is_terminal _ = true

-- No transition begins in a terminal state, and only a human's in an uncertain one.
Transition-terminal :
    {human : Bool} {env : Env} {r u : Run}
    → Transition human env r u
    → is_terminal r.status ≡ true
    → ⊥
Transition-terminal (leased now token c n e) over = ground arith
Transition-terminal (touched now c e) over = ground arith
Transition-terminal (stopped c n e) over = ground arith
Transition-terminal (parked c e) over = ground arith
Transition-terminal (blocked why c e) over = ground arith
Transition-terminal (skipped c h e) over = ground arith
Transition-terminal (charged c h a b e) over = ground arith
Transition-terminal (completed v c h e) over = ground arith
Transition-terminal (failed now f c h e) over = ground arith
Transition-terminal (reclaimed now c h e) over = ground arith
Transition-terminal (expired now why c e) over = ground arith
Transition-terminal (cancel_asked now c e) over = ground arith
Transition-terminal (cancelled_idle c n e) over = ground arith
Transition-terminal (resumed now allow c n e) over = ground arith
Transition-terminal (settled now o v k c h e) over = ground arith

Transition-uncertain :
    {env : Env} {r u : Run} → Transition false env r u → is_uncertain r.status ≡ true → ⊥
Transition-uncertain (leased now token c n e) unsure = ground arith
Transition-uncertain (touched now c e) unsure = ground arith
Transition-uncertain (stopped c n e) unsure = ground arith
Transition-uncertain (parked c e) unsure = ground arith
Transition-uncertain (blocked why c e) unsure = ground arith
Transition-uncertain (skipped c h e) unsure = ground arith
Transition-uncertain (charged c h a b e) unsure = ground arith
Transition-uncertain (completed v c h e) unsure = ground arith
Transition-uncertain (failed now f c h e) unsure = ground arith
Transition-uncertain (reclaimed now c h e) unsure = ground arith
Transition-uncertain (expired now why c e) unsure = ground arith
Transition-uncertain (cancel_asked now c e) unsure = ground arith
Transition-uncertain (cancelled_idle c n e) unsure = ground arith
Transition-uncertain (resumed now allow c n e) unsure = ground arith
Transition-uncertain (settled now o v k c h e) unsure = cc

pub Steps-terminal :
    {human : Bool} {env : Env} {r u : Run}
    → Steps human env r u
    → is_terminal r.status ≡ true
    → u ≡ r
Steps-terminal here over = refl
Steps-terminal (next {u} s t) over =
    absurd (
      Transition-terminal t (ap (λ (x : Run). is_terminal x.status) (Steps-terminal s over) ∙ over))

pub Steps-uncertain :
    {env : Env} {r u : Run} → Steps false env r u → is_uncertain r.status ≡ true → u ≡ r
Steps-uncertain here unsure = refl
Steps-uncertain (next {u} s t) unsure = absurd (
    Transition-uncertain t
      (ap (λ (x : Run). is_uncertain x.status) (Steps-uncertain s unsure) ∙ unsure))
