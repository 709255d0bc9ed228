-- ===== src/Platform/Review.antt =====
-- `Platform.review`: a human decides on the action that a run waits to make.
use Prim.Native.String
use rednexus_ai.Base.{
  ℕ, String, Bool, not, ◌&&◌, Option, none, some, [], ◌∷◌, get_elem?, leb, ◌==◌, if◌then◌else◌,
  Result, ok, guard, or_crash, index_error, attribute_error, raise, ◌>>=◌, ◌>>◌,
}
use rednexus_ai.Base.Table.{find, modify}
use rednexus_ai.Json.{bool, str, obj}
use rednexus_ai.Contracts.{ReviewInput}
use rednexus_ai.Contracts.Dump.{fields}
use rednexus_ai.Env.{Env}
use rednexus_ai.Identity.{Actor, require_role, require}
use rednexus_ai.Registry
use rednexus_ai.Registry.{Registry}
use rednexus_ai.Store.{
  Run, Approval, Decision, Db, run_keyed, approval_keyed, queued, rejected, is_waiting, is_pending,
  emit, transaction,
}
use rednexus_ai.Worker.Recover.{affects, update_run}

abbrev pub awaits_decision : Run → Bool
awaits_decision r = is_waiting r.status && not r.cancel_requested

unfoldable pub decide : Actor → ReviewInput → Approval → Approval
decide actor d a = record a {
  status = if d.allow then Decision.approved else Decision.rejected;
  reviewer = some actor.id;
  reason = some d.reason;
}

unfoldable pub resume : ℕ → Bool → Run → Run
resume now allow r = record r { status = if allow then queued else rejected; updated = now }

unfoldable pub approval_in : Actor → Option Approval → Result Approval
approval_in actor none = raise 404 "approval not found"
approval_in actor (some a) =
    if a.workspace == actor.workspace then ok a else raise 404 "approval not found"

-- Everything that `review` checks before it writes.
unfoldable pub check_review :
    Registry → ℕ → Actor → ReviewInput → Approval → Run → Result (Unit {0})
check_review reg now actor d a r = do
  guard (not (r.owner == actor.id)) 403 "requester cannot approve own workflow"
  guard (a.action_digest == d.digest) 409 "action digest does not match"
  guard (not (leb a.expires now)) 409 "approval expired; submit a new workflow"
  guard (awaits_decision r) 409 "workflow is not awaiting this approval"
  step ← or_crash index_error (get_elem? r.plan r.cursor)
  c ← Registry.get reg step.step.capability
  require actor (String.◌++◌ "review:" c.name)

-- The first conditional update, of the approval.
unfoldable pub decide_row : Actor → ReviewInput → Approval → Db → Db
unfolding decide
decide_row actor d a db = record db { approvals = modify a.id (decide actor d) db.approvals }

-- The second, of the run, and the event.
unfoldable pub resume_row : Env → ℕ → Actor → ReviewInput → Run → Db → Db
unfolding resume
resume_row env now actor d r db =
    emit env actor.workspace "approval.decided"
      (obj (
        fields (
          ("reviewer", str actor.id)
          ∷ ("allow", bool d.allow)
          ∷ ("digest", str d.digest)
          ∷ ("reason", str d.reason)
          ∷ [])))
      (some r.id) (update_run r.id awaits_decision (resume now d.allow) db)

unfoldable pub write_review :
    Env → ℕ → Actor → ReviewInput → Approval → Run → Db → Result (Unit {0} × Db)
write_review env now actor d a r db = do
  guard (is_pending a.status) 409 "approval already decided"
  let db₁ = decide_row actor d a db
  guard (affects r.id awaits_decision db₁) 409 "workflow changed during review"
  ok (tt, resume_row env now actor d r db₁)

unfoldable pub review_in :
    Env → Registry → (ℕ → ℕ) → Actor → String → ReviewInput → Db → Result (Unit {0} × Db)
unfolding approval_in
review_in env reg t actor i d db = do
  require_role actor ("admin" ∷ "reviewer" ∷ [])
  guard (actor.kind == "human") 403 "service identities cannot supply human approval"
  a ← approval_in actor (find i db.approvals)
  r ← or_crash attribute_error (find a.run_id db.runs)
  check_review reg (t 0) actor d a r
  write_review env (t 1) actor d a r db

-- `review(actor, approval_id, decision)`.
unfoldable pub review :
    Env → Registry → (ℕ → ℕ) → Actor → String → ReviewInput → Db → Result (Unit {0}) × Db
review env reg t actor i d db = transaction db (review_in env reg t actor i d db)
