-- ===== src/Platform/Verdict.antt =====
-- What the two writes of `review` leave of the approval and the run.
use mathlib.Core.Path.{subst, subst}
use rednexus_ai.Base.{sym, if◌then◌else◌, ℕ, String, true, false, some, ◌≡◌, refl, arith}
use rednexus_ai.Base.Table.{
  modify, find-update_self, find-key, find-modify_self, find, find-key, find-update_self,
}
use rednexus_ai.Contracts.{ReviewInput}
use rednexus_ai.Env.{Env}
use rednexus_ai.Identity.{Actor}
use rednexus_ai.Store.{
  rejected, queued, Decision, Run, Approval, Db, run_keyed, approval_keyed, emit,
}
use rednexus_ai.Platform.Review.{decide_row, resume_row, awaits_decision, decide, resume}

-- The approval has the verdict and who gave it with what reason; the run goes back into the queue
-- if the action is allowed and ends as rejected if it is not, and its position, its outputs, its
-- plan and what it spent stay.
pub record IsCarriedOut (actor : Actor) (i : String) (d : ReviewInput) (a : Approval) (r : Run)
    (db : Db) : Type 0 where
  pub approval : Approval
  pub decided : find i db.approvals ≡ some approval
  pub allowed : d.allow ≡ true → approval.status ≡ Decision.approved
  pub refused : d.allow ≡ false → approval.status ≡ Decision.rejected
  pub reviewer : approval.reviewer ≡ some actor.id
  pub reason : approval.reason ≡ some d.reason
  pub action : (approval.action_digest ≡ a.action_digest) × (approval.run_id ≡ a.run_id)
  pub run : Run
  pub moved : find a.run_id db.runs ≡ some run
  pub goes_on : d.allow ≡ true → run.status ≡ queued
  pub ends : d.allow ≡ false → run.status ≡ rejected
  pub position : (run.cursor ≡ r.cursor) × (run.outputs ≡ r.outputs) × (run.plan ≡ r.plan)
  pub spent : (run.tool_calls ≡ r.tool_calls) × (run.cost ≡ r.cost)

-- Both rows are as the two writes leave them.
pub record IsDecided (now : ℕ) (actor : Actor) (i : String) (d : ReviewInput) (a : Approval)
    (r : Run) (db : Db) : Type 0 where
  pub decided : find i db.approvals ≡ some (decide actor d a)
  pub moved : find a.run_id db.runs ≡ some (resume now d.allow r)

pub IsDecided-IsCarriedOut :
    (now : ℕ) (actor : Actor) (i : String) (d : ReviewInput) (a : Approval) (r : Run) (db : Db)
    → IsDecided now actor i d a r db
    → IsCarriedOut actor i d a r db
unfolding decide resume
IsDecided-IsCarriedOut now actor i d a r db h = record {
  approval = decide actor d a;
  decided = h.decided;
  allowed = λ e. ground arith;
  refused = λ e. ground arith;
  reviewer = refl;
  reason = refl;
  action = (refl, refl);
  run = resume now d.allow r;
  moved = h.moved;
  goes_on = λ e. ground arith;
  ends = λ e. ground arith;
  position = (refl, refl, refl);
  spent = (refl, refl);
}

decide_row-decided :
    (actor : Actor) (i : String) (d : ReviewInput) (a : Approval) (db : Db)
    → find i db.approvals ≡ some a
    → find i (decide_row actor d a db).approvals ≡ some (decide actor d a)
unfolding decide_row decide
decide_row-decided actor i d a db row =
    subst (λ x. find i (modify x (decide actor d) db.approvals) ≡ some (decide actor d a))
      (sym (find-key i db.approvals {r = a} row))
      (find-modify_self i (decide actor d) db.approvals {r = a} (λ _. refl) row)

resume_row-moved :
    (env : Env) (now : ℕ) (actor : Actor) (d : ReviewInput) (j : String) (r : Run) (db : Db)
    → find j db.runs ≡ some r
    → awaits_decision r ≡ true
    → find j (resume_row env now actor d r db).runs ≡ some (resume now d.allow r)
unfolding resume_row resume emit
resume_row-moved env now actor d j r db row waiting =
    let f = λ (x : Run). if awaits_decision x then resume now d.allow x else x in
    subst (λ x. find j (modify x f db.runs) ≡ some (resume now d.allow r))
      (sym (find-key j db.runs {r = r} row))
      (find-update_self j awaits_decision (resume now d.allow) db.runs {r = r} (λ _. refl) row
        waiting)

pub rows-IsDecided :
    (env : Env) (now : ℕ) (actor : Actor) (i : String) (d : ReviewInput) (a : Approval) (r : Run)
    (db : Db)
    → find i db.approvals ≡ some a
    → find a.run_id db.runs ≡ some r
    → awaits_decision r ≡ true
    → IsDecided now actor i d a r (resume_row env now actor d r (decide_row actor d a db))
rows-IsDecided env now actor i d a r db row run waiting = record {
  decided = unfold resume_row emit in decide_row-decided actor i d a db row;
  moved =
      resume_row-moved env now actor d a.run_id r (decide_row actor d a db)
        (unfold decide_row in run) waiting;
}
