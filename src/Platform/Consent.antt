-- ===== src/Platform/Consent.antt =====
-- What it takes for `Platform.review` of service.py to succeed, and what it then writes.
use Prim.Native.String
use mathlib.Core.Path.{subst, subst}
use rednexus_ai.Platform.Verdict.{IsCarriedOut, IsDecided, IsDecided-IsCarriedOut, rows-IsDecided}
use rednexus_ai.Base.{
  Bool-cases, inr, inl, raise, ap, ℕ, ◌<◌, String, Bool, true, false, not, Option, none, some, [],
  ◌∷◌, ◌≡◌, get_elem?, elem, leb, ◌==◌, eq_iff, arith, Result, ok, raise, index_error,
  attribute_error, Bool-cases, inl, inr,
}
use rednexus_ai.Base.Ensures.{
  Ensures-map, Ensures, Ensures-ok, Ensures-bind, Ensures-guard, Ensures-or_crash, Ensures-map,
}
use rednexus_ai.Base.Table.{find}
use rednexus_ai.Contracts.{CapabilitySpec, ReviewInput}
use rednexus_ai.Env.{Env}
use rednexus_ai.Identity.{Actor, require_role, require_role-eq-ok, require-eq-ok}
use rednexus_ai.Registry
use rednexus_ai.Registry.{Registry}
use rednexus_ai.Store.{
  Run, Approval, PlanStep, Db, run_keyed, approval_keyed, is_pending, transaction-eq-ok,
}
use rednexus_ai.Worker.Recover.{affects}
use rednexus_ai.Platform.Review.{
  decide_row, resume_row, awaits_decision, approval_in, check_review, write_review, review_in,
  review,
}

-- The reviewer is a human with the role and the grant for the capability as the registry has it, and
-- not the owner of the run; the approval is of the reviewer's workspace, undecided and in time, and
-- its digest is the one that the reviewer names; and the run waits for it.
pub record IsEntitled (reg : Registry) (now : ℕ) (actor : Actor) (d : ReviewInput) (a : Approval)
    (r : Run) : Type 0 where
  pub human : actor.kind ≡ "human"
  pub role : elem actor.role ("admin" ∷ "reviewer" ∷ []) ≡ true
  pub workspace : a.workspace ≡ actor.workspace
  pub undecided : is_pending a.status ≡ true
  pub other : (r.owner == actor.id) ≡ false
  pub digest : a.action_digest ≡ d.digest
  pub in_time : now < a.expires
  pub waiting : awaits_decision r ≡ true
  pub step : PlanStep
  pub at_cursor : get_elem? r.plan r.cursor ≡ some step
  pub contract : CapabilitySpec
  pub registered : Registry.get reg step.step.capability ≡ ok contract
  pub grant : elem (String.◌++◌ "review:" contract.name) actor.grants ≡ true

-- What `check_review` has tested.
record IsChecked (reg : Registry) (now : ℕ) (actor : Actor) (d : ReviewInput) (a : Approval)
    (r : Run) : Type 0 where
  other : (r.owner == actor.id) ≡ false
  digest : a.action_digest ≡ d.digest
  in_time : now < a.expires
  waiting : awaits_decision r ≡ true
  step : PlanStep
  at_cursor : get_elem? r.plan r.cursor ≡ some step
  contract : CapabilitySpec
  registered : Registry.get reg step.step.capability ≡ ok contract
  grant : elem (String.◌++◌ "review:" contract.name) actor.grants ≡ true

not-true : (b : Bool) → not b ≡ true → b ≡ false
not-true b h = ground arith

earlier : (n m : ℕ) → not (leb m n) ≡ true → n < m
earlier n m h = ground arith

check_review-IsChecked :
    (reg : Registry) (now : ℕ) (actor : Actor) (d : ReviewInput) (a : Approval) (r : Run)
    → Ensures (λ _. IsChecked reg now actor d a r) (check_review reg now actor d a r)
unfolding check_review
check_review-IsChecked reg now actor d a r =
    Ensures-guard (not (r.owner == actor.id)) 403 "requester cannot approve own workflow" _ λ other.
      Ensures-guard (a.action_digest == d.digest) 409 "action digest does not match" _ λ same.
        Ensures-guard (not (leb a.expires now)) 409 "approval expired; submit a new workflow" _
          λ early.
            Ensures-guard (awaits_decision r) 409 "workflow is not awaiting this approval" _
              λ waiting. Ensures-or_crash index_error (get_elem? r.plan r.cursor) _ λ s found.
                Ensures-bind (Registry.get reg s.step.capability) _ λ c registered. record {
                  at = λ u granted. record {
                    other = not-true _ other;
                    digest = (eq_iff a.action_digest d.digest).0 same;
                    in_time = earlier now a.expires early;
                    waiting = waiting;
                    step = s;
                    at_cursor = found;
                    contract = c;
                    registered = registered;
                    grant = require-eq-ok actor _ {u = u} granted;
                  };
                }

write_review-IsDecided :
    (env : Env) (now : ℕ) (actor : Actor) (i : String) (d : ReviewInput) (a : Approval) (r : Run)
    (db : Db)
    → find i db.approvals ≡ some a
    → find a.run_id db.runs ≡ some r
    → awaits_decision r ≡ true
    → Ensures
        (λ x. (is_pending a.status ≡ true) × IsDecided now actor i d a r x.1)
        (write_review env now actor d a r db)
unfolding write_review
write_review-IsDecided env now actor i d a r db row run waiting =
    Ensures-guard (is_pending a.status) 409 "approval already decided" _ λ undecided.
      Ensures-guard (affects r.id awaits_decision (decide_row actor d a db)) 409
        "workflow changed during review" _
        λ _.
          Ensures-ok (tt, resume_row env now actor d r (decide_row actor d a db))
            (undecided, rows-IsDecided env now actor i d a r db row run waiting)

approval_in-eq-ok :
    (actor : Actor) (o : Option Approval) {a : Approval}
    → approval_in actor o ≡ ok a
    → (o ≡ some a) × (a.workspace ≡ actor.workspace)
unfolding approval_in
approval_in-eq-ok actor none h = cc
approval_in-eq-ok actor (some b) {a} h = elim (Bool-cases (b.workspace == actor.workspace)) [
  | inl same ↦
      let e : b ≡ a = ok-injective (rw same at h) in
      (
        ap some e,
        subst (λ x. x.workspace ≡ actor.workspace) e ((eq_iff b.workspace actor.workspace).0 same),
      )
  | inr other ↦ absurd (not_found (rw other at h))
]
  where
    ok-injective : {x y : Approval} → ok x ≡ ok y → x ≡ y
    ok-injective h = cc

    not_found :
        {x : Approval} → ◌≡◌ {A = Result Approval} (raise 404 "approval not found") (ok x) → ⊥
    not_found h = cc

-- The review was the actor's to give, and it is what the rows now say.
pub record IsConsent (reg : Registry) (t : ℕ → ℕ) (actor : Actor) (i : String) (d : ReviewInput)
    (db db' : Db) : Type 0 where
  pub approval : Approval
  pub found : find i db.approvals ≡ some approval
  pub run : Run
  pub found_run : find approval.run_id db.runs ≡ some run
  pub entitled : IsEntitled reg (t 0) actor d approval run
  pub done : IsCarriedOut actor i d approval run db'

review_in-IsConsent :
    (env : Env) (reg : Registry) (t : ℕ → ℕ) (actor : Actor) (i : String) (d : ReviewInput)
    (db : Db)
    → Ensures (λ x. IsConsent reg t actor i d db x.1) (review_in env reg t actor i d db)
unfolding review_in
review_in-IsConsent env reg t actor i d db =
    Ensures-bind (require_role actor ("admin" ∷ "reviewer" ∷ [])) _ λ u role.
      Ensures-guard (actor.kind == "human") 403 "service identities cannot supply human approval" _
        λ human. Ensures-bind (approval_in actor (find i db.approvals)) _ λ a found.
          Ensures-or_crash attribute_error (find a.run_id db.runs) _ λ r row.
            Ensures-bind (check_review reg (t 0) actor d a r) _ λ v passed.
              let (stored, own) = approval_in-eq-ok actor (find i db.approvals) {a = a} found in
              let checked = (check_review-IsChecked reg (t 0) actor d a r).at v passed in
              Ensures-map (write_review env (t 1) actor d a r db)
                (λ x done. record {
                  approval = a;
                  found = stored;
                  run = r;
                  found_run = row;
                  entitled = record {
                    human = (eq_iff actor.kind "human").0 human;
                    role = require_role-eq-ok actor _ {u = u} role;
                    workspace = own;
                    undecided = done.0;
                    other = checked.other;
                    digest = checked.digest;
                    in_time = checked.in_time;
                    waiting = checked.waiting;
                    step = checked.step;
                    at_cursor = checked.at_cursor;
                    contract = checked.contract;
                    registered = checked.registered;
                    grant = checked.grant;
                  };
                  done = IsDecided-IsCarriedOut (t 1) actor i d a r x.1 done.1;
                })
                (write_review-IsDecided env (t 1) actor i d a r db stored row checked.waiting)

-- A review succeeds only for a reviewer who is entitled to it (`IsEntitled`); then the approval has
-- the reviewer's verdict, name and reason, and the run is queued again if the action was allowed and
-- rejected if it was not, with its position, outputs and spending as they were (`IsCarriedOut`).
pub review-IsConsent :
    (env : Env) (reg : Registry) (t : ℕ → ℕ) (actor : Actor) (i : String) (d : ReviewInput)
    (db db' : Db)
    → review env reg t actor i d db ≡ (ok tt, db')
    → IsConsent reg t actor i d db db'
unfolding review
review-IsConsent env reg t actor i d db db' h =
    (review_in-IsConsent env reg t actor i d db).at (tt, db') (transaction-eq-ok db _ h)
