-- ===== src/Lifecycle/Evolution/Users/Deciding.antt =====
-- `cancel`, `review` and `reconcile`.
use rednexus_ai.Json.{Json}
use mathlib.Core.Path.{subst}
use Prim.Native.String
use rednexus_ai.Base.{
  ℕ, ◌≡◌, refl, String, Bool, true, not, some, [], ◌∷◌, get_elem?, arith, ◌==◌, ok, guard, or_crash,
  index_error, attribute_error, >>=-eq-ok, guard-eq-ok,
}
use rednexus_ai.Base.Table.{find-update_self, find, find_again}
use rednexus_ai.Contracts.{
  Outcome, confirmed_succeeded, confirmed_failed, abandon, ReviewInput, ReconcileInput,
}
use rednexus_ai.Env.{Env}
use rednexus_ai.Identity.{Actor, require_role, require}
use rednexus_ai.Registry.{Registry}
use rednexus_ai.Store.{
  is_pending, Run, Approval, Db, is_running, is_idle, is_uncertain, run_keyed, approval_keyed,
  put_run, emit, close_pending,
}
use rednexus_ai.Worker.Recover.{affects-found, affects, update_run}
use rednexus_ai.Worker.Prepare.{touch}
use rednexus_ai.Platform.Access.{accessible_run-found, accessible_run}
use rednexus_ai.Platform.Cancel.{
  cancel_row, cancellable, request_cancel, cancel_idle, cancel_in, cancel,
}
use rednexus_ai.Platform.Review.{
  decide_row, resume_row, approval_in, awaits_decision, resume, check_review, write_review,
  review_in, review,
}
use rednexus_ai.Platform.Reconcile.{check_outcome, settle, reconcile_in, reconcile}
use rednexus_ai.Lifecycle.Transition.{
  cancel_asked, cancelled_idle, resumed, settled, one, or_crash-current,
}
use rednexus_ai.Lifecycle.Evolution.Defs.{Evolves, Evolves-trans, Evolves-update, Evolves-put}
use rednexus_ai.Lifecycle.Evolution.Transactions.{runs-eq, transaction-Evolves}

pub id-settle : (o : Outcome) (v : Json) (r : Run) → (settle o v r).id ≡ r.id
unfolding settle
id-settle confirmed_succeeded v r = refl
id-settle confirmed_failed v r = refl
id-settle abandon v r = refl

-- A run that was asked to cancel and is not running waits for nobody.
asked_and_idle :
    (now : ℕ) (r x : Run)
    → cancellable r ≡ true
    → x ≡ request_cancel now r
    → not (is_running x.status) ≡ true
    → (is_idle x.status ≡ true) × (x.cancel_requested ≡ true)
unfolding request_cancel
asked_and_idle now r x active e idle = ground arith

cancelling-Evolves :
    (human : Bool) (env : Env) (now : ℕ) (r : Run) (db : Db)
    → find r.id db.runs ≡ some r
    → cancellable r ≡ true
    → Evolves human env db.runs
        (update_run r.id
          (λ (x : Run). not (is_running x.status))
          cancel_idle
          (update_run r.id cancellable (request_cancel now) db)).runs
cancelling-Evolves human env now r db row active =
    let db₁ = update_run r.id cancellable (request_cancel now) db in
    let keeps : (x : Run) → (request_cancel now x).id ≡ x.id = λ x. unfold request_cancel in refl in
    let after : find r.id db₁.runs ≡ some (request_cancel now r) =
      find-update_self r.id cancellable (request_cancel now) db.runs {r = r} keeps row active in
    Evolves-trans human env
      (Evolves-update human env r.id cancellable (request_cancel now) db.runs keeps
        (λ x _ met. one (cancel_asked now met refl)))
      (Evolves-update human env r.id (λ (x : Run). not (is_running x.status)) cancel_idle db₁.runs
        (λ x. unfold cancel_idle in refl)
        (λ x found idle.
          let same : x ≡ request_cancel now r = cc in
          let facts = asked_and_idle now r x active same idle in
          one (cancelled_idle facts.0 facts.1 refl)))

cancel_in-Evolves :
    (human : Bool) (env : Env) (now : ℕ) (a : Actor) (i : String) (db : Db) (u : Unit {0}) (d : Db)
    → cancel_in env now a i db ≡ ok (u, d)
    → Evolves human env db.runs d.runs
unfolding cancel_in cancel_row emit close_pending
cancel_in-Evolves human env now a i db u d e =
    let (_, _, e₁) = >>=-eq-ok (require_role a ("admin" ∷ "operator" ∷ [])) _ e in
    let (r, seen, e₂) = >>=-eq-ok (accessible_run a i db) _ e₁ in
    let (v, met, last) =
      >>=-eq-ok (guard (affects r.id cancellable db) 409 "run already terminal") _ e₂ in
    let row = find_again i db.runs {r = r} (accessible_run-found a i db {r = r} seen) in
    let active =
      affects-found cancellable r db row
        (guard-eq-ok (affects r.id cancellable db) 409 "run already terminal" {u = v} met) in
    subst (λ xs. Evolves human env db.runs xs) (runs-eq last)
      (cancelling-Evolves human env now r db row active)

pub cancel-Evolves :
    (human : Bool) (env : Env) (now : ℕ) (a : Actor) (i : String) (db : Db)
    → Evolves human env db.runs (cancel env now a i db).1.runs
unfolding cancel
cancel-Evolves human env now a i db =
    transaction-Evolves human env db (cancel_in env now a i db)
      λ u d e. cancel_in-Evolves human env now a i db u d e

write_review-Evolves :
    (human : Bool) (env : Env) (now : ℕ) (actor : Actor) (d : ReviewInput) (a : Approval) (r : Run)
    (db : Db) (u : Unit {0}) (d' : Db)
    → write_review env now actor d a r db ≡ ok (u, d')
    → Evolves human env db.runs d'.runs
unfolding write_review decide_row resume_row emit
write_review-Evolves human env now actor d a r db u d' e =
    let (_, _, e₁) = >>=-eq-ok (guard (is_pending a.status) 409 "approval already decided") _ e in
    let (_, _, last) =
      >>=-eq-ok
        (guard (affects r.id awaits_decision (decide_row actor d a db)) 409
          "workflow changed during review")
        _ e₁ in
    subst (λ xs. Evolves human env db.runs xs) (runs-eq last)
      (Evolves-update human env r.id awaits_decision (resume now d.allow) db.runs
        (λ x. unfold resume in refl)
        (λ x _ met. one (resumed now d.allow (ground arith) (ground arith) refl)))

review_in-Evolves :
    (human : Bool) (env : Env) (reg : Registry) (t : ℕ → ℕ) (actor : Actor) (i : String)
    (d : ReviewInput) (db : Db) (u : Unit {0}) (d' : Db)
    → review_in env reg t actor i d db ≡ ok (u, d')
    → Evolves human env db.runs d'.runs
unfolding review_in
review_in-Evolves human env reg t actor i d db u d' e =
    let (_, _, e₁) = >>=-eq-ok (require_role actor ("admin" ∷ "reviewer" ∷ [])) _ e in
    let (_, _, e₂) =
      >>=-eq-ok
        (guard (actor.kind == "human") 403 "service identities cannot supply human approval") _
        e₁ in
    let (a, _, e₃) = >>=-eq-ok (approval_in actor (find i db.approvals)) _ e₂ in
    let (r, _, e₄) = >>=-eq-ok (or_crash attribute_error (find a.run_id db.runs)) _ e₃ in
    let (_, _, last) = >>=-eq-ok (check_review reg (t 0) actor d a r) _ e₄ in
    write_review-Evolves human env (t 1) actor d a r db u d' last

pub review-Evolves :
    (human : Bool) (env : Env) (reg : Registry) (t : ℕ → ℕ) (actor : Actor) (i : String)
    (d : ReviewInput) (db : Db)
    → Evolves human env db.runs (review env reg t actor i d db).1.runs
unfolding review
review-Evolves human env reg t actor i d db =
    transaction-Evolves human env db (review_in env reg t actor i d db)
      λ u d' e. review_in-Evolves human env reg t actor i d db u d' e

reconcile_in-Evolves :
    (env : Env) (now : ℕ) (a : Actor) (i : String) (d : ReconcileInput) (db : Db) (x : Run)
    (d' : Db)
    → reconcile_in env now a i d db ≡ ok (x, d')
    → Evolves true env db.runs d'.runs
unfolding reconcile_in emit put_run
reconcile_in-Evolves env now a i d db x d' e =
    let (_, _, e₁) = >>=-eq-ok (require_role a ("admin" ∷ [])) _ e in
    let (_, _, e₂) =
      >>=-eq-ok (guard (a.kind == "human") 403 "human reconciliation required") _ e₁ in
    let (r, seen, e₃) = >>=-eq-ok (accessible_run a i db) _ e₂ in
    let (_, _, e₄) =
      >>=-eq-ok
        (guard (not (r.owner == a.id)) 403 "a different administrator must reconcile this run") _
        e₃ in
    let (v, unsure, e₅) =
      >>=-eq-ok (guard (is_uncertain r.status) 409 "run does not require reconciliation") _ e₄ in
    let (s, at_cursor, e₆) = >>=-eq-ok (or_crash index_error (get_elem? r.plan r.cursor)) _ e₅ in
    let (_, _, e₇) = >>=-eq-ok (require a (String.◌++◌ "review:" s.step.capability)) _ e₆ in
    let (_, _, last) = >>=-eq-ok (check_outcome env s d.outcome d.output) _ e₇ in
    let u = settle d.outcome d.output (touch now r) in
    let row = find_again i db.runs {r = r} (accessible_run-found a i db {r = r} seen) in
    subst (λ xs. Evolves true env db.runs xs) (runs-eq last)
      (Evolves-put true env db.runs r u row (id-settle d.outcome d.output (touch now r)) (
        one (
          settled {s = s} now d.outcome d.output refl
            (guard-eq-ok (is_uncertain r.status) 409 "run does not require reconciliation" {u = v}
              unsure)
            (or_crash-current r at_cursor) refl)))

pub reconcile-Evolves :
    (env : Env) (now : ℕ) (a : Actor) (i : String) (d : ReconcileInput) (db : Db)
    → Evolves true env db.runs (reconcile env now a i d db).1.runs
unfolding reconcile
reconcile-Evolves env now a i d db =
    transaction-Evolves true env db (reconcile_in env now a i d db)
      λ x d' e. reconcile_in-Evolves env now a i d db x d' e
