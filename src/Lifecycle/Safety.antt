-- ===== src/Lifecycle/Safety.antt =====
-- What the life cycle and the guards of `prepare` together rule out, whatever the sequence of
-- transactions: another start of a cancelled run, and another attempt at an effect that failed.
use mathlib.Core.Path.{subst, subst}
use rednexus_ai.Base.{sym, ℕ, String, Bool, true, false, some, ◌≡◌, sym, ap, get_elem?, arith, ok}
use rednexus_ai.Base.Table.{put, find_again, find-key, find, find_again, find-key, Distinct}
use rednexus_ai.Contracts.{CapabilitySpec, is_read}
use rednexus_ai.Env.{Env, Draws}
use rednexus_ai.Identity.{Actor}
use rednexus_ai.Registry.{Registry}
use rednexus_ai.Store.{
  Run, PlanStep, Db, run_keyed, is_uncertain, needs_reconciliation, emit, put_run,
}
use rednexus_ai.Worker.{lease_holds, Failure}
use rednexus_ai.Worker.Prepare.{prepare, Prepared, touch}
use rednexus_ai.Worker.Authority.{prepare-IsAuthorised}
use rednexus_ai.Worker.Finish.{
  finish, finish_found, finish_held, finish_row, record_failure, fail_step, failure_status, Ending,
  error,
}
use rednexus_ai.Platform.Cancel.{cancel}
use rednexus_ai.Lifecycle.Evolution.{Evolves, find-put_self}
use rednexus_ai.Lifecycle.Stopped.{cancelled_run, cancelled_run-requested, cancel-cancelled_run}
use rednexus_ai.Lifecycle.Reachable.{
  Operation, Reach, finishing, cancelling, Operation-Evolves, Reach-Extends, uncertain_waits,
}

-- A step is never handed out of a run that is marked as cancelled.
prepare-wanted :
    (env : Env) (reg : Registry) (t : Draws) (i token : String) (db : Db) (p : Prepared) (d : Db)
    (r : Run)
    → find i db.runs ≡ some r
    → r.cancel_requested ≡ true
    → prepare env reg t i token db ≡ (ok (some p), d)
    → ⊥
prepare-wanted env reg t i token db p d r row stop h =
    let (u, found, _, _, auth) = prepare-IsAuthorised env reg t i token db p d h in
    clash u auth.wanted (cc)
  where
    clash : (u : Run) → u.cancel_requested ≡ false → some u ≡ some r → ⊥
    clash u wanted e = cc

-- After a cancellation that succeeds, whatever transactions follow, no worker ever gets a step of the
-- run from `prepare`.
pub cancelled_never_starts :
    {human : Bool} (env : Env) (now : ℕ) (a : Actor) (i : String) (db d d' : Db) (reg : Registry)
    (t : Draws) (token : String) (p : Prepared) (d'' : Db)
    → Distinct db.runs
    → cancel env now a i db ≡ (ok tt, d)
    → Reach human env d d'
    → ¬ (prepare env reg t i token d' ≡ (ok (some p), d''))
cancelled_never_starts {human} env now a i db d d' reg t token p d'' keys done path h =
    let (r, _, row) = cancel-cancelled_run env now a i db d done in
    let over : Evolves human env db.runs d.runs =
      subst (λ x. Evolves human env db.runs x.1.runs) done
        (Operation-Evolves (cancelling now a i) keys) in
    let (u, found, later) = Reach-Extends {r = cancelled_run now r} i path (over.keys keys) row in
    prepare-wanted env reg t i token d' p d'' u found
      (later.grows.cancel_kept (cancelled_run-requested now r)) h

finish_row-found :
    (env : Env) (k now : ℕ) (c : CapabilitySpec) (e : Failure) (r : Run) (db : Db)
    → find r.id db.runs ≡ some r
    → find r.id (finish_row env now c (error e) (touch k r) (put_run (touch k r) db)).runs
      ≡ some (fail_step env now c e (touch k r))
unfolding finish_row record_failure put_run emit fail_step
finish_row-found env k now c e r db row =
    find-put_self (fail_step env now c e (touch k r)) (put (touch k r) db.runs) {r = touch k r}
      (find-put_self (touch k r) db.runs {r = r} row)

finish-written :
    (env : Env) (t : ℕ → ℕ) (i token : String) (e : Ending) (db : Db) (r : Run) (s : PlanStep)
    → find i db.runs ≡ some r
    → lease_holds token (t 0) r ≡ true
    → get_elem? r.plan r.cursor ≡ some s
    → finish env t i token e db
      ≡ (ok tt, finish_row env (t 2) s.contract e (touch (t 1) r) (put_run (touch (t 1) r) db))
unfolding finish finish_found finish_held
finish-written env t i token e db r s row held at = rw row (rw held (rw at))

effect_status :
    (env : Env) (now : ℕ) (c : CapabilitySpec) (e : Failure) (r : Run)
    → is_read c.effect ≡ false
    → (fail_step env now c e r).status ≡ needs_reconciliation
unfolding fail_step failure_status
effect_status env now c e r effect = ground arith

finish-failed :
    (env : Env) (t : ℕ → ℕ) (i token : String) (e : Failure) (db : Db) (r : Run) (s : PlanStep)
    → find i db.runs ≡ some r
    → lease_holds token (t 0) r ≡ true
    → get_elem? r.plan r.cursor ≡ some s
    → is_read s.contract.effect ≡ false
    → (u : Run) × (find i (finish env t i token (error e) db).1.runs ≡ some u)
      × (u.status ≡ needs_reconciliation)
finish-failed env t i token e db r s row held at effect = (
  fail_step env (t 2) s.contract e (touch (t 1) r),
  subst (λ x. find i x.1.runs ≡ some (fail_step env (t 2) s.contract e (touch (t 1) r)))
      (sym (finish-written env t i token (error e) db r s row held at))
      (subst
        (λ x.
          find x
            (finish_row env (t 2) s.contract (error e) (touch (t 1) r)
              (put_run (touch (t 1) r) db)).runs
          ≡ some (fail_step env (t 2) s.contract e (touch (t 1) r)))
        (find-key i db.runs {r = r} row)
        (finish_row-found env (t 1) (t 2) s.contract e r db (find_again i db.runs {r = r} row))),
  effect_status env (t 2) s.contract e (touch (t 1) r) effect,
)

-- An effect, that is a step whose contract is not a read, is never tried again by itself: once
-- `finish` has recorded that it failed, no sequence of transactions other than a human's
-- reconciliation leads to a `prepare` that hands out a step of the run.
pub effect_never_retried :
    (env : Env) (t : ℕ → ℕ) (i token : String) (e : Failure) (db : Db) (r : Run) (s : PlanStep)
    (d : Db) (reg : Registry) (t' : Draws) (token' : String) (p : Prepared) (d' : Db)
    → Distinct db.runs
    → find i db.runs ≡ some r
    → lease_holds token (t 0) r ≡ true
    → get_elem? r.plan r.cursor ≡ some s
    → is_read s.contract.effect ≡ false
    → Reach false env (finish env t i token (error e) db).1 d
    → ¬ (prepare env reg t' i token' d ≡ (ok (some p), d'))
effect_never_retried env t i token e db r s d reg t' token' p d' keys row held at effect path h =
    let (u, failed, unsure) = finish-failed env t i token e db r s row held at effect in
    let op : Operation false env db (finish env t i token (error e) db).1 =
      finishing t i token (error e) in
    let over = Operation-Evolves op keys in
    let stays = uncertain_waits {r = u} i path (over.keys keys) failed (ap is_uncertain unsure) in
    let (v, found, lease, _, _) = prepare-IsAuthorised env reg t' i token' d p d' h in
    clash {u = u} v lease (cc) unsure
  where
    clash :
        {u : Run} (v : Run)
        → lease_holds token' (t'.clock 0) v ≡ true
        → some v ≡ some u
        → u.status ≡ needs_reconciliation
        → ⊥
    clash v lease same unsure = ground arith
