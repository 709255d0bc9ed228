-- ===== src/Lifecycle/Evolution/Workers/Finishing.antt =====
-- `finish` ends the step of the run that it holds.
use rednexus_ai.Base.{
  Bool, ℕ, ◌≡◌, refl, String, true, Option, none, some, get_elem?, arith, Bool-cases, inl, inr, ok,
  index_error, or_crash, >>=-eq-ok,
}
use rednexus_ai.Base.Table.{find_again, find, put}
use rednexus_ai.Json.{Json}
use rednexus_ai.Contracts.{CapabilitySpec}
use rednexus_ai.Env.{Env}
use rednexus_ai.Store.{Run, PlanStep, Db, is_running, run_keyed, put_run, emit}
use rednexus_ai.Worker.{Failure, lease_holds}
use rednexus_ai.Worker.Prepare.{touch}
use rednexus_ai.Worker.Finish.{
  Ending, output, error, fail_step, complete_step, record_failure, record_output, finish_row,
  finish_held, finish_found, finish,
}
use rednexus_ai.Lifecycle.Transition.{or_crash-current, touched, completed, failed, one, current}
use rednexus_ai.Lifecycle.Evolution.Defs.{Evolves, Evolves-trans, Evolves-put, find-put_self}
use rednexus_ai.Lifecycle.Evolution.Transactions.{same-Evolves, transaction-Evolves}

runs-record_output :
    (env : Env) (v : Json) (r : Run) (db : Db)
    → (record_output env v r db).runs ≡ put (complete_step v r) db.runs
unfolding record_output emit put_run
runs-record_output env v r db = ground arith

runs-record_failure :
    (env : Env) (now : ℕ) (c : CapabilitySpec) (e : Failure) (r : Run) (db : Db)
    → (record_failure env now c e r db).runs ≡ put (fail_step env now c e r) db.runs
unfolding record_failure emit put_run
runs-record_failure env now c e r db = refl

finish_row-Evolves :
    (human : Bool) (env : Env) (now : ℕ) (s : PlanStep) (ending : Ending) (r : Run) (db : Db)
    → is_running r.status ≡ true
    → current r ≡ some s
    → find r.id db.runs ≡ some r
    → Evolves human env db.runs (finish_row env now s.contract ending r db).runs
unfolding finish_row
finish_row-Evolves human env now s (output v) r db live at_cursor row =
    rw (runs-record_output env v r db) (
      Evolves-put human env db.runs r (complete_step v r) row (unfold complete_step in refl)
        (one (completed {s = s} v live at_cursor refl)))
finish_row-Evolves human env now s (error e) r db live at_cursor row =
    rw (runs-record_failure env now s.contract e r db) (
      Evolves-put human env db.runs r (fail_step env now s.contract e r) row
        (unfold fail_step in refl) (one (failed {s = s} now e live at_cursor refl)))

finish_held-Evolves :
    (human : Bool) (env : Env) (t : ℕ → ℕ) (ending : Ending) (r : Run) (db : Db) (u : Unit {0})
    (d : Db)
    → is_running r.status ≡ true
    → find r.id db.runs ≡ some r
    → finish_held env t ending r db ≡ ok (u, d)
    → Evolves human env db.runs d.runs
unfolding finish_held put_run
finish_held-Evolves human env t ending r db u d live row e =
    let (s, found, last) = >>=-eq-ok (or_crash index_error (get_elem? r.plan r.cursor)) _ e in
    let r' = touch (t 1) r in
    let db' = put_run r' db in
    let same : finish_row env (t 2) s.contract ending r' db' ≡ d = cc last in
    rw (← same) (
      Evolves-trans human env
        (Evolves-put human env db.runs r r' row refl (one (touched (t 1) live refl)))
        (finish_row-Evolves human env (t 2) s ending r' db' live (or_crash-current r found)
          (find-put_self r' db.runs {r = r} row)))

finish_found-Evolves :
    (human : Bool) (env : Env) (t : ℕ → ℕ) (i token : String) (ending : Ending) (o : Option Run)
    (db : Db) (u : Unit {0}) (d : Db)
    → find i db.runs ≡ o
    → finish_found env t token ending o db ≡ ok (u, d)
    → Evolves human env db.runs d.runs
unfolding finish_found
finish_found-Evolves human env t i token ending none db u d row e = same-Evolves human env e
finish_found-Evolves human env t i token ending (some r) db u d row e =
    elim (Bool-cases (lease_holds token (t 0) r)) [
      | inl held ↦
          finish_held-Evolves human env t ending r db u d (ground arith)
            (find_again i db.runs {r = r} row) (rw held at e)
      | inr lost ↦ same-Evolves human env (rw lost at e)
    ]

pub finish-Evolves :
    (human : Bool) (env : Env) (t : ℕ → ℕ) (i token : String) (ending : Ending) (db : Db)
    → Evolves human env db.runs (finish env t i token ending db).1.runs
unfolding finish
finish-Evolves human env t i token ending db =
    transaction-Evolves human env db (finish_found env t token ending (find i db.runs) db)
      λ u d e. finish_found-Evolves human env t i token ending (find i db.runs) db u d refl e
