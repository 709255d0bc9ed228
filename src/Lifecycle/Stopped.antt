-- ===== src/Lifecycle/Stopped.antt =====
-- What `cancel` leaves of a run.
use mathlib.Core.Path.{subst, subst}
use rednexus_ai.Base.{
  ℕ, String, true, false, not, some, [], ◌∷◌, ◌≡◌, refl, ◌∙◌, arith, ok, if◌then◌else◌,
}
use rednexus_ai.Base.Ensures.{Ensures, Ensures-ok, Ensures-bind, Ensures-guard}
use rednexus_ai.Base.Table.{
  find_again, find-key, find-modify_self, find, find_again, find-key, find-update_self,
}
use rednexus_ai.Env.{Env}
use rednexus_ai.Identity.{Actor, require_role}
use rednexus_ai.Store.{
  running, cancelled, Run, Db, run_keyed, is_running, emit, close_pending, transaction-eq-ok,
}
use rednexus_ai.Worker.Recover.{affects, affects-found, update_run}
use rednexus_ai.Platform.Access.{accessible_run, accessible_run-found}
use rednexus_ai.Platform.Cancel.{
  cancel, cancel_in, cancel_row, cancellable, request_cancel, cancel_idle,
}

-- What a cancellation makes of the run: a worker that holds it is only told, else it ends.
unfoldable pub cancelled_run : ℕ → Run → Run
cancelled_run now r =
    if is_running r.status then request_cancel now r else cancel_idle (request_cancel now r)

pub cancelled_run-requested : (now : ℕ) (r : Run) → (cancelled_run now r).cancel_requested ≡ true
unfolding cancelled_run request_cancel cancel_idle
cancelled_run-requested now r = ground arith

update_idle :
    (i : String) (now : ℕ) (r : Run) (d : Db)
    → find i d.runs ≡ some (request_cancel now r)
    → find i (update_run i (λ (x : Run). not (is_running x.status)) cancel_idle d).runs
      ≡ some (cancelled_run now r)
unfolding cancelled_run request_cancel cancel_idle
update_idle i now r d row =
    find-modify_self i (λ (x : Run). if not (is_running x.status) then cancel_idle x else x) d.runs
      {r = request_cancel now r} (λ x. ground arith) row
    ∙ (ground arith)

cancel_row-found :
    (env : Env) (now : ℕ) (a : Actor) (r : Run) (db : Db)
    → find r.id db.runs ≡ some r
    → cancellable r ≡ true
    → find r.id (cancel_row env now a r db).runs ≡ some (cancelled_run now r)
unfolding cancel_row emit close_pending
cancel_row-found env now a r db row active =
    update_idle r.id now r (update_run r.id cancellable (request_cancel now) db) (
      find-update_self r.id cancellable (request_cancel now) db.runs {r = r}
        (λ x. unfold request_cancel in refl) row active)

-- The run under the identifier, and what the cancellation has made of it.
record IsCancelled (now : ℕ) (i : String) (db d : Db) : Type 0 where
  run : Run
  before : find i db.runs ≡ some run
  after : find i d.runs ≡ some (cancelled_run now run)

cancel_row-IsCancelled :
    (env : Env) (now : ℕ) (a : Actor) (i : String) (r : Run) (db : Db)
    → find i db.runs ≡ some r
    → affects r.id cancellable db ≡ true
    → IsCancelled now i db (cancel_row env now a r db)
cancel_row-IsCancelled env now a i r db row met =
    let own = find_again i db.runs {r = r} row in
    record {
      run = r;
      before = row;
      after =
          subst (λ x. find x (cancel_row env now a r db).runs ≡ some (cancelled_run now r))
            (find-key i db.runs {r = r} row)
            (cancel_row-found env now a r db own (affects-found cancellable r db own met));
    }

cancel_in-IsCancelled :
    (env : Env) (now : ℕ) (a : Actor) (i : String) (db : Db)
    → Ensures (λ x. IsCancelled now i db x.1) (cancel_in env now a i db)
unfolding cancel_in
cancel_in-IsCancelled env now a i db =
    Ensures-bind (require_role a ("admin" ∷ "operator" ∷ [])) _ λ _ _.
      Ensures-bind (accessible_run a i db) _ λ r seen.
        Ensures-guard (affects r.id cancellable db) 409 "run already terminal" _ λ met.
          Ensures-ok (tt, cancel_row env now a r db)
            (cancel_row-IsCancelled env now a i r db (accessible_run-found a i db {r = r} seen) met)

-- The row that a cancellation leaves.
pub cancel-cancelled_run :
    (env : Env) (now : ℕ) (a : Actor) (i : String) (db d : Db)
    → cancel env now a i db ≡ (ok tt, d)
    → (r : Run) × (find i db.runs ≡ some r) × (find i d.runs ≡ some (cancelled_run now r))
unfolding cancel
cancel-cancelled_run env now a i db d h =
    let done = (cancel_in-IsCancelled env now a i db).at (tt, d) (transaction-eq-ok db _ h) in
    (done.run, done.before, done.after)

-- The mark is set; a run that no worker holds has ended as cancelled, and a run that one holds goes
-- on running; its position, outputs, plan, spending and lease stay.
pub record IsStopped (i : String) (r : Run) (d : Db) : Type 0 where
  pub run : Run
  pub row : find i d.runs ≡ some run
  pub marked : run.cancel_requested ≡ true
  pub ended : is_running r.status ≡ false → run.status ≡ cancelled
  pub held : r.status ≡ running → run.status ≡ running
  pub position : (run.cursor ≡ r.cursor) × (run.outputs ≡ r.outputs) × (run.plan ≡ r.plan)
  pub spent : (run.tool_calls ≡ r.tool_calls) × (run.cost ≡ r.cost)
  pub lease : run.lease_token ≡ r.lease_token

cancelled_run-IsStopped :
    (now : ℕ) (i : String) (r : Run) (d : Db)
    → find i d.runs ≡ some (cancelled_run now r)
    → IsStopped i r d
unfolding cancelled_run request_cancel cancel_idle
cancelled_run-IsStopped now i r d row = record {
  run = cancelled_run now r;
  row = row;
  marked = ground arith;
  ended = λ e. ground arith;
  held = λ e. ground arith;
  position = (ground arith, ground arith, ground arith);
  spent = (ground arith, ground arith);
  lease = ground arith;
}

pub cancel-IsStopped :
    (env : Env) (now : ℕ) (a : Actor) (i : String) (db d : Db)
    → cancel env now a i db ≡ (ok tt, d)
    → (r : Run) × (find i db.runs ≡ some r) × IsStopped i r d
cancel-IsStopped env now a i db d h =
    let (r, before, after) = cancel-cancelled_run env now a i db d h in
    (r, before, cancelled_run-IsStopped now i r d after)
