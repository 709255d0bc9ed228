-- ===== src/Worker/Recover.antt =====
-- `Worker.recover`: expired leases, missions past their deadline, and expired approvals.
use rednexus_ai.Base.{
  ◌≡◌, arith, ℕ, String, Bool, true, false, not, ◌&&◌, Option, none, some, List, [], ◌∷◌, get_elem?,
  filter, ltb, ◌==◌, if◌then◌else◌, Result, ok, index_error, or_crash, ◌>>=◌,
}
use rednexus_ai.Base.Table.{find, modify}
use rednexus_ai.Json.{str, obj, end}
use rednexus_ai.Contracts.{CapabilitySpec, is_read}
use rednexus_ai.Contracts.Dump.{fields}
use rednexus_ai.Env.{Env}
use rednexus_ai.Store.{
  Run, Approval, Status, Decision, Db, needs_reconciliation, cancelled, retry_wait, failed, expired,
  is_running, is_waiting, is_idle, is_pending, status_text, run_keyed, approval_keyed, emit,
  close_pending, transaction,
}

-- `lease_until < now`, where NULL compares false.
abbrev pub lease_past : Option ℕ → ℕ → Bool
lease_past none now = false
lease_past (some u) now = ltb u now

abbrev pub lease_expired : ℕ → Run → Bool
lease_expired now r = is_running r.status && lease_past r.lease_until now

-- An uncertain effect is left to a human; a read is tried again while it has attempts.
unfoldable pub reclaim_status : CapabilitySpec → Run → Status
reclaim_status c r =
    if not (is_read c.effect)
    then needs_reconciliation
    else if r.cancel_requested
    then cancelled
    else if ltb r.attempts c.max_attempts
    then retry_wait
    else failed

unfoldable pub reclaim : ℕ → Status → Run → Run
reclaim now st r = record r {
  status = st;
  lease_token = none;
  lease_until = none;
  next_attempt = now;
  error = some "worker_lease_expired";
  updated = now;
}

abbrev pub same_token : Option String → Option String → Bool
same_token none none = true
same_token (some a) (some b) = a == b
same_token _ _ = false

-- The conditional update of one run, and whether it met a row.
abbrev pub affects : String → (Run → Bool) → Db → Bool
affects i test db = elim (find i db.runs) [ none ↦ false | some r ↦ test r ]

abbrev pub update_run : String → (Run → Bool) → (Run → Run) → Db → Db
update_run i test f db = record db { runs = modify i (λ r. if test r then f r else r) db.runs }

pub affects-found :
    (test : Run → Bool) (r : Run) (db : Db)
    → find r.id db.runs ≡ some r
    → affects r.id test db ≡ true
    → test r ≡ true
affects-found test r db row met = ground arith

-- The lease that was read is still there, and still expired.
abbrev pub same_lease : ℕ → Run → Run → Bool
same_lease now row r = lease_expired now r && same_token r.lease_token row.lease_token

unfoldable pub reclaim_as : Env → ℕ → Run → CapabilitySpec → Db → Db
unfolding reclaim_status reclaim
reclaim_as env now row c db =
    let st = reclaim_status c row in
    let db' = update_run row.id (same_lease now row) (reclaim now st) db in
    if affects row.id (same_lease now row) db
    then emit env row.workspace "step.lease_expired"
        (obj (fields (("status", str (status_text st)) ∷ []))) (some row.id) db'
    else db'

-- One round of the first loop.
unfoldable pub reclaim_row : Env → ℕ → Run → Db → Result Db
reclaim_row env now row db = do
  step ← or_crash index_error (get_elem? row.plan row.cursor)
  ok (reclaim_as env now row step.contract db)

unfoldable pub reclaim_rows : Env → ℕ → List Run → Db → Result Db
unfolding reclaim_row
reclaim_rows env now [] db = ok db
reclaim_rows env now (r ∷ rs) db = do db' ← reclaim_row env now r db; reclaim_rows env now rs db'

abbrev pub overdue : ℕ → Run → Bool
overdue now r = is_idle r.status && ltb r.deadline now

unfoldable pub expire : ℕ → String → Run → Run
expire now why r = record r { status = expired; error = some why; updated = now }

-- One round of the second loop.
unfoldable pub expire_row : Env → ℕ → Run → Db → Db
unfolding expire
expire_row env now row db =
    let db' = update_run row.id (overdue now) (expire now "mission_deadline_exceeded") db in
    if affects row.id (overdue now) db
    then emit env row.workspace "workflow.expired" (obj end) (some row.id)
        (close_pending row.id Decision.expired db')
    else db'

unfoldable pub expire_rows : Env → ℕ → List Run → Db → Db
unfolding expire_row
expire_rows env now [] db = db
expire_rows env now (r ∷ rs) db = expire_rows env now rs (expire_row env now r db)

abbrev pub waits : Run → Bool
waits r = is_waiting r.status

-- One round of the third loop: the approval, and the run that waits for it.
unfoldable pub expire_found : ℕ → Approval → Option Approval → Db → Db
unfolding expire
expire_found now a none db = db
expire_found now a (some b) db =
    if is_pending b.status
    then update_run a.run_id waits (expire now "approval_expired") (record db {
      approvals =
          modify a.id (λ (x : Approval). record x { status = Decision.expired }) db.approvals;
    })
    else db

unfoldable pub expire_approval : ℕ → Approval → Db → Db
expire_approval now a db = expire_found now a (find a.id db.approvals) db

unfoldable pub expire_approvals : ℕ → List Approval → Db → Db
unfolding expire_approval
expire_approvals now [] db = db
expire_approvals now (a ∷ rest) db = expire_approvals now rest (expire_approval now a db)

unfoldable pub recover_in : Env → ℕ → Db → Result (Unit {0} × Db)
unfolding reclaim_rows expire_rows expire_approvals
recover_in env now db = do
  db₁ ← reclaim_rows env now (filter (lease_expired now) db.runs) db
  let db₂ = expire_rows env now (filter (overdue now) db₁.runs) db₁
  let late = filter (λ (a : Approval). is_pending a.status && ltb a.expires now) db₂.approvals
  ok (tt, expire_approvals now late db₂)

-- `Worker.recover`; the clock is read once.
unfoldable pub recover : Env → ℕ → Db → Result (Unit {0}) × Db
recover env now db = transaction db (recover_in env now db)
