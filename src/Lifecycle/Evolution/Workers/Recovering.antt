-- ===== src/Lifecycle/Evolution/Workers/Recovering.antt =====
-- `recover` reclaims expired leases and expires runs.
use mathlib.Core.Path.{sym, ap, subst}
use mathlib.Core.Option
use mathlib.Core.Option.{some-injective}
use rednexus_ai.Contracts.{CapabilitySpec}
use rednexus_ai.Base.{
  ◌==◌, eq_iff, ◌∙◌, sym, ap, All-filter, All-map, ltb, All, ℕ, ◌≡◌, refl, Bool, true, false, ◌&&◌,
  Option, none, some, List, [], ◌∷◌, get_elem?, filter, arith, Bool-cases, inl, inr, if◌then◌else◌,
  ok, index_error, or_crash, >>=-eq-ok,
}
use rednexus_ai.Base.Table.{find-modify, Distinct-found, Distinct, find, modify}
use rednexus_ai.Env.{Env}
use rednexus_ai.Store.{
  Run, Approval, PlanStep, Db, is_pending, run_keyed, approval_keyed, emit, close_pending,
}
use rednexus_ai.Worker.Recover.{
  same_lease, expire_found, recover_in, reclaim_as, affects, lease_expired, reclaim, reclaim_status,
  reclaim_row, reclaim_rows, overdue, expire, expire_row, expire_rows, waits, expire_approval,
  expire_approvals, recover,
}
use rednexus_ai.Lifecycle.Transition.{or_crash-current, reclaimed, expired, one, current}
use rednexus_ai.Lifecycle.Evolution.Defs.{Evolves, Evolves-refl, Evolves-trans, Evolves-update}
use rednexus_ai.Lifecycle.Evolution.Transactions.{transaction-Evolves}

expire_row-Evolves :
    (human : Bool) (env : Env) (now : ℕ) (row : Run) (db : Db)
    → Evolves human env db.runs (expire_row env now row db).runs
unfolding expire_row emit close_pending
expire_row-Evolves human env now row db =
    let changed =
      Evolves-update human env row.id (overdue now) (expire now "mission_deadline_exceeded") db.runs
        (λ r. unfold expire in refl) (λ r _ h. one (expired now _ (ground arith) refl)) in
    elim (Bool-cases (affects row.id (overdue now) db)) [
      | inl met ↦ rw met changed
      | inr none_met ↦ rw none_met changed
    ]

expire_rows-Evolves :
    (human : Bool) (env : Env) (now : ℕ) (rs : List Run) (db : Db)
    → Evolves human env db.runs (expire_rows env now rs db).runs
unfolding expire_rows
expire_rows-Evolves human env now [] db = Evolves-refl human env db.runs
expire_rows-Evolves human env now (r ∷ rs) db =
    Evolves-trans human env (expire_row-Evolves human env now r db)
      (expire_rows-Evolves human env now rs (expire_row env now r db))

expire_found-Evolves :
    (human : Bool) (env : Env) (now : ℕ) (a : Approval) (o : Option Approval) (db : Db)
    → Evolves human env db.runs (expire_found now a o db).runs
unfolding expire_found
expire_found-Evolves human env now a none db = Evolves-refl human env db.runs
expire_found-Evolves human env now a (some b) db = elim (Bool-cases (is_pending b.status)) [
  | inl open_still ↦ rw open_still (
      Evolves-update human env a.run_id waits (expire now "approval_expired") db.runs
        (λ r. unfold expire in refl) (λ r _ h. one (expired now _ (ground arith) refl)))
  | inr decided ↦ rw decided (Evolves-refl human env db.runs)
]

expire_approval-Evolves :
    (human : Bool) (env : Env) (now : ℕ) (a : Approval) (db : Db)
    → Evolves human env db.runs (expire_approval now a db).runs
unfolding expire_approval
expire_approval-Evolves human env now a db =
    expire_found-Evolves human env now a (find a.id db.approvals) db

expire_approvals-Evolves :
    (human : Bool) (env : Env) (now : ℕ) (late : List Approval) (db : Db)
    → Evolves human env db.runs (expire_approvals now late db).runs
unfolding expire_approvals
expire_approvals-Evolves human env now [] db = Evolves-refl human env db.runs
expire_approvals-Evolves human env now (a ∷ rest) db =
    Evolves-trans human env (expire_approval-Evolves human env now a db)
      (expire_approvals-Evolves human env now rest (expire_approval now a db))

-- What the first loop needs of a row that it has read: where it is still expired, it is unchanged.
abbrev IsCurrent : ℕ → Db → Run → Type 0
IsCurrent now db row =
    (x : Run) → find row.id db.runs ≡ some x → lease_expired now x ≡ true → x ≡ row

runs-reclaim_as :
    (env : Env) (now : ℕ) (row : Run) (c : CapabilitySpec) (db : Db)
    → (reclaim_as env now row c db).runs
      ≡ modify row.id
          (λ r. if same_lease now row r then reclaim now (reclaim_status c row) r else r)
          db.runs
unfolding reclaim_as emit
runs-reclaim_as env now row c db = elim (Bool-cases (affects row.id (same_lease now row) db)) [
  | inl met ↦ rw met refl
  | inr none_met ↦ rw none_met refl
]

-- The row that an update meets is the one that was read, so its own step decides.
reclaim_as-Evolves :
    (human : Bool) (env : Env) (now : ℕ) (row : Run) (s : PlanStep) (db : Db)
    → current row ≡ some s
    → IsCurrent now db row
    → Evolves human env db.runs (reclaim_as env now row s.contract db).runs
reclaim_as-Evolves human env now row s db h fresh = rw (runs-reclaim_as env now row s.contract db) (
    Evolves-update human env row.id (same_lease now row)
      (reclaim now (reclaim_status s.contract row)) db.runs (λ r. unfold reclaim in refl)
      (λ r found met.
        let same : r ≡ row = fresh r found (ground arith) in
        rw same (one (reclaimed {s = s} now (ground arith) h refl))))

-- A row that was reclaimed is running no more, so what is still expired was not touched.
reclaimed_over :
    (now : ℕ) (row y : Run) (c : CapabilitySpec)
    → lease_expired now (reclaim now (reclaim_status c row) y) ≡ false
unfolding reclaim reclaim_status
reclaimed_over now row y c = ground arith

some_if_true :
    {b : Bool} {u z : Run} (v : Run)
    → b ≡ true
    → some (if b then u else v) ≡ some z
    → some u ≡ some z
some_if_true v h k = ground arith

some_if_false :
    {b : Bool} {v z : Run} (u : Run)
    → b ≡ false
    → some (if b then u else v) ≡ some z
    → some v ≡ some z
some_if_false u h k = ground arith

still_expired :
    (now : ℕ) (row x : Run) (c : CapabilitySpec) (o : Option Run)
    → Option.map (λ r. if same_lease now row r then reclaim now (reclaim_status c row) r else r) o
      ≡ some x
    → lease_expired now x ≡ true
    → o ≡ some x
still_expired now row x c none e late = cc
still_expired now row x c (some y) e late = elim (Bool-cases (same_lease now row y)) [
  | inl met ↦
      let over : some (reclaim now (reclaim_status c row) y) ≡ some x = some_if_true y met e in
      (let gone : reclaim now (reclaim_status c row) y ≡ x = cc over in
        cc (reclaimed_over now row y c, ap (lease_expired now) gone))
  | inr unmet ↦ some_if_false (reclaim now (reclaim_status c row) y) unmet e
]

reclaim_as-IsCurrent :
    (env : Env) (now : ℕ) (row other : Run) (c : CapabilitySpec) (db : Db)
    → IsCurrent now db other
    → IsCurrent now (reclaim_as env now row c db) other
reclaim_as-IsCurrent env now row other c db fresh x found late =
    elim (Bool-cases (row.id == other.id)) [
      | inl same ↦
          let to_other : row.id ≡ other.id = (eq_iff row.id other.id).0 same in
          fresh x
            (subst (λ i. find i db.runs ≡ some x) to_other
              (still_expired now row x c (find row.id db.runs) (rw same at moved) late))
            late
      | inr apart ↦ fresh x (rw apart at moved) late
    ]
  where
    g : Run → Run
    g r = if same_lease now row r then reclaim now (reclaim_status c row) r else r

    moved :
        (if row.id == other.id then Option.map g (find row.id db.runs) else find other.id db.runs)
        ≡ some x
    moved =
        sym (find-modify row.id other.id g db.runs (λ r e. kept r e))
        ∙ (rw (runs-reclaim_as env now row c db) at found)
      where
        kept : (r : Run) → r.id ≡ row.id → (g r).id ≡ row.id
        kept r e = elim (Bool-cases (same_lease now row r)) [
          | inl met ↦ rw met (unfold reclaim in e)
          | inr unmet ↦ rw unmet e
        ]

reclaim_rows-Evolves :
    (human : Bool) (env : Env) (now : ℕ) (rows : List Run) (db d : Db)
    → All (IsCurrent now db) rows
    → reclaim_rows env now rows db ≡ ok d
    → Evolves human env db.runs d.runs
unfolding reclaim_rows reclaim_row
reclaim_rows-Evolves human env now [] db d fresh e =
    let same : db ≡ d = cc in rw (← same) (Evolves-refl human env db.runs)
reclaim_rows-Evolves human env now (r ∷ rows) db d (f, fs) e =
    let (db', first, rest) = >>=-eq-ok (reclaim_row env now r db) _ e in
    let (s, found, last) = >>=-eq-ok (or_crash index_error (get_elem? r.plan r.cursor)) _ first in
    let same : reclaim_as env now r s.contract db ≡ db' = cc last in
    Evolves-trans human env
      (subst (λ (x : Db). Evolves human env db.runs x.runs) same
        (reclaim_as-Evolves human env now r s db (or_crash-current r found) f))
      (reclaim_rows-Evolves human env now rows db' d
        (subst (λ (x : Db). All (IsCurrent now x) rows) same
          (All-map (IsCurrent now db) (IsCurrent now (reclaim_as env now r s.contract db)) rows
            (λ x h. reclaim_as-IsCurrent env now r x s.contract db h) fs))
        rest)

listed_row : (now : ℕ) (db : Db) (row : Run) → find row.id db.runs ≡ some row → IsCurrent now db row
listed_row now db row h x found late = cc

recover_in-Evolves :
    (human : Bool) (env : Env) (now : ℕ) (db : Db) (u : Unit {0}) (d : Db)
    → Distinct db.runs
    → recover_in env now db ≡ ok (u, d)
    → Evolves human env db.runs d.runs
unfolding recover_in
recover_in-Evolves human env now db u d keys e =
    let expired_rows = filter (lease_expired now) db.runs in
    let (db₁, leases, rest) = >>=-eq-ok (reclaim_rows env now expired_rows db) _ e in
    let db₂ = expire_rows env now (filter (overdue now) db₁.runs) db₁ in
    let late = filter (λ (a : Approval). is_pending a.status && ltb a.expires now) db₂.approvals in
    let same : expire_approvals now late db₂ ≡ d = cc rest in
    Evolves-trans human env
      (reclaim_rows-Evolves human env now expired_rows db db₁
        (All-filter (IsCurrent now db) (lease_expired now) db.runs (
          All-map (λ x. find x.id db.runs ≡ some x) (IsCurrent now db) db.runs
            (λ x h. listed_row now db x h) (Distinct-found db.runs keys)))
        leases)
      (Evolves-trans human env
        (expire_rows-Evolves human env now (filter (overdue now) db₁.runs) db₁)
        (subst (λ (x : Db). Evolves human env db₂.runs x.runs) same
          (expire_approvals-Evolves human env now late db₂)))

pub recover-Evolves :
    (human : Bool) (env : Env) (now : ℕ) (db : Db)
    → Distinct db.runs
    → Evolves human env db.runs (recover env now db).1.runs
unfolding recover
recover-Evolves human env now db keys =
    transaction-Evolves human env db (recover_in env now db)
      λ u d e. recover_in-Evolves human env now db u d keys e
