-- ===== src/Worker/Authority.antt =====
-- `Worker.prepare` of runtime.py hands out a step only if the step is authorised.
mod Facts
mod Rows
pub use Facts.*
use rednexus_ai.Worker.Authority.Facts.{HoldsLease}
use rednexus_ai.Worker.Defs.{token_is, lease_open, lease_holds}
use rednexus_ai.Base.Table.{find}
use rednexus_ai.Base.Ensures.{
  Ensures-map, Ensures-or_crash, Ensures-if, Ensures-guard_last, Ensures-guard, Ensures-ok,
  Ensures-bind, Ensures,
}
use rednexus_ai.Base.{
  eq_iff, ap, ◌<◌, ℕ, Option, none, some, Bool-cases, crashed, raised, ◌&&◌, ◌∙◌, ap, eq_iff,
  eq_iff, ◌⊎◌, List, ℕ, ◌+◌, ◌≤◌, ◌<◌, ◌≡◌, refl, String, true, false, not, ◌||◌, Option, none,
  some, [], ◌∷◌, get_elem?, elem, arith, leb, ltb, ◌==◌, inl, inr, Result, ok, index_error,
  guard-eq-ok,
}
use rednexus_ai.Json.{Json, Fields, obj}
use rednexus_ai.Contracts.{CapabilitySpec}
use rednexus_ai.Env.{Env, Draws, digest, validate_payload}
use rednexus_ai.Identity.{Actor, actor_for, require_role, require}
use rednexus_ai.Registry
use rednexus_ai.Registry.{Registry, fingerprint}
use rednexus_ai.Store.{
  running, is_running, Status, transaction-eq-ok, put_run, transaction, Run, Approval, PlanStep, Db,
  is_approved, approval_at, run_keyed,
}
use rednexus_ai.Worker.Prepare.{
  touch, prepare, prepare_found, or_block, Prepared, append_text, action_of, reviewer_of,
  check_approval, start_step, approve_step, run_step, prepare_row,
}
use rednexus_ai.Workflows.Flow.{condition_matches, input_for}
use rednexus_ai.Worker.Authority.Rows.{OfStep, prepare_row-IsAuthorised}

untouched-reviewer_of :
    (now : ℕ) (r : Run) (a : Actor) (db : Db) (o : Option String)
    → reviewer_of (put_run (touch now r) db) r.workspace o ≡ ok a
    → reviewer_of db r.workspace o ≡ ok a
unfolding put_run reviewer_of actor_for
untouched-reviewer_of now r a db none h = h
untouched-reviewer_of now r a db (some x) h = h

-- The time of the update and the table of the runs play no part in the tests.
untouched-IsCovered :
    (env : Env) (now late : ℕ) (r : Run) (c : CapabilitySpec) (print : String) (payload : Fields)
    (owner : Actor) (db : Db)
    → IsCovered env late
        (put_run (touch now r) db)
        (touch now r)
        c
        (action_of (touch now r) c print payload)
        owner
    → IsCovered env late db r c (action_of r c print payload) owner
unfolding put_run action_of reviewer_of actor_for
untouched-IsCovered env now late r c print payload owner db h = record {
  approval = h.approval;
  stored = h.stored;
  granted = h.granted;
  same_action = h.same_action;
  in_time = h.in_time;
  reviewer = h.reviewer;
  active = untouched-reviewer_of now r h.reviewer db h.approval.reviewer h.active;
  role = h.role;
  grant = h.grant;
  human = h.human;
  other = h.other;
}

untouched-IsAdmitted :
    (env : Env) (t : Draws) (now : ℕ) (owner : Actor) (r : Run) (s : PlanStep) (c : CapabilitySpec)
    (db : Db) (p : Prepared)
    → IsAdmitted env t owner (touch now r) s c (put_run (touch now r) db) p
    → IsAdmitted env t owner r s c db p
untouched-IsAdmitted env t now owner r s c db p h = record {
  paid = record {
    spec = h.paid.spec;
    calls_left = h.paid.calls_left;
    budget_left = h.paid.budget_left;
  };
  input = h.input;
  valid = h.valid;
  covered = elim h.covered [
    | inl exempt ↦ inl exempt
    | inr held ↦
        inr (untouched-IsCovered env now (t.clock 2) r c s.fingerprint p.payload owner db held)
  ];
}

untouched-IsAuthorised :
    (env : Env) (reg : Registry) (t : Draws) (now : ℕ) (r : Run) (db : Db) (p : Prepared)
    → IsAuthorised env reg t (touch now r) (put_run (touch now r) db) p
    → IsAuthorised env reg t r db p
untouched-IsAuthorised env reg t now r db p h = record {
  step = h.step;
  at_cursor = h.at_cursor;
  owner = h.owner;
  active = unfold put_run actor_for in h.active;
  role = h.role;
  grant = h.grant;
  contract = h.contract;
  registered = h.registered;
  unchanged = h.unchanged;
  wanted = h.wanted;
  condition = h.condition;
  admitted = untouched-IsAdmitted env t now h.owner r h.step h.contract db p h.admitted;
}

or_block-hands :
    (env : Env) (r : Run) (db : Db) (m : Result (Option Prepared × Db)) (p : Prepared) (d : Db)
    → or_block env r db m ≡ ok (some p, d)
    → m ≡ ok (some p, d)
unfolding or_block
or_block-hands env r db (ok x) p d h = h
or_block-hands env r db (raised q) p d h = cc
or_block-hands env r db (crashed x) p d h = cc

abbrev nothing : Db → Result (Option Prepared × Db)
nothing db = ok (none, db)

none_handed {ℓ} : {A : Type ℓ} (db : Db) (p : Prepared) (d : Db) → nothing db ≡ ok (some p, d) → A
none_handed db p d h = cc

prepare_found-IsAuthorised :
    (env : Env) (reg : Registry) (t : Draws) (token : String) (o : Option Run) (db : Db)
    (p : Prepared) (d : Db)
    → prepare_found env reg t token o db ≡ ok (some p, d)
    → (r : Run) × (o ≡ some r)
      × (lease_holds token (t.clock 0) r ≡ true)
      × IsAuthorised env reg t r db p
unfolding prepare_found
prepare_found-IsAuthorised env reg t token none db p d h = cc
prepare_found-IsAuthorised env reg t token (some r) db p d h =
    elim (Bool-cases (lease_holds token (t.clock 0) r)) [
      | inl held ↦ (
        r,
        refl,
        held,
        untouched-IsAuthorised env reg t (t.clock 1) r db p (
            (prepare_row-IsAuthorised env reg t (touch (t.clock 1) r)
                (put_run (touch (t.clock 1) r) db)).at
              (some p, d) (or_block-hands env _ _ _ p d (rw held at h))),
      )
      | inr lost ↦ none_handed db p d (rw lost at h)
    ]

lease_holds-HoldsLease :
    (token : String) (now : ℕ) (r : Run) → lease_holds token now r ≡ true → HoldsLease token now r
lease_holds-HoldsLease token now r h =
    let (holder, same) = holder_of r.lease_token (ground arith) in
    let (end, ends, later) = end_of r.lease_until (ground arith) in
    record {
      is_running = status_of r.status (ground arith);
      under_token = same;
      until = end;
      lease_until = ends;
      not_over = later;
    }
  where
    status_of : (s : Status) → is_running s ≡ true → s ≡ running
    status_of s h = ground arith

    holder_of : (o : Option String) → token_is o token ≡ true → Unit {0} × (o ≡ some token)
    holder_of none h = cc
    holder_of (some x) h = (tt, ap some ((eq_iff x token).0 h))

    end_of : (o : Option ℕ) → lease_open o now ≡ true → (u : ℕ) × (o ≡ some u) × (now < u)
    end_of none h = cc
    end_of (some u) h = (u, refl, ground arith)

-- A step that `prepare` hands to the gateway belongs to the run that was asked for; the caller holds
-- its open lease (`HoldsLease`), and the step is authorised: see `IsAuthorised`, `IsAdmitted` and `IsCovered`.
pub prepare-IsAuthorised :
    (env : Env) (reg : Registry) (t : Draws) (i token : String) (db : Db) (p : Prepared) (d : Db)
    → prepare env reg t i token db ≡ (ok (some p), d)
    → (r : Run) × (find i db.runs ≡ some r)
      × (lease_holds token (t.clock 0) r ≡ true)
      × HoldsLease token (t.clock 0) r
      × IsAuthorised env reg t r db p
unfolding prepare
prepare-IsAuthorised env reg t i token db p d h =
    let (r, row, held, auth) =
      prepare_found-IsAuthorised env reg t token (find i db.runs) db p d
        (transaction-eq-ok db _ h) in
    (r, row, held, lease_holds-HoldsLease token (t.clock 0) r held, auth)
