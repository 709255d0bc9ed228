-- ===== src/Lifecycle/Evolution/Workers/Preparing.antt =====
-- `prepare` touches the run that it holds and makes at most one transition of it.
use rednexus_ai.Lifecycle.Evolution.Transactions.{same-Evolves, transaction-Evolves}
use rednexus_ai.Lifecycle.Evolution.Defs.{Evolves, Evolves-trans, Evolves-put, find-put_self}
use rednexus_ai.Worker.{lease_holds}
use rednexus_ai.Base.{
  inr, inl, Bool-cases, ◌<◌, ◌≤◌, ℕ, ◌+◌, ◌≡◌, refl, String, Bool, true, false, Option, none, some,
  [], ◌∷◌, get_elem?, arith, ◌==◌, leb, ltb, not, ◌||◌, if◌then◌else◌, Result, Fault, ok, raised,
  crashed, index_error, guard, or_crash, ◌>>=◌, guard-eq-ok,
}
use rednexus_ai.Base.Table.{find_again, find, put}
use rednexus_ai.Json.{Json, Fields, obj}
use rednexus_ai.Contracts.{CapabilitySpec}
use rednexus_ai.Env.{Draws, Env, validate_payload}
use rednexus_ai.Identity.{Actor, actor_for, require_role, require}
use rednexus_ai.Registry
use rednexus_ai.Registry.{Registry, fingerprint}
use rednexus_ai.Store.{
  Run, Approval, PlanStep, Db, is_running, run_keyed, cancelled, put_run, emit, approval_at,
}
use rednexus_ai.Worker.Prepare.{
  or_block, block, touch, prepare_found, prepare, Prepared, release, append_text, skip, skip_step,
  request_approval, check_approval, charge, start_step, approve_step, run_step, prepare_row,
  action_of,
}
use rednexus_ai.Workflows.Flow.{condition_matches, input_for}
use rednexus_ai.Lifecycle.Transition.{
  touched, blocked, one, Transition, stopped, parked, skipped, charged,
}

-- A successful result has written one transition of the run.
record Wrote (human : Bool) (env : Env) (r : Run) (db : Db) (m : Result (Option Prepared × Db))
    : Type 0 where
  at :
      (p : Option Prepared) (d : Db)
      → m ≡ ok (p, d)
      → (u : Run) × Transition human env r u × (u.id ≡ r.id) × (d.runs ≡ put u db.runs)

module _ {human : Bool} {env : Env} {r : Run} {db : Db} where
  Wrote-ok :
      (p : Option Prepared) (d : Db) (u : Run)
      → Transition human env r u
      → u.id ≡ r.id
      → d.runs ≡ put u db.runs
      → Wrote human env r db (ok (p, d))
  Wrote-ok p d u t e h = record { at = λ q x k. (u, t, e, cc) }

  Wrote-if :
      (b : Bool) (m n : Result (Option Prepared × Db))
      → (b ≡ true → Wrote human env r db m)
      → (b ≡ false → Wrote human env r db n)
      → Wrote human env r db (if b then m else n)
  Wrote-if true m n h k = h refl
  Wrote-if false m n h k = k refl

  Wrote-bind {ℓ} :
      {A : Type ℓ} (m : Result A) (f : A → Result (Option Prepared × Db))
      → ((a : A) → m ≡ ok a → Wrote human env r db (f a))
      → Wrote human env r db (m >>= f)
  Wrote-bind (ok a) f h = h a refl
  Wrote-bind (raised p) f h = record { at = λ q x k. absurd (cc) }
  Wrote-bind (crashed x) f h = record { at = λ q y k. absurd (cc) }

or_crash-eq-ok {ℓ} :
    {A : Type ℓ} (x : Fault) (o : Option A) {a : A} → or_crash x o ≡ ok a → o ≡ some a
or_crash-eq-ok x none h = cc
or_crash-eq-ok x (some b) h = cc

runs-emit :
    (env : Env) (w k : String) (v : Json) (run : Option String) (db : Db)
    → (emit env w k v run db).runs ≡ db.runs
unfolding emit
runs-emit env w k v run db = refl

in_budget :
    (r : Run) (c : CapabilitySpec)
    → not (leb r.max_tool_calls r.tool_calls || ltb r.budget (r.cost + c.estimated_cost_microunits))
      ≡ true
    → (r.tool_calls < r.max_tool_calls) × (r.cost + c.estimated_cost_microunits ≤ r.budget)
in_budget r c h = ground arith

start_step-Wrote :
    (human : Bool) (env : Env) (now : ℕ) (r : Run) (c : CapabilitySpec) (payload : Fields) (db : Db)
    → is_running r.status ≡ true
    → Wrote human env r db (start_step env now r c payload db)
unfolding start_step emit put_run
start_step-Wrote human env now r c payload db live =
    Wrote-bind (guard _ 409 "mission_budget_exhausted") _ λ u h.
      let fits = in_budget r c (guard-eq-ok _ 409 "mission_budget_exhausted" {u = u} h) in
      Wrote-ok _ _ (charge c r) (charged c live fits.0 fits.1 refl) refl refl

approve_step-Wrote :
    (human : Bool) (env : Env) (t : Draws) (actor : Actor) (r : Run) (c : CapabilitySpec)
    (action : Json) (payload : Fields) (o : Option Approval) (db : Db)
    → is_running r.status ≡ true
    → Wrote human env r db (approve_step env t actor r c action payload o db)
unfolding approve_step request_approval emit put_run
approve_step-Wrote human env t actor r c action payload none db live =
    Wrote-ok _ _ (release r _) (parked live refl) refl refl
approve_step-Wrote human env t actor r c action payload (some a) db live =
    Wrote-bind (check_approval env (t.clock 2) actor r c action a db) _
      λ _ _. start_step-Wrote human env (t.clock 3) r c payload db live

run_step-Wrote :
    (human : Bool) (env : Env) (t : Draws) (actor : Actor) (r : Run) (s : PlanStep)
    (c : CapabilitySpec) (db : Db)
    → is_running r.status ≡ true
    → Wrote human env r db (run_step env t actor r s c db)
unfolding run_step
run_step-Wrote human env t actor r s c db live =
    Wrote-bind (input_for env s.step r.outputs) _ λ payload _.
      Wrote-bind (validate_payload env c.input_schema (obj payload)) _ λ _ _.
        Wrote-if c.approval _ _
          (λ _.
            approve_step-Wrote human env t actor r c (action_of r c s.fingerprint payload) payload
              (approval_at r.id r.cursor db.approvals) db live)
          (λ _. start_step-Wrote human env (t.clock 3) r c payload db live)

runs-skip_step : (env : Env) (r : Run) (db : Db) → (skip_step env r db).runs ≡ put (skip r) db.runs
unfolding skip_step emit put_run
runs-skip_step env r db = ground arith

prepare_row-Wrote :
    (human : Bool) (env : Env) (reg : Registry) (t : Draws) (r : Run) (db : Db)
    → is_running r.status ≡ true
    → Wrote human env r db (prepare_row env reg t r db)
unfolding prepare_row put_run
prepare_row-Wrote human env reg t r db live =
    Wrote-bind (actor_for db r.owner r.workspace) _ λ actor _.
      Wrote-bind (require_role actor ("admin" ∷ "operator" ∷ [])) _ λ _ _.
        Wrote-bind (or_crash index_error (get_elem? r.plan r.cursor)) _ λ s found.
          Wrote-bind (require actor (append_text "tool:" s.step.capability)) _ λ _ _.
            Wrote-bind (Registry.get reg s.step.capability) _ λ c _.
              Wrote-bind (fingerprint env reg c.name) _ λ print _.
                Wrote-bind (guard (print == s.fingerprint) 409 "capability_contract_changed") _
                  λ _ _.
                    Wrote-if r.cancel_requested _ _
                      (λ stop.
                        Wrote-ok _ _ (release r cancelled) (stopped live stop refl) refl refl)
                      (λ _. Wrote-bind (condition_matches env s.step.when r.outputs) _ λ matches _.
                        Wrote-if matches _ _ (λ _. run_step-Wrote human env t actor r s c db live)
                          (λ _.
                            Wrote-ok _ _ (skip r)
                              (skipped {s = s} live (or_crash-eq-ok index_error _ found) refl)
                              (unfold skip in refl) (runs-skip_step env r db)))

or_block-Wrote :
    (human : Bool) (env : Env) (r : Run) (db : Db) (m : Result (Option Prepared × Db))
    → is_running r.status ≡ true
    → Wrote human env r db m
    → Wrote human env r db (or_block env r db m)
unfolding or_block emit put_run
or_block-Wrote human env r db (ok x) live w = w
or_block-Wrote human env r db (crashed x) live w = record { at = λ p d e. absurd (cc) }
or_block-Wrote human env r db (raised p) live w =
    Wrote-ok _ _ (block p.message r) (blocked p.message live refl) refl refl

-- The touched run is in the table that the body starts from.
touched_row :
    (now : ℕ) (r : Run) (db : Db)
    → find r.id db.runs ≡ some r
    → find r.id (put_run (touch now r) db).runs ≡ some (touch now r)
unfolding put_run
touched_row now r db h = find-put_self (touch now r) db.runs {r = r} h

prepare_held-Evolves :
    (human : Bool) (env : Env) (reg : Registry) (t : Draws) (r : Run) (db : Db)
    (p : Option Prepared) (d : Db)
    → is_running r.status ≡ true
    → find r.id db.runs ≡ some r
    → let r' = touch (t.clock 1) r in
      let db' = put_run r' db in
      or_block env r' db' (prepare_row env reg t r' db') ≡ ok (p, d)
      → Evolves human env db.runs d.runs
unfolding put_run
prepare_held-Evolves human env reg t r db p d live row e =
    let r' = touch (t.clock 1) r in
    let db' = put_run r' db in
    let (u, step, same, wrote) =
      (or_block-Wrote human env r' db' (prepare_row env reg t r' db') live
          (prepare_row-Wrote human env reg t r' db' live)).at
        p d e in
    Evolves-trans human env
      (Evolves-put human env db.runs r r' row refl (one (touched (t.clock 1) live refl)))
      (rw wrote
        (Evolves-put human env db'.runs r' u (touched_row (t.clock 1) r db row) same (one step)))

prepare_found-Evolves :
    (human : Bool) (env : Env) (reg : Registry) (t : Draws) (i token : String) (o : Option Run)
    (db : Db) (p : Option Prepared) (d : Db)
    → find i db.runs ≡ o
    → prepare_found env reg t token o db ≡ ok (p, d)
    → Evolves human env db.runs d.runs
unfolding prepare_found
prepare_found-Evolves human env reg t i token none db p d row e = same-Evolves human env e
prepare_found-Evolves human env reg t i token (some r) db p d row e =
    elim (Bool-cases (lease_holds token (t.clock 0) r)) [
      | inl held ↦
          prepare_held-Evolves human env reg t r db p d (ground arith)
            (find_again i db.runs {r = r} row) (rw held at e)
      | inr lost ↦ same-Evolves human env (rw lost at e)
    ]

pub prepare-Evolves :
    (human : Bool) (env : Env) (reg : Registry) (t : Draws) (i token : String) (db : Db)
    → Evolves human env db.runs (prepare env reg t i token db).1.runs
unfolding prepare
prepare-Evolves human env reg t i token db =
    transaction-Evolves human env db (prepare_found env reg t token (find i db.runs) db)
      λ p d e. prepare_found-Evolves human env reg t i token (find i db.runs) db p d refl e
