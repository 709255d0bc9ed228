-- ===== src/Worker/Authority/Rows.antt =====
-- The tests that `prepare` of runtime.py makes on the way to a step, once the run is held.
use rednexus_ai.Base.Ensures.{
  Ensures-map, Ensures-or_crash, Ensures-if, Ensures-guard_last, Ensures-guard, Ensures-ok,
  Ensures-bind, Ensures,
}
use rednexus_ai.Base.{
  ◌&&◌, ◌∙◌, ap, eq_iff, eq_iff, ◌⊎◌, ℕ, ◌+◌, ◌≤◌, ◌<◌, ◌≡◌, refl, true, false, not, ◌||◌, Option,
  none, some, [], ◌∷◌, get_elem?, arith, leb, ltb, ◌==◌, inl, inr, Result, ok, index_error,
}
use rednexus_ai.Json.{Json, Fields, obj}
use rednexus_ai.Contracts.{CapabilitySpec}
use rednexus_ai.Env.{Env, Draws, digest, validate_payload}
use rednexus_ai.Identity.{
  require_role-eq-ok, require-eq-ok, Actor, actor_for, require_role, require,
}
use rednexus_ai.Registry
use rednexus_ai.Registry.{Registry, fingerprint}
use rednexus_ai.Store.{Run, Approval, PlanStep, Db, is_approved, approval_at, run_keyed}
use rednexus_ai.Worker.Prepare.{
  Prepared, append_text, action_of, reviewer_of, check_approval, start_step, approve_step, run_step,
  prepare_row,
}
use rednexus_ai.Workflows.Flow.{condition_matches, input_for}
use rednexus_ai.Worker.Authority.Facts.{IsCovered, IsPaid, IsAdmitted, IsAuthorised}

record IsStarted (r : Run) (c : CapabilitySpec) (payload : Fields) (p : Prepared) : Type 0 where
  paid : IsPaid r c p
  same : p.payload ≡ payload

-- Of a result that hands out a step, the step has the property.
abbrev pub OfStep : (Prepared → Type 0) → Option Prepared × Db → Type 0
OfStep P (none, d) = Unit
OfStep P (some p, d) = P p

OfStep-map :
    {P Q : Prepared → Type 0} (m : Result (Option Prepared × Db))
    → ((p : Prepared) → P p → Q p)
    → Ensures (OfStep P) m
    → Ensures (OfStep Q) m
OfStep-map {P} {Q} m f = Ensures-map m (of_step f)
  where
    of_step : ((p : Prepared) → P p → Q p) → (x : Option Prepared × Db) → OfStep P x → OfStep Q x
    of_step f (none, d) h = tt
    of_step f (some p, d) h = f p h

in_budget :
    (r : Run) (c : CapabilitySpec)
    → not (leb r.max_tool_calls r.tool_calls || ltb r.budget (r.cost + c.estimated_cost_microunits))
      ≡ true
    → (r.tool_calls < r.max_tool_calls) × (r.cost + c.estimated_cost_microunits ≤ r.budget)
in_budget r c h = ground arith

start_step-IsStarted :
    (env : Env) (now : ℕ) (r : Run) (c : CapabilitySpec) (payload : Fields) (db : Db)
    → Ensures (OfStep (IsStarted r c payload)) (start_step env now r c payload db)
unfolding start_step
start_step-IsStarted env now r c payload db = Ensures-guard _ 409 "mission_budget_exhausted" _ λ h.
    let fits = in_budget r c h in
    Ensures-ok _ (record {
      paid = record { spec = refl; calls_left = fits.0; budget_left = fits.1 };
      same = refl;
    })

approval_valid :
    (env : Env) (now : ℕ) (action : Json) (a : Approval)
    → is_approved a.status && a.action_digest == digest env action && not (ltb a.expires now) ≡ true
    → (is_approved a.status ≡ true) × (a.action_digest ≡ digest env action) × (now ≤ a.expires)
approval_valid env now action a h = ground (arith, eq_iff a.action_digest (digest env action))

reviewer_valid :
    (reviewer owner : Actor)
    → reviewer.kind == "human" && not (reviewer.id == owner.id) ≡ true
    → (reviewer.kind ≡ "human") × ((reviewer.id == owner.id) ≡ false)
reviewer_valid reviewer owner h = ground (arith, eq_iff reviewer.kind "human")

check_approval-IsCovered :
    (env : Env) (now : ℕ) (owner : Actor) (r : Run) (c : CapabilitySpec) (action : Json)
    (a : Approval) (db : Db)
    → approval_at r.id r.cursor db.approvals ≡ some a
    → Ensures
        (λ _. IsCovered env now db r c action owner)
        (check_approval env now owner r c action a db)
unfolding check_approval
check_approval-IsCovered env now owner r c action a db stored =
    Ensures-guard _ 409 "approval_invalid_or_expired" _ λ valid.
      Ensures-bind (reviewer_of db r.workspace a.reviewer) _ λ reviewer active.
        Ensures-bind (require_role reviewer ("admin" ∷ "reviewer" ∷ [])) _ λ u role.
          Ensures-bind (require reviewer (append_text "review:" c.name)) _ λ v grant.
            Ensures-guard_last _ 403 "reviewer_identity_invalid" λ who.
              let sound = approval_valid env now action a valid in
              let apart = reviewer_valid reviewer owner who in
              record {
                approval = a;
                stored = stored;
                granted = sound.0;
                same_action = sound.1;
                in_time = sound.2;
                reviewer = reviewer;
                active = active;
                role = require_role-eq-ok reviewer _ {u = u} role;
                grant = require-eq-ok reviewer _ {u = v} grant;
                human = apart.0;
                other = apart.1;
              }

approve_step-IsCovered :
    (env : Env) (t : Draws) (owner : Actor) (r : Run) (c : CapabilitySpec) (action : Json)
    (payload : Fields) (o : Option Approval) (db : Db)
    → approval_at r.id r.cursor db.approvals ≡ o
    → Ensures
        (OfStep (λ p. IsCovered env (t.clock 2) db r c action owner × IsStarted r c payload p))
        (approve_step env t owner r c action payload o db)
unfolding approve_step
approve_step-IsCovered env t owner r c action payload none db stored = Ensures-ok _ tt
approve_step-IsCovered env t owner r c action payload (some a) db stored =
    Ensures-bind (check_approval env (t.clock 2) owner r c action a db) _ λ u passed.
      OfStep-map _
        (λ p paid. (
          (check_approval-IsCovered env (t.clock 2) owner r c action a db stored).at u passed,
          paid,
        ))
        (start_step-IsStarted env (t.clock 3) r c payload db)

admitted :
    (env : Env) (t : Draws) (owner : Actor) (r : Run) (s : PlanStep) (c : CapabilitySpec) (db : Db)
    (payload : Fields) (p : Prepared)
    → input_for env s.step r.outputs ≡ ok payload
    → validate_payload env c.input_schema (obj payload) ≡ ok tt
    → IsStarted r c payload p
    → (c.approval ≡ false)
      ⊎ IsCovered env (t.clock 2) db r c (action_of r c s.fingerprint payload) owner
    → IsAdmitted env t owner r s c db p
admitted env t owner r s c db payload p input valid started cover = record {
  paid = started.paid;
  input = rw started.same input;
  valid = rw started.same valid;
  covered = rw started.same cover;
}

run_step-IsAdmitted :
    (env : Env) (t : Draws) (owner : Actor) (r : Run) (s : PlanStep) (c : CapabilitySpec) (db : Db)
    → Ensures (OfStep (IsAdmitted env t owner r s c db)) (run_step env t owner r s c db)
unfolding run_step
run_step-IsAdmitted env t owner r s c db =
    Ensures-bind (input_for env s.step r.outputs) _ λ payload input.
      Ensures-bind (validate_payload env c.input_schema (obj payload)) _ λ u valid.
        Ensures-if c.approval _ _
          (λ _.
            OfStep-map _ (λ p h. admitted env t owner r s c db payload p input valid h.1 (inr h.0))
              (approve_step-IsCovered env t owner r c (action_of r c s.fingerprint payload) payload
                (approval_at r.id r.cursor db.approvals) db refl))
          (λ exempt.
            OfStep-map _ (λ p h. admitted env t owner r s c db payload p input valid h (inl exempt))
              (start_step-IsStarted env (t.clock 3) r c payload db))

pub prepare_row-IsAuthorised :
    (env : Env) (reg : Registry) (t : Draws) (r : Run) (db : Db)
    → Ensures (OfStep (IsAuthorised env reg t r db)) (prepare_row env reg t r db)
unfolding prepare_row
prepare_row-IsAuthorised env reg t r db =
    Ensures-bind (actor_for db r.owner r.workspace) _ λ owner active.
      Ensures-bind (require_role owner ("admin" ∷ "operator" ∷ [])) _ λ u role.
        Ensures-or_crash index_error (get_elem? r.plan r.cursor) _ λ s found.
          Ensures-bind (require owner (append_text "tool:" s.step.capability)) _ λ v grant.
            Ensures-bind (Registry.get reg s.step.capability) _ λ c contract.
              Ensures-bind (fingerprint env reg c.name) _ λ print printed.
                Ensures-guard (print == s.fingerprint) 409 "capability_contract_changed" _ λ same.
                  Ensures-if r.cancel_requested _ _ (λ _. Ensures-ok _ tt)
                    λ wanted.
                      Ensures-bind (condition_matches env s.step.when r.outputs) _ λ matches cond.
                        Ensures-if matches _ _
                          (λ yes.
                            OfStep-map _
                              (λ p h. record {
                                step = s;
                                at_cursor = found;
                                owner = owner;
                                active = active;
                                role = require_role-eq-ok owner _ {u = u} role;
                                grant = require-eq-ok owner _ {u = v} grant;
                                contract = c;
                                registered = contract;
                                unchanged = printed ∙ ap ok ((eq_iff print s.fingerprint).0 same);
                                wanted = wanted;
                                condition = cond ∙ ap ok yes;
                                admitted = h;
                              })
                              (run_step-IsAdmitted env t owner r s c db))
                          (λ _. Ensures-ok _ tt)
