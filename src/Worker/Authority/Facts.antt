-- ===== src/Worker/Authority/Facts.antt =====
-- What it means that a step handed out by `prepare` of runtime.py is authorised.
use rednexus_ai.Base.{
  ℕ, ◌<◌, some, String, ◌⊎◌, ℕ, ◌+◌, ◌≤◌, ◌<◌, ◌≡◌, true, false, some, [], ◌∷◌, get_elem?, elem,
  ◌==◌, ok,
}
use rednexus_ai.Json.{Json, obj}
use rednexus_ai.Contracts.{CapabilitySpec}
use rednexus_ai.Env.{Env, Draws, digest, validate_payload}
use rednexus_ai.Identity.{Actor, actor_for}
use rednexus_ai.Registry
use rednexus_ai.Registry.{Registry, fingerprint}
use rednexus_ai.Store.{running, Run, Approval, PlanStep, Db, is_approved, approval_at, run_keyed}
use rednexus_ai.Worker.Prepare.{Prepared, append_text, action_of, reviewer_of}
use rednexus_ai.Workflows.Flow.{condition_matches, input_for}

-- The approval covers this very action, in time, by an active human who may review the capability
-- and is not the owner.
pub record IsCovered (env : Env) (now : ℕ) (db : Db) (r : Run) (c : CapabilitySpec) (action : Json)
    (owner : Actor) : Type 0 where
  pub approval : Approval
  pub stored : approval_at r.id r.cursor db.approvals ≡ some approval
  pub granted : is_approved approval.status ≡ true
  pub same_action : approval.action_digest ≡ digest env action
  pub in_time : now ≤ approval.expires
  pub reviewer : Actor
  pub active : reviewer_of db r.workspace approval.reviewer ≡ ok reviewer
  pub role : elem reviewer.role ("admin" ∷ "reviewer" ∷ []) ≡ true
  pub grant : elem (append_text "review:" c.name) reviewer.grants ≡ true
  pub human : reviewer.kind ≡ "human"
  pub other : (reviewer.id == owner.id) ≡ false

-- The step is run under the contract, and the run's limits leave room for it.
pub record IsPaid (r : Run) (c : CapabilitySpec) (p : Prepared) : Type 0 where
  pub spec : p.spec ≡ c
  pub calls_left : r.tool_calls < r.max_tool_calls
  pub budget_left : r.cost + c.estimated_cost_microunits ≤ r.budget

-- The step's input is the one its plan asks for, the contract accepts it, and an approval covers
-- it if the contract wants one.
pub record IsAdmitted (env : Env) (t : Draws) (owner : Actor) (r : Run) (s : PlanStep)
    (c : CapabilitySpec) (db : Db) (p : Prepared) : Type 0 where
  pub paid : IsPaid r c p
  pub input : input_for env s.step r.outputs ≡ ok p.payload
  pub valid : validate_payload env c.input_schema (obj p.payload) ≡ ok tt
  pub covered :
      (c.approval ≡ false)
      ⊎ IsCovered env (t.clock 2) db r c (action_of r c s.fingerprint p.payload) owner

-- The run is running, under this token, and the lease ends after now.
pub record HoldsLease (token : String) (now : ℕ) (r : Run) : Type 0 where
  pub is_running : r.status ≡ running
  pub under_token : r.lease_token ≡ some token
  pub until : ℕ
  pub lease_until : r.lease_until ≡ some until
  pub not_over : now < until

-- The run is leased to the caller and not cancelled, its owner has the role and the grant now, the
-- capability's contract is the one that the plan was made with, and the step is admitted.
pub record IsAuthorised (env : Env) (reg : Registry) (t : Draws) (r : Run) (db : Db) (p : Prepared)
    : Type 0 where
  pub step : PlanStep
  pub at_cursor : get_elem? r.plan r.cursor ≡ some step
  pub owner : Actor
  pub active : actor_for db r.owner r.workspace ≡ ok owner
  pub role : elem owner.role ("admin" ∷ "operator" ∷ []) ≡ true
  pub grant : elem (append_text "tool:" step.step.capability) owner.grants ≡ true
  pub contract : CapabilitySpec
  pub registered : Registry.get reg step.step.capability ≡ ok contract
  pub unchanged : fingerprint env reg contract.name ≡ ok step.fingerprint
  pub wanted : r.cancel_requested ≡ false
  pub condition : condition_matches env step.step.when r.outputs ≡ ok true
  pub admitted : IsAdmitted env t owner r step contract db p
