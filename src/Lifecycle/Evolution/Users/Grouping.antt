-- ===== src/Lifecycle/Evolution/Users/Grouping.antt =====
-- The submissions of a mission group, in one transaction.
use rednexus_ai.Lifecycle.Evolution.Transactions.{same-Evolves, runs-eq}
use rednexus_ai.Lifecycle.Evolution.Defs.{Evolves, Evolves-refl, Evolves-trans}
use rednexus_ai.Extensions.Groups.{
  Assignment, GroupInput, GroupRun, MissionGroup, Desk, submit_assignment, submit_assignments,
  in_scope, assignment_key, admit_group, add_group, group_under, dump_group, check_group,
  submit_group_in, submit_group, at_desk,
}
use rednexus_ai.Platform.Submit.{submit_in}
use rednexus_ai.Platform.Agents.{Agent, get_agent}
use rednexus_ai.Store.{Db, emit}
use rednexus_ai.Registry.{Registry}
use rednexus_ai.Identity.{Actor}
use rednexus_ai.Env.{Env, Draws, digest}
use rednexus_ai.Contracts.Accept.{accept_run}
use rednexus_ai.Base.{
  Bool, ℕ, suc, ◌≡◌, refl, String, true, Option, none, some, List, [], ◌∷◌, ◌==◌, Bool-cases, inl,
  inr, Result, ok, raised, crashed, raise, guard, leb, >>=-eq-ok, All,
}
use mathlib.Core.Path.{subst}
use native.Mathlib.Omega.{arith}
use rednexus_ai.Lifecycle.Evolution.Users.Submitting.{
  Admits, submit_in-Admits, IsFresh, accept_run-pos,
}
use rednexus_ai.Lifecycle.Evolution.Users.Batches.{AreFresh, AreFresh-suc}

-- The validators accept every workflow of the group, as they do before the handler runs.
abbrev pub AreAccepted : Env → List Assignment → Type 0
AreAccepted env rows = All (λ (x : Assignment). accept_run env x.workflow ≡ true) rows

submit_assignment-Admits :
    (human : Bool) (env : Env) (reg : Registry) (t : Draws) (a : Actor) (k : String) (i : ℕ)
    (agents : List Agent) (x : Assignment) (db : Db) (g : GroupRun) (d : Db)
    → accept_run env x.workflow ≡ true
    → IsFresh t db
    → submit_assignment env reg t a k i agents x db ≡ ok (g, d)
    → Admits human env (t.uid 0) db.runs d.runs
unfolding submit_assignment
submit_assignment-Admits human env reg t a k i agents x db g d accepted fresh h =
    let (agent, _, h₁) = >>=-eq-ok (get_agent a x.agent_id agents) _ h in
    let (_, _, h₂) =
      >>=-eq-ok
        (guard (leb x.workflow.budget_microunits agent.definition.budget_microunits) 422
          "assignment exceeds agent budget")
        _ h₁ in
    let (_, _, h₃) =
      >>=-eq-ok
        (guard (in_scope agent.definition.capabilities x.workflow.steps) 403
          "assignment exceeds agent capability scope")
        _ h₂ in
    let (r, done, last) =
      >>=-eq-ok (submit_in env reg t a x.workflow (assignment_key k i) db) _ h₃ in
    subst (λ us. Admits human env (t.uid 0) db.runs us) (runs-eq last)
      (submit_in-Admits human env reg t a x.workflow (assignment_key k i) db r.0 r.1
        (accept_run-pos env x.workflow accepted) fresh done)

submit_assignments-Evolves :
    (human : Bool) (env : Env) (reg : Registry) (t : ℕ → Draws) (a : Actor) (k : String) (i : ℕ)
    (agents : List Agent) (rows : List Assignment) (db : Db) (gs : List GroupRun) (d : Db)
    → AreAccepted env rows
    → AreFresh t i db
    → submit_assignments env reg t a k i agents rows db ≡ ok (gs, d)
    → Evolves human env db.runs d.runs
unfolding submit_assignments
submit_assignments-Evolves human env reg t a k i agents [] db gs d accepted fresh h =
    same-Evolves human env h
submit_assignments-Evolves human env reg t a k i agents (x ∷ rows) db gs d (good, rest) fresh h =
    let (first, done, h₁) = >>=-eq-ok (submit_assignment env reg (t i) a k i agents x db) _ h in
    let (others, more, last) =
      >>=-eq-ok (submit_assignments env reg t a k (suc i) agents rows first.1) _ h₁ in
    let one =
      submit_assignment-Admits human env reg (t i) a k i agents x db first.0 first.1 good
        (fresh.unused i (omega arith)) done in
    subst (λ us. Evolves human env db.runs us) (runs-eq last)
      (Evolves-trans human env one.evolves (
        submit_assignments-Evolves human env reg t a k (suc i) agents rows first.1 others.0 others.1
          rest (AreFresh-suc human env t i db first.1 fresh one) more))

desk_runs :
    {g h : MissionGroup} {c d : Desk}
    → ◌≡◌ {A = Result (MissionGroup × Desk)} (ok (g, c)) (ok (h, d))
    → c.db.runs ≡ d.db.runs
desk_runs e = cc

admit_group-Evolves :
    (human : Bool) (env : Env) (reg : Registry) (own : Draws) (t : ℕ → Draws) (a : Actor)
    (d : GroupInput) (k : String) (o : Option MissionGroup) (desk : Desk) (g : MissionGroup)
    (desk' : Desk)
    → AreAccepted env d.assignments
    → AreFresh t 0 desk.db
    → admit_group env reg own t a d k o desk ≡ ok (g, desk')
    → Evolves human env desk.db.runs desk'.db.runs
unfolding admit_group add_group emit
admit_group-Evolves human env reg own t a d k (some old) desk g desk' accepted fresh h =
    elim (Bool-cases (old.request_digest == digest env (dump_group d))) [
      | inl same ↦
          subst (λ us. Evolves human env desk.db.runs us) (desk_runs (rw same at h))
            (Evolves-refl human env desk.db.runs)
      | inr differs ↦ absurd (refused (rw differs at h))
    ]
  where
    refused :
        {n : ℕ} {m : String}
        → ◌≡◌ {A = Result (MissionGroup × Desk)} (raise n m) (ok (g, desk'))
        → ⊥
    refused h = cc
admit_group-Evolves human env reg own t a d k none desk g desk' accepted fresh h =
    let (rs, done, last) =
      >>=-eq-ok (submit_assignments env reg t a k 0 desk.agents d.assignments desk.db) _ h in
    subst (λ us. Evolves human env desk.db.runs us) (desk_runs last)
      (submit_assignments-Evolves human env reg t a k 0 desk.agents d.assignments desk.db rs.0 rs.1
        accepted fresh done)

at_desk-Evolves :
    (human : Bool) (env : Env) (desk : Desk) (m : Result (MissionGroup × Desk))
    → ((g : MissionGroup) (desk' : Desk)
        → m ≡ ok (g, desk')
        → Evolves human env desk.db.runs desk'.db.runs)
    → Evolves human env desk.db.runs (at_desk desk m).1.db.runs
at_desk-Evolves human env desk (ok (g, desk')) h = h g desk' refl
at_desk-Evolves human env desk (raised p) h = Evolves-refl human env desk.db.runs
at_desk-Evolves human env desk (crashed x) h = Evolves-refl human env desk.db.runs

-- A mission group whose workflows are accepted, where the identifiers for its runs are not in use.
pub submit_group-Evolves :
    (human : Bool) (env : Env) (reg : Registry) (own : Draws) (t : ℕ → Draws) (a : Actor)
    (d : GroupInput) (k : String) (desk : Desk)
    → AreAccepted env d.assignments
    → AreFresh t 0 desk.db
    → Evolves human env desk.db.runs (submit_group env reg own t a d k desk).1.db.runs
unfolding submit_group submit_group_in
submit_group-Evolves human env reg own t a d k desk accepted fresh =
    at_desk-Evolves human env desk (submit_group_in env reg own t a d k desk) λ g desk' h.
      let (_, _, last) = >>=-eq-ok (check_group a d k) _ h in
      admit_group-Evolves human env reg own t a d k (group_under a.workspace a.id k desk.groups)
        desk g desk' accepted fresh last
