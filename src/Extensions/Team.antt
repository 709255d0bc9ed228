-- ===== src/Extensions/Team.antt =====
-- What a mission group that was accepted has been checked for, and its idempotency.
use rednexus_ai.Contracts.{StepInput}
use rednexus_ai.Base.{
  elem, Option, ok-inj, Bool-cases, inl, inr, raise, >>=-eq-ok, refl, ℕ, suc, ◌≡◌, String, true,
  ◌&&◌, none, some, List, [], ◌∷◌, ◌++◌, ◌==◌, leb, Result, ok, raised, crashed, arith, All,
  eq_refl, >>=-eq-ok,
}
use Prim.Native.String
use mathlib.Core.Path.{subst}
use rednexus_ai.Base.Ensures.{Ensures, Ensures-ok, Ensures-bind, Ensures-guard, Ensures-guard_last}
use rednexus_ai.Base.Table.{find}
use rednexus_ai.Env.{Env, Draws, digest}
use rednexus_ai.Identity.{Actor, require_role}
use rednexus_ai.Registry.{Registry}
use rednexus_ai.Store.{Db}
use rednexus_ai.Platform.Agents.{Agent, agent_keyed, get_agent, get_agent-own}
use rednexus_ai.Platform.Submit.{submit_in}
use rednexus_ai.Extensions.Groups.{
  Assignment, GroupInput, GroupRun, MissionGroup, Desk, total_budget, dump_group, group_under,
  in_scope, assignment_key, submit_assignment, submit_assignments, new_group, add_group,
  admit_group, check_group, submit_group_in, at_desk, submit_group,
}

-- The assignment is for an agent of the actor, and within its budget and its capabilities.
abbrev pub IsScoped : Actor → List Agent → Assignment → Type 0
IsScoped actor agents a =
    (x : Agent) × (find a.agent_id agents ≡ some x)
    × ((x.workspace == actor.workspace) ≡ true)
    × ((x.owner == actor.id) ≡ true)
    × (leb a.workflow.budget_microunits x.definition.budget_microunits ≡ true)
    × (in_scope x.definition.capabilities a.workflow.steps ≡ true)
    × All (λ (s : StepInput). elem s.capability x.definition.capabilities ≡ true) a.workflow.steps

in_scope-All :
    (names : List String) (ss : List StepInput)
    → in_scope names ss ≡ true
    → All (λ (s : StepInput). elem s.capability names ≡ true) ss
unfolding in_scope
in_scope-All names [] h = tt
in_scope-All names (s ∷ ss) h = (ground (arith, h), in_scope-All names ss (ground (arith, h)))

submit_assignment-IsScoped :
    (env : Env) (reg : Registry) (t : Draws) (actor : Actor) (k : String) (i : ℕ)
    (agents : List Agent) (a : Assignment) (db : Db)
    → Ensures (λ _. IsScoped actor agents a) (submit_assignment env reg t actor k i agents a db)
unfolding submit_assignment
submit_assignment-IsScoped env reg t actor k i agents a db =
    Ensures-bind (get_agent actor a.agent_id agents) _ λ x got.
      let (there, here, own) = get_agent-own actor a.agent_id agents x got in
      Ensures-guard (leb a.workflow.budget_microunits x.definition.budget_microunits) 422 _ _
        λ cheap.
          Ensures-guard (in_scope x.definition.capabilities a.workflow.steps) 403 _ _ λ scoped.
            Ensures-bind (submit_in env reg t actor a.workflow (assignment_key k i) db) _ λ r _.
              Ensures-ok _ (
                x,
                there,
                here,
                own,
                cheap,
                scoped,
                in_scope-All x.definition.capabilities a.workflow.steps scoped,
              )

submit_assignments-IsScoped :
    (env : Env) (reg : Registry) (t : ℕ → Draws) (actor : Actor) (k : String) (i : ℕ)
    (agents : List Agent) (xs : List Assignment) (db : Db)
    → Ensures
        (λ _. All (IsScoped actor agents) xs)
        (submit_assignments env reg t actor k i agents xs db)
unfolding submit_assignments
submit_assignments-IsScoped env reg t actor k i agents [] db = Ensures-ok _ tt
submit_assignments-IsScoped env reg t actor k i agents (a ∷ rest) db =
    Ensures-bind (submit_assignment env reg (t i) actor k i agents a db) _ λ r first.
      Ensures-bind (submit_assignments env reg t actor k (suc i) agents rest r.1) _ λ rs others.
        Ensures-ok _ (
          (submit_assignment-IsScoped env reg (t i) actor k i agents a db).at r first,
          (submit_assignments-IsScoped env reg t actor k (suc i) agents rest r.1).at rs others,
        )

check_group-budget :
    (actor : Actor) (d : GroupInput) (k : String)
    → Ensures
        (λ _. leb (total_budget d.assignments) d.budget_microunits ≡ true)
        (check_group actor d k)
unfolding check_group
check_group-budget actor d k =
    Ensures-bind (require_role actor ("admin" ∷ "operator" ∷ [])) _ λ _ _.
      Ensures-guard (leb 1 (String.count k) && leb (String.count k) 160) 422 _ _
        λ _. Ensures-guard_last (leb (total_budget d.assignments) d.budget_microunits) 422 _ λ h. h

at_desk-eq-ok :
    (desk : Desk) (m : Result (MissionGroup × Desk)) {g : MissionGroup} {next : Desk}
    → at_desk desk m ≡ (ok g, next)
    → m ≡ ok (g, next)
at_desk-eq-ok desk (ok (b, x)) h = cc
at_desk-eq-ok desk (raised p) h = cc
at_desk-eq-ok desk (crashed x) h = cc

-- A mission group that is accepted under a new key keeps to its budget, and each of its workflows is
-- for an agent of the actor, within that agent's budget and capabilities.
pub submit_group-IsScoped :
    (env : Env) (reg : Registry) (own : Draws) (t : ℕ → Draws) (actor : Actor) (d : GroupInput)
    (k : String) (desk desk' : Desk) (g : MissionGroup)
    → group_under actor.workspace actor.id k desk.groups ≡ none
    → submit_group env reg own t actor d k desk ≡ (ok g, desk')
    → (leb (total_budget d.assignments) d.budget_microunits ≡ true)
      × All (IsScoped actor desk.agents) d.assignments
unfolding submit_group submit_group_in admit_group
submit_group-IsScoped env reg own t actor d k desk desk' g new h =
    let (u, checked, rest) = >>=-eq-ok (check_group actor d k) _ (at_desk-eq-ok desk _ h) in
    let added = subst (λ o. admit_group env reg own t actor d k o desk ≡ ok (g, desk')) new rest in
    let (rs, assigned, _) =
      >>=-eq-ok (submit_assignments env reg t actor k 0 desk.agents d.assignments desk.db) _
        added in
    (
      (check_group-budget actor d k).at u checked,
      (submit_assignments-IsScoped env reg t actor k 0 desk.agents d.assignments desk.db).at rs
          assigned,
    )

group_under-append :
    (w owner k : String) (gs : List MissionGroup) (g : MissionGroup)
    → group_under w owner k gs ≡ none
    → (g.workspace == w && g.owner == owner && g.request_key == k) ≡ true
    → group_under w owner k (gs ++ g ∷ []) ≡ some g
unfolding group_under
group_under-append w owner k [] g e h = ground (arith, h)
group_under-append w owner k (x ∷ gs) g e h =
    ground (arith, e, h, group_under-append w owner k gs g)

-- What a group that is stored under the key of a request answers.
Answers : Env → Actor → GroupInput → String → MissionGroup → Desk → Type 0
Answers env actor d k g desk =
    (group_under actor.workspace actor.id k desk.groups ≡ some g)
    × ((g.request_digest == digest env (dump_group d)) ≡ true)
    × (check_group actor d k ≡ ok tt)

add_group-under :
    (env : Env) (own : Draws) (actor : Actor) (d : GroupInput) (k : String) (runs : List GroupRun)
    (db : Db) (desk : Desk)
    → group_under actor.workspace actor.id k desk.groups ≡ none
    → (group_under actor.workspace actor.id k (add_group env own actor d k runs db desk).1.groups
        ≡ some (add_group env own actor d k runs db desk).0)
      × (((add_group env own actor d k runs db desk).0.request_digest == digest env (dump_group d))
          ≡ true)
unfolding add_group new_group
add_group-under env own actor d k runs db desk new = (
  group_under-append actor.workspace actor.id k desk.groups _ new
      (rw (eq_refl actor.workspace) (rw (eq_refl actor.id) (eq_refl k))),
  eq_refl (digest env (dump_group d)),
)

admit_group-Answers :
    (env : Env) (reg : Registry) (own : Draws) (t : ℕ → Draws) (actor : Actor) (d : GroupInput)
    (k : String) (o : Option MissionGroup) (desk desk' : Desk) (g : MissionGroup)
    → check_group actor d k ≡ ok tt
    → group_under actor.workspace actor.id k desk.groups ≡ o
    → admit_group env reg own t actor d k o desk ≡ ok (g, desk')
    → Answers env actor d k g desk'
unfolding admit_group Answers
admit_group-Answers env reg own t actor d k (some old) desk desk' g checked e h =
    elim (Bool-cases (old.request_digest == digest env (dump_group d))) [
      | inl same ↦
          let kept : ok (old, desk) ≡ ok (g, desk') = rw same at h in
          subst
            (λ x.
              (group_under actor.workspace actor.id k x.1.groups ≡ some x.0)
              × ((x.0.request_digest == digest env (dump_group d)) ≡ true)
              × (check_group actor d k ≡ ok tt))
            (ok-inj kept) (e, same, checked)
      | inr other ↦ absurd (refused (rw other at h))
    ]
  where
    refused :
        raise {A = MissionGroup × Desk} 409 "group idempotency key conflict" ≡ ok (g, desk') → ⊥
    refused e = cc
admit_group-Answers env reg own t actor d k none desk desk' g checked e h =
    let (rs, _, added) =
      >>=-eq-ok (submit_assignments env reg t actor k 0 desk.agents d.assignments desk.db) _ h in
    let (there, same) = add_group-under env own actor d k rs.0 rs.1 desk e in
    subst
      (λ x.
        (group_under actor.workspace actor.id k x.1.groups ≡ some x.0)
        × ((x.0.request_digest == digest env (dump_group d)) ≡ true)
        × (check_group actor d k ≡ ok tt))
      (ok-inj added) (there, same, checked)

-- A mission group that was accepted is answered again, by the same group and with no change, for the
-- same request under its key, whatever the registry is then.
pub submit_group_again :
    (env : Env) (reg reg' : Registry) (own own' : Draws) (t t' : ℕ → Draws) (actor : Actor)
    (d : GroupInput) (k : String) (desk desk' : Desk) (g : MissionGroup)
    → submit_group env reg own t actor d k desk ≡ (ok g, desk')
    → submit_group env reg' own' t' actor d k desk' ≡ (ok g, desk')
unfolding submit_group submit_group_in admit_group Answers
submit_group_again env reg reg' own own' t t' actor d k desk desk' g h =
    let (_, checked, rest) = >>=-eq-ok (check_group actor d k) _ (at_desk-eq-ok desk _ h) in
    let (there, same, _) =
      admit_group-Answers env reg own t actor d k _ desk desk' g checked refl rest in
    rw checked (rw there (rw same refl))
