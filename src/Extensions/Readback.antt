-- ===== src/Extensions/Readback.antt =====
-- A workflow survives being admitted as a run and read back from it.
use Prim.Native.String
use rednexus_ai.Base.{
  leb, ◌==◌, not, ◌&&◌, suc, ℕ, ◌≡◌, refl, ap, ◌∙◌, String, true, not, ◌&&◌, none, List, [], ◌∷◌,
  ok, guard, >>=-eq-ok,
}
use rednexus_ai.Base.Ensures.{Ensures, Ensures-ok, Ensures-bind, Ensures-guard}
use rednexus_ai.Contracts.{StepInput, RunInput}
use rednexus_ai.Contracts.Accept.{accept_run}
use rednexus_ai.Env.{Env, Draws}
use rednexus_ai.Identity.{Actor, require_role, require}
use rednexus_ai.Registry
use rednexus_ai.Registry.{Registry, fingerprint}
use rednexus_ai.Store.{Db, Run, PlanStep, run_keyed}
use rednexus_ai.Workflows.Flow.{validate_static}
use rednexus_ai.Platform.Submit.{snapshot, snapshot_from, snapshot_step, submit, new_run, admit_new}
use rednexus_ai.Contracts.Accept.{validated}
use rednexus_ai.Base.{suc, eqb, none}
use mathlib.Core.Path.{subst}
use rednexus_ai.Store.{transaction-eq-ok}
use rednexus_ai.Base.{ltb, count}
use rednexus_ai.Platform.Submit.{is_active_in}
use rednexus_ai.Platform.Submit.{bound_elsewhere, run_under, admit, submit_in}
use rednexus_ai.Extensions.Reruns.{steps_of, workflow_of, workflow_from_run}

-- What is read back from a plan.
snapshot_step-step :
    (env : Env) (reg : Registry) (actor : Actor) (i : ℕ) (s : StepInput)
    → Ensures (λ (p : PlanStep). p.step ≡ s) (snapshot_step env reg actor i s)
unfolding snapshot_step
snapshot_step-step env reg actor i s = Ensures-bind (Registry.get reg s.capability) _ λ c _.
    Ensures-guard (not (bound_elsewhere c.workspace_binding actor.workspace)) 403 _ _ λ _.
      Ensures-bind (require actor (String.◌++◌ "tool:" c.name)) _ λ _ _.
        Ensures-guard (not (s.use_previous && eqb i 0)) 422 _ _ λ _.
          Ensures-bind (validate_static env c.input_schema s) _ λ _ _.
            Ensures-bind (fingerprint env reg c.name) _ λ print _.
              let p : PlanStep = record { step = s; contract = c; fingerprint = print } in
              Ensures-ok p refl

snapshot_from-steps :
    (env : Env) (reg : Registry) (actor : Actor) (i : ℕ) (ss : List StepInput)
    → Ensures (λ plan. steps_of plan ≡ ss) (snapshot_from env reg actor i ss)
unfolding snapshot_from
snapshot_from-steps env reg actor i [] = Ensures-ok [] refl
snapshot_from-steps env reg actor i (s ∷ ss) =
    Ensures-bind (snapshot_step env reg actor i s) _ λ p first.
      Ensures-bind (snapshot_from env reg actor (suc i) ss) _ λ ps rest. Ensures-ok (p ∷ ps) (
        ap (λ x. x ∷ steps_of ps) ((snapshot_step-step env reg actor i s).at p first)
        ∙ ap (λ xs. s ∷ xs) ((snapshot_from-steps env reg actor (suc i) ss).at ps rest))

snapshot-steps :
    (env : Env) (reg : Registry) (actor : Actor) (w : RunInput)
    → Ensures (λ plan. steps_of plan ≡ w.steps) (snapshot env reg actor w)
unfolding snapshot
snapshot-steps env reg actor w =
    Ensures-bind (require_role actor ("admin" ∷ "operator" ∷ [])) _
      λ _ _. snapshot_from-steps env reg actor 0 w.steps

abbrev pub hour : RunInput → RunInput
hour w = record w { deadline_seconds = 3600 }

workflow_of-new_run :
    (env : Env) (t : Draws) (actor : Actor) (w : RunInput) (k : String) (plan : List PlanStep)
    → steps_of plan ≡ w.steps
    → workflow_of (new_run env t actor w k plan) ≡ hour w
unfolding new_run
workflow_of-new_run env t actor w k plan e = ap (λ ss. record (hour w) { steps = ss }) e

admit-workflow_of :
    (env : Env) (reg : Registry) (t : Draws) (actor : Actor) (w : RunInput) (k : String) (db : Db)
    → Ensures (λ x. workflow_of x.0 ≡ hour w) (admit env reg t actor w k none db)
unfolding admit admit_new
admit-workflow_of env reg t actor w k db =
    Ensures-guard (ltb (count (is_active_in actor.workspace) db.runs) 100) 429 _ _ λ _.
      Ensures-bind (snapshot env reg actor w) _ λ plan made.
        Ensures-ok (admit_new env t actor w k plan db)
          (workflow_of-new_run env t actor w k plan ((snapshot-steps env reg actor w).at plan made))

pub submit-workflow_from_run :
    (env : Env) (reg : Registry) (t : Draws) (actor : Actor) (w : RunInput) (k : String)
    (db db' : Db) (r : Run)
    → run_under actor.workspace actor.id k db.runs ≡ none
    → accept_run env (hour w) ≡ true
    → submit env reg t actor w k db ≡ (ok r, db')
    → workflow_from_run env r ≡ ok (hour w)
unfolding submit submit_in workflow_from_run validated
submit-workflow_from_run env reg t actor w k db db' r new fits h =
    let (_, _, rest) =
      >>=-eq-ok
        (guard (not (k == "") && leb (String.count k) 200) 422
          "Idempotency-Key must contain 1..200 characters")
        _ (transaction-eq-ok db _ h) in
    let admitted = subst (λ o. admit env reg t actor w k o db ≡ ok (r, db')) new rest in
    let same = (admit-workflow_of env reg t actor w k db).at (r, db') admitted in
    rw same (rw fits refl)
