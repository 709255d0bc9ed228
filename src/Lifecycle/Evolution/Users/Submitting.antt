-- ===== src/Lifecycle/Evolution/Users/Submitting.antt =====
-- `submit` adds a well-formed run, or changes nothing.
use mathlib.Core.Path.{subst}
use Prim.Native.String
use rednexus_ai.Base.{
  false, refl, ◌++◌, Bool, ℕ, suc, ◌<◌, ◌≡◌, String, true, not, ◌&&◌, Option, none, some, List, [],
  ◌∷◌, arith, length, count, ltb, leb, ◌==◌, Bool-cases, inl, inr, Result, ok, guard, raise,
  >>=-eq-ok,
}
use rednexus_ai.Base.Table.{find-append, find}
use rednexus_ai.Contracts.{StepInput, RunInput}
use rednexus_ai.Contracts.Accept.{accept_run}
use rednexus_ai.Contracts.Dump.{dump_run}
use rednexus_ai.Env.{Draws, Env, digest}
use rednexus_ai.Identity.{Actor, require_role}
use rednexus_ai.Registry.{Registry}
use rednexus_ai.Store.{Run, PlanStep, Db, run_keyed, emit}
use rednexus_ai.Platform.Submit.{
  admit_new, snapshot_step, snapshot_from, snapshot, run_under, is_active_in, new_run, admit,
  submit_in, submit,
}
use rednexus_ai.Lifecycle.WellFormed.{IsWellFormed}
use rednexus_ai.Lifecycle.Evolution.Defs.{Evolves-refl, Evolves, Evolves-append}
use rednexus_ai.Lifecycle.Evolution.Transactions.{transaction-Evolves, runs-eq}

-- A snapshot has one entry for each step.
pub snapshot_from-length :
    (env : Env) (reg : Registry) (a : Actor) (i : ℕ) (ss : List StepInput) (ps : List PlanStep)
    → snapshot_from env reg a i ss ≡ ok ps
    → length ps ≡ length ss
unfolding snapshot_from
snapshot_from-length env reg a i [] ps e = ground arith
snapshot_from-length env reg a i (s ∷ ss) ps e =
    let (p, _, e₁) = >>=-eq-ok (snapshot_step env reg a i s) _ e in
    let (qs, rest, last) = >>=-eq-ok (snapshot_from env reg a (suc i) ss) _ e₁ in
    ground (arith, snapshot_from-length env reg a (suc i) ss qs rest)

snapshot-length :
    (env : Env) (reg : Registry) (a : Actor) (w : RunInput) (ps : List PlanStep)
    → snapshot env reg a w ≡ ok ps
    → length ps ≡ length w.steps
unfolding snapshot
snapshot-length env reg a w ps e =
    let (_, _, last) = >>=-eq-ok (require_role a ("admin" ∷ "operator" ∷ [])) _ e in
    snapshot_from-length env reg a 0 w.steps ps last

pub accept_run-pos : (env : Env) (w : RunInput) → accept_run env w ≡ true → 0 < length w.steps
unfolding accept_run
accept_run-pos env w h = ground arith

new_run-IsWellFormed :
    (env : Env) (t : Draws) (a : Actor) (w : RunInput) (k : String) (plan : List PlanStep)
    → 0 < length plan
    → IsWellFormed (new_run env t a w k plan)
unfolding new_run
new_run-IsWellFormed env t a w k plan h = ground arith

-- What is asked of the identifier that is drawn: no run has it.
abbrev pub IsFresh : Draws → Db → Type 0
IsFresh t db = find (t.uid 0) db.runs ≡ none

-- What an admission under an identifier does to the runs: they change by transitions, and another
-- identifier that was not in use is still not.
pub record Admits (human : Bool) (env : Env) (i : String) (rs us : List Run) : Type 0 where
  pub evolves : Evolves human env rs us
  pub unused : (x : String) → (i == x) ≡ false → find x rs ≡ none → find x us ≡ none

Admits-refl : (human : Bool) (env : Env) (i : String) (rs : List Run) → Admits human env i rs rs
Admits-refl human env i rs = record { evolves = Evolves-refl human env rs; unused = λ x h e. e }

Admits-append :
    (human : Bool) (env : Env) (rs : List Run) (u : Run)
    → find u.id rs ≡ none
    → IsWellFormed u
    → Admits human env u.id rs (rs ++ u ∷ [])
Admits-append human env rs u fresh w = record {
  evolves = Evolves-append human env rs u fresh w;
  unused = λ x other none_there. rw (find-append x u rs) (rw none_there (rw other refl));
}

admit-Admits :
    (human : Bool) (env : Env) (reg : Registry) (t : Draws) (a : Actor) (w : RunInput) (k : String)
    (o : Option Run) (db : Db) (r : Run) (d : Db)
    → 0 < length w.steps
    → IsFresh t db
    → admit env reg t a w k o db ≡ ok (r, d)
    → Admits human env (t.uid 0) db.runs d.runs
unfolding admit admit_new emit
admit-Admits human env reg t a w k (some old) db r d steps fresh e =
    elim (Bool-cases (old.request_digest == digest env (dump_run w))) [
      | inl same ↦
          subst (λ xs. Admits human env (t.uid 0) db.runs xs) (runs-eq (rw same at e))
            (Admits-refl human env (t.uid 0) db.runs)
      | inr differs ↦ absurd (refused (rw differs at e))
    ]
  where
    refused : {s : ℕ} {m : String} → ◌≡◌ {A = Result (Run × Db)} (raise s m) (ok (r, d)) → ⊥
    refused h = cc
admit-Admits human env reg t a w k none db r d steps fresh e =
    let (_, _, e₁) =
      >>=-eq-ok
        (guard (ltb (count (is_active_in a.workspace) db.runs) 100) 429
          "workspace active mission quota exhausted")
        _ e in
    let (plan, snapped, last) = >>=-eq-ok (snapshot env reg a w) _ e₁ in
    subst (λ xs. Admits human env (t.uid 0) db.runs xs) (runs-eq last)
      (unfold new_run in
        Admits-append human env db.runs (new_run env t a w k plan) fresh (
          new_run-IsWellFormed env t a w k plan
            (omega (arith, snapshot-length env reg a w plan snapped, steps))))

-- What `submit_in` does to the runs, for a workflow with a step.
pub submit_in-Admits :
    (human : Bool) (env : Env) (reg : Registry) (t : Draws) (a : Actor) (w : RunInput) (k : String)
    (db : Db) (r : Run) (d : Db)
    → 0 < length w.steps
    → IsFresh t db
    → submit_in env reg t a w k db ≡ ok (r, d)
    → Admits human env (t.uid 0) db.runs d.runs
unfolding submit_in
submit_in-Admits human env reg t a w k db r d steps fresh e =
    let (_, _, last) =
      >>=-eq-ok
        (guard (not (k == "") && leb (String.count k) 200) 422
          "Idempotency-Key must contain 1..200 characters")
        _ e in
    admit-Admits human env reg t a w k (run_under a.workspace a.id k db.runs) db r d steps fresh
      last

-- A workflow that was accepted, submitted under an identifier that is not in use.
pub submit-Evolves :
    (human : Bool) (env : Env) (reg : Registry) (t : Draws) (a : Actor) (w : RunInput) (k : String)
    (db : Db)
    → accept_run env w ≡ true
    → IsFresh t db
    → Evolves human env db.runs (submit env reg t a w k db).1.runs
unfolding submit
submit-Evolves human env reg t a w k db accepted fresh =
    transaction-Evolves human env db (submit_in env reg t a w k db) λ r d e.
      (submit_in-Admits human env reg t a w k db r d (accept_run-pos env w accepted) fresh
        e).evolves
