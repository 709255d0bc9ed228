-- ===== src/Lifecycle/Evolution/Users/Batches.antt =====
-- Several submissions in one transaction: those of an event's rules and those of a mission group.
use rednexus_ai.Lifecycle.Evolution.Transactions.{same-Evolves, runs-eq}
use rednexus_ai.Lifecycle.Evolution.Defs.{Evolves, Evolves-refl, Evolves-trans}
use rednexus_ai.Platform.Ingest.{
  EventInput, Received, Intake, Accepted, dump_event, received_under, is_for, with_event, fire_rule,
  fire_rules, accept_event, ingest_found, ingest_in, take_in, ingest,
}
use rednexus_ai.Platform.Submit.{submit_in}
use rednexus_ai.Platform.Agents.{Rule}
use rednexus_ai.Store.{Db, run_keyed, emit}
use rednexus_ai.Registry.{Registry}
use rednexus_ai.Identity.{Actor, require, actor_for}
use rednexus_ai.Env.{Env, Draws, digest}
use rednexus_ai.Contracts.Accept.{validated}
use rednexus_ai.Contracts.{StepInput}
use rednexus_ai.Json.{Fields}
use rednexus_ai.Base.{
  Bool, ℕ, suc, ◌≤◌, ◌<◌, ◌≡◌, refl, String, false, Option, none, some, List, [], ◌∷◌, length, ◌==◌,
  Bool-cases, inl, inr, Result, ok, raised, crashed, raise, >>=-eq-ok, filter,
}
use mathlib.Core.Path.{subst}
use native.Mathlib.Omega.{arith}
use rednexus_ai.Lifecycle.Evolution.Users.Submitting.{Admits, submit_in-Admits, IsFresh}

-- What is asked of the identifiers that are drawn from the i-th on: no run has them, and no two are
-- the same.
pub record AreFresh (t : ℕ → Draws) (i : ℕ) (db : Db) : Type 0 where
  pub unused : (k : ℕ) → i ≤ k → IsFresh (t k) db
  pub apart : (j k : ℕ) → j < k → ((t j).uid 0 == (t k).uid 0) ≡ false

-- After the i-th submission the rest are still so.
pub AreFresh-suc :
    (human : Bool) (env : Env) (t : ℕ → Draws) (i : ℕ) (db d : Db)
    → AreFresh t i db
    → Admits human env ((t i).uid 0) db.runs d.runs
    → AreFresh t (suc i) d
AreFresh-suc human env t i db d fresh one = record {
  unused = λ k h.
      one.unused ((t k).uid 0) (fresh.apart i k (omega (arith, h)))
        (fresh.unused k (omega (arith, h)));
  apart = fresh.apart;
}

with_event-length :
    (payload : Fields) (ss us : List StepInput) → with_event payload ss ≡ ok us → 0 < length us
unfolding with_event
with_event-length payload [] us e = cc
with_event-length payload (s ∷ ss) us e = ground (arith, e)

fire_rule-Admits :
    (human : Bool) (env : Env) (reg : Registry) (t : Draws) (a : Actor) (e : EventInput)
    (i : String) (rule : Rule) (db : Db) (x : String) (d : Db)
    → IsFresh t db
    → fire_rule env reg t a e i rule db ≡ ok (x, d)
    → Admits human env (t.uid 0) db.runs d.runs
unfolding fire_rule
fire_rule-Admits human env reg t a e i rule db x d fresh h =
    let (owner, _, h₁) = >>=-eq-ok (actor_for db rule.owner a.workspace) _ h in
    let (w, _, h₂) = >>=-eq-ok (validated env rule.workflow) _ h₁ in
    let (steps, put, h₃) = >>=-eq-ok (with_event e.payload w.steps) _ h₂ in
    let (r, done, last) =
      >>=-eq-ok (submit_in env reg t owner (record w { steps = steps }) _ db) _ h₃ in
    let same : r.1 ≡ d = pair-eq last in
    subst (λ c. Admits human env (t.uid 0) db.runs c.runs) same
      (submit_in-Admits human env reg t owner (record w { steps = steps }) _ db r.0 r.1
        (with_event-length e.payload w.steps steps put) fresh done)
  where
    pair-eq : {y : String} {c : Db} → ◌≡◌ {A = Result (String × Db)} (ok (y, c)) (ok (x, d)) → c ≡ d
    pair-eq h = cc

pub fire_rules-Evolves :
    (human : Bool) (env : Env) (reg : Registry) (t : ℕ → Draws) (i : ℕ) (a : Actor) (e : EventInput)
    (id : String) (rules : List Rule) (db : Db) (xs : List String) (d : Db)
    → AreFresh t i db
    → fire_rules env reg t i a e id rules db ≡ ok (xs, d)
    → Evolves human env db.runs d.runs
unfolding fire_rules
fire_rules-Evolves human env reg t i a e id [] db xs d fresh h = same-Evolves human env h
fire_rules-Evolves human env reg t i a e id (rule ∷ rules) db xs d fresh h =
    let (first, done, h₁) = >>=-eq-ok (fire_rule env reg (t i) a e id rule db) _ h in
    let (others, more, last) = >>=-eq-ok (fire_rules env reg t (suc i) a e id rules first.1) _ h₁ in
    let one =
      fire_rule-Admits human env reg (t i) a e id rule db first.0 first.1
        (fresh.unused i (omega arith)) done in
    subst (λ us. Evolves human env db.runs us) (runs-eq last)
      (Evolves-trans human env one.evolves (
        fire_rules-Evolves human env reg t (suc i) a e id rules first.1 others.0 others.1
          (AreFresh-suc human env t i db first.1 fresh one) more))

-- The event's row and its outbox message change no run.
ingest_found-Evolves :
    (human : Bool) (env : Env) (reg : Registry) (i : String) (t : ℕ → Draws) (a : Actor)
    (e : EventInput) (o : Option Received) (s : Intake) (x : Accepted) (s' : Intake)
    → AreFresh t 0 s.db
    → ingest_found env reg i t a e o s ≡ ok (x, s')
    → Evolves human env s.db.runs s'.db.runs
unfolding ingest_found accept_event emit
ingest_found-Evolves human env reg i t a e (some old) s x s' fresh h =
    elim (Bool-cases (old.digest == digest env (dump_event e))) [
      | inl same ↦
          let kept : s ≡ s' = state-eq (rw same at h) in
          subst (λ (c : Intake). Evolves human env s.db.runs c.db.runs) kept
            (Evolves-refl human env s.db.runs)
      | inr differs ↦ absurd (refused (rw differs at h))
    ]
  where
    state-eq :
        {y : Accepted} → ◌≡◌ {A = Result (Accepted × Intake)} (ok (y, s)) (ok (x, s')) → s ≡ s'
    state-eq h = cc

    refused :
        {n : ℕ} {m : String} → ◌≡◌ {A = Result (Accepted × Intake)} (raise n m) (ok (x, s')) → ⊥
    refused h = cc
ingest_found-Evolves human env reg i t a e none s x s' fresh h =
    let (fired, done, last) =
      >>=-eq-ok (fire_rules env reg t 0 a e i (filter (is_for a e) s.rules) s.db) _ h in
    subst (λ us. Evolves human env s.db.runs us) (runs_of last)
      (fire_rules-Evolves human env reg t 0 a e i (filter (is_for a e) s.rules) s.db fired.0 fired.1
        fresh done)
  where
    runs_of :
        {y : Accepted} {c : Intake}
        → ◌≡◌ {A = Result (Accepted × Intake)} (ok (y, c)) (ok (x, s'))
        → c.db.runs ≡ s'.db.runs
    runs_of h = cc

take_in-Evolves :
    (human : Bool) (env : Env) (s : Intake) (m : Result (Accepted × Intake))
    → ((x : Accepted) (s' : Intake) → m ≡ ok (x, s') → Evolves human env s.db.runs s'.db.runs)
    → Evolves human env s.db.runs (take_in s m).1.db.runs
take_in-Evolves human env s (ok (x, s')) h = h x s' refl
take_in-Evolves human env s (raised p) h = Evolves-refl human env s.db.runs
take_in-Evolves human env s (crashed x) h = Evolves-refl human env s.db.runs

-- An event that is ingested, where the identifiers for its runs are not in use.
pub ingest-Evolves :
    (human : Bool) (env : Env) (reg : Registry) (i : String) (t : ℕ → Draws) (a : Actor)
    (e : EventInput) (s : Intake)
    → AreFresh t 0 s.db
    → Evolves human env s.db.runs (ingest env reg i t a e s).1.db.runs
unfolding ingest ingest_in
ingest-Evolves human env reg i t a e s fresh =
    take_in-Evolves human env s (ingest_in env reg i t a e s) λ x s' h.
      let (_, _, last) = >>=-eq-ok (require a "events:ingest") _ h in
      ingest_found-Evolves human env reg i t a e (received_under a.workspace e.source e.id s.inbox)
        s x s' fresh last
