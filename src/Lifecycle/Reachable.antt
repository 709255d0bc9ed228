-- ===== src/Lifecycle/Reachable.antt =====
-- Any sequence of transactions, by any workers and users, at any readings of the clock, and what
-- holds of every run whatever the sequence.
use rednexus_ai.Extensions.Groups.{GroupInput, MissionGroup, submit_group}
use rednexus_ai.Platform.Agents.{Rule, Agent}
use rednexus_ai.Platform.Ingest.{EventInput, Received, ingest}
use mathlib.Core.Path.{subst}
use rednexus_ai.Base.{List, sym, ℕ, ◌≡◌, refl, String, Bool, true, false, Option, none, some}
use rednexus_ai.Base.Table.{find, Distinct}
use rednexus_ai.Contracts.{RunInput, ReviewInput, ReconcileInput}
use rednexus_ai.Contracts.Accept.{accept_run}
use rednexus_ai.Env.{Env, Draws}
use rednexus_ai.Identity.{Actor}
use rednexus_ai.Registry.{Registry}
use rednexus_ai.Store.{Run, Db, run_keyed, is_uncertain}
use rednexus_ai.Worker.Recover.{recover}
use rednexus_ai.Worker.Claim.{claim_one}
use rednexus_ai.Worker.Prepare.{prepare}
use rednexus_ai.Worker.Finish.{Ending, finish}
use rednexus_ai.Platform.Submit.{submit}
use rednexus_ai.Platform.Cancel.{cancel}
use rednexus_ai.Platform.Review.{review}
use rednexus_ai.Platform.Reconcile.{reconcile}
use rednexus_ai.Lifecycle.Transition.{Steps}
use rednexus_ai.Lifecycle.WellFormed.{IsWellFormed, Steps-IsWellFormed}
use rednexus_ai.Lifecycle.History.{
  Extends, Steps-Extends, is_terminal, Steps-terminal, Steps-uncertain,
}
use rednexus_ai.Lifecycle.Evolution.{Moves, Evolves, Evolves-refl, Evolves-trans}
use rednexus_ai.Lifecycle.Evolution.Workers.{
  claim_one-Evolves, prepare-Evolves, finish-Evolves, recover-Evolves,
}
use rednexus_ai.Lifecycle.Evolution.Users.{
  AreFresh, AreAccepted, ingest-Evolves, submit_group-Evolves, IsFresh, submit-Evolves,
  cancel-Evolves, review-Evolves, reconcile-Evolves,
}

-- One transaction that may change runs. The registry is read again between transactions, so each has
-- its own, and so have the tables that an operation reads besides the database. Without a human there
-- is every operation but `reconcile`.
pub data Operation (human : Bool) (env : Env) (db : Db) : Db → Type 0 where
  recovering : (now : ℕ) → Operation human env db (recover env now db).1
  claiming : (now : ℕ) (i token : String) → Operation human env db (claim_one env now i token db).1
  preparing :
      (reg : Registry) (t : Draws) (i token : String)
      → Operation human env db (prepare env reg t i token db).1
  finishing :
      (t : ℕ → ℕ) (i token : String) (ending : Ending)
      → Operation human env db (finish env t i token ending db).1
  submitting :
      (reg : Registry) (t : Draws) (a : Actor) (w : RunInput) (k : String)
      → accept_run env w ≡ true
      → IsFresh t db
      → Operation human env db (submit env reg t a w k db).1
  ingesting :
      (reg : Registry) (i : String) (t : ℕ → Draws) (a : Actor) (e : EventInput) (rules : List Rule)
      (inbox : List Received)
      → AreFresh t 0 db
      → Operation human env db
          (ingest env reg i t a e (record { db = db; rules = rules; inbox = inbox })).1.db
  grouping :
      (reg : Registry) (own : Draws) (t : ℕ → Draws) (a : Actor) (d : GroupInput) (k : String)
      (agents : List Agent) (groups : List MissionGroup)
      → AreAccepted env d.assignments
      → AreFresh t 0 db
      → Operation human env db
          (submit_group env reg own t a d k
            (record { db = db; agents = agents; groups = groups })).1.db
  cancelling : (now : ℕ) (a : Actor) (i : String) → Operation human env db (cancel env now a i db).1
  reviewing :
      (reg : Registry) (t : ℕ → ℕ) (a : Actor) (i : String) (d : ReviewInput)
      → Operation human env db (review env reg t a i d db).1
  reconciling :
      (now : ℕ) (a : Actor) (i : String) (d : ReconcileInput)
      → human ≡ true
      → Operation human env db (reconcile env now a i d db).1

pub data Reach (human : Bool) (env : Env) (db : Db) : Db → Type 0 where
  here : Reach human env db db
  next : {d e : Db} → Reach human env db d → Operation human env d e → Reach human env db e

-- Each operation moves each run by the transitions of the life cycle, and only those.
pub Operation-Evolves :
    {human : Bool} {env : Env} {db d : Db}
    → Operation human env db d
    → Distinct db.runs
    → Evolves human env db.runs d.runs
Operation-Evolves {human} {env} {db} (recovering now) k = recover-Evolves human env now db k
Operation-Evolves {human} {env} {db} (claiming now i token) k =
    claim_one-Evolves human env now i token db
Operation-Evolves {human} {env} {db} (preparing reg t i token) k =
    prepare-Evolves human env reg t i token db
Operation-Evolves {human} {env} {db} (finishing t i token ending) k =
    finish-Evolves human env t i token ending db
Operation-Evolves {human} {env} {db} (submitting reg t a w n accepted fresh) k =
    submit-Evolves human env reg t a w n db accepted fresh
Operation-Evolves {human} {env} {db} (ingesting reg i t a e rules inbox fresh) k =
    ingest-Evolves human env reg i t a e (record { db = db; rules = rules; inbox = inbox }) fresh
Operation-Evolves {human} {env} {db} (grouping reg own t a d n agents groups accepted fresh) k =
    submit_group-Evolves human env reg own t a d n
      (record { db = db; agents = agents; groups = groups }) accepted fresh
Operation-Evolves {human} {env} {db} (cancelling now a i) k = cancel-Evolves human env now a i db
Operation-Evolves {human} {env} {db} (reviewing reg t a i d) k =
    review-Evolves human env reg t a i d db
Operation-Evolves {human} {env} {db} (reconciling now a i d e) k =
    subst (λ b. Evolves b env db.runs (reconcile env now a i d db).1.runs) (sym e)
      (reconcile-Evolves env now a i d db)

pub Reach-Evolves :
    {human : Bool} {env : Env} {db d : Db}
    → Reach human env db d
    → Distinct db.runs
    → Evolves human env db.runs d.runs
Reach-Evolves {human} {env} {db} here k = Evolves-refl human env db.runs
Reach-Evolves {human} {env} {db} (next r o) k =
    let before = Reach-Evolves r k in
    Evolves-trans human env before (Operation-Evolves o (before.keys k))

abbrev pub IsSound : Db → Type 0
IsSound db = Distinct db.runs × ((i : String) (r : Run) → find i db.runs ≡ some r → IsWellFormed r)

sound_row :
    (human : Bool) (env : Env) (o : Option Run) (u : Run)
    → Moves human env o (some u)
    → ((r : Run) → o ≡ some r → IsWellFormed r)
    → IsWellFormed u
sound_row human env none u m h = m
sound_row human env (some r) u m h = Steps-IsWellFormed m (h r refl)

-- From a database whose runs have distinct identifiers and are well formed, any transactions lead to
-- such a database: every run keeps its cursor inside its plan, strictly so while it is open, one
-- output for each finished step, its calls and cost within their limits, and a lease exactly while it
-- is running.
pub Reach-IsSound :
    {human : Bool} {env : Env} {db d : Db} → Reach human env db d → IsSound db → IsSound d
Reach-IsSound {human} {env} {db} {d} p (k, w) = (
  (Reach-Evolves p k).keys k,
  λ i u found.
      sound_row human env (find i db.runs) u
        (subst (Moves human env (find i db.runs)) found ((Reach-Evolves p k).at i)) (w i),
)

-- What an earlier row and the transitions say of the row now.
row_after :
    {human : Bool} {env : Env} {rs us : List Run} {r : Run} (P : Run → Type 0) (i : String)
    → Evolves human env rs us
    → find i rs ≡ some r
    → ((u : Run) → Steps human env r u → P u)
    → (u : Run) × (find i us ≡ some u) × P u
row_after {human} {env} {rs} {us} {r} P i p found h =
    by_row (find i us) refl (subst (λ o. Moves human env o (find i us)) found (p.at i))
  where
    by_row :
        (o : Option Run)
        → find i us ≡ o
        → Moves human env (some r) o
        → (u : Run) × (find i us ≡ some u) × P u
    by_row none e m = absurd m
    by_row (some u) e m = (u, e, h u m)

-- A run's identity, plan and limits never change; its cursor, its calls and its cost never fall; its
-- outputs are only added to; and a requested cancellation is never withdrawn.
pub Reach-Extends :
    {human : Bool} {env : Env} {db d : Db} {r : Run} (i : String)
    → Reach human env db d
    → Distinct db.runs
    → find i db.runs ≡ some r
    → (u : Run) × (find i d.runs ≡ some u) × Extends r u
Reach-Extends {r = r} i p k found =
    row_after {r = r} (λ u. Extends r u) i (Reach-Evolves p k) found (λ u s. Steps-Extends s)

-- A run that has ended stays as it is, whatever workers and users do.
pub terminal_absorbs :
    {human : Bool} {env : Env} {db d : Db} {r : Run} (i : String)
    → Reach human env db d
    → Distinct db.runs
    → find i db.runs ≡ some r
    → is_terminal r.status ≡ true
    → find i d.runs ≡ some r
terminal_absorbs {d = d} {r = r} i p k found over =
    let (u, now, same) =
      row_after {r = r} (λ u. u ≡ r) i (Reach-Evolves p k) found (λ u s. Steps-terminal s over) in
    subst (λ x. find i d.runs ≡ some x) same now

-- A run whose effect is uncertain is left exactly as it is by every transaction but a human's
-- reconciliation: no worker takes it again.
pub uncertain_waits :
    {env : Env} {db d : Db} {r : Run} (i : String)
    → Reach false env db d
    → Distinct db.runs
    → find i db.runs ≡ some r
    → is_uncertain r.status ≡ true
    → find i d.runs ≡ some r
uncertain_waits {d = d} {r = r} i p k found unsure =
    let (u, now, same) =
      row_after {r = r} (λ u. u ≡ r) i (Reach-Evolves p k) found
        (λ u s. Steps-uncertain s unsure) in
    subst (λ x. find i d.runs ≡ some x) same now
