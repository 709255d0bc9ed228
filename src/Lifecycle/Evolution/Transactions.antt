-- ===== src/Lifecycle/Evolution/Transactions.antt =====
-- A transaction that fails changes nothing.
use rednexus_ai.Base.{Bool, ◌≡◌, refl, Result, ok, raised, crashed}
use rednexus_ai.Env.{Env}
use rednexus_ai.Store.{Db, transaction}
use rednexus_ai.Lifecycle.Evolution.Defs.{Evolves, Evolves-refl}

pub transaction-Evolves {ℓ} :
    {A : Type ℓ} (human : Bool) (env : Env) (db : Db) (m : Result (A × Db))
    → ((a : A) (d : Db) → m ≡ ok (a, d) → Evolves human env db.runs d.runs)
    → Evolves human env db.runs (transaction db m).1.runs
transaction-Evolves human env db (ok (a, d)) h = h a d refl
transaction-Evolves human env db (raised p) h = Evolves-refl human env db.runs
transaction-Evolves human env db (crashed x) h = Evolves-refl human env db.runs

-- A transaction that commits the database as it was.
pub same-Evolves {ℓ} :
    {A : Type ℓ} (human : Bool) (env : Env) {a b : A} {db d : Db}
    → ◌≡◌ {A = Result (A × Db)} (ok (a, db)) (ok (b, d))
    → Evolves human env db.runs d.runs
same-Evolves human env {db = db} {d = d} e =
    let same : db ≡ d = cc in rw (← same) (Evolves-refl human env db.runs)

pub runs-eq {ℓ} :
    {A : Type ℓ} {a b : A} {db d : Db}
    → ◌≡◌ {A = Result (A × Db)} (ok (a, db)) (ok (b, d))
    → db.runs ≡ d.runs
runs-eq e = cc
