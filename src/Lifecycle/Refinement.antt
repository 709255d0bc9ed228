-- ===== src/Lifecycle/Refinement.antt =====
-- The operations on runs against the diagram of a run's states.
use rednexus_ai.Base.{String, Bool, Option, none, some}
use rednexus_ai.Base.Table.{find, Distinct}
use rednexus_ai.Env.{Env}
use rednexus_ai.Store.{Run, Db, run_keyed}
use rednexus_ai.Lifecycle.WellFormed.{IsWellFormed}
use rednexus_ai.Lifecycle.Evolution.{Moves}
use rednexus_ai.Lifecycle.Reachable.{Operation, Operation-Evolves}
use rednexus_ai.Lifecycle.Diagram.{Walk}
use rednexus_ai.Lifecycle.Edges.{Steps-Walk}

-- A row walks along the diagram and is never removed; a new row is well formed.
abbrev pub Walks : Bool → Option Run → Option Run → Type 0
Walks human none none = Unit
Walks human none (some u) = IsWellFormed u
Walks human (some r) none = ⊥
Walks human (some r) (some u) = Walk human r u

Moves-Walks : (human : Bool) (env : Env) (a b : Option Run) → Moves human env a b → Walks human a b
Moves-Walks human env none none m = tt
Moves-Walks human env none (some u) m = m
Moves-Walks human env (some r) none m = m
Moves-Walks human env (some r) (some u) m = Steps-Walk m

-- Each of the operations recover, claim_one, prepare, finish, submit, ingest, submit_group, cancel,
-- review and reconcile moves every run along the edges of the diagram, adds only runs that are well
-- formed, removes none and keeps identifiers distinct, where they are so at first, those of new runs
-- are not in use, and the workflows that users send are accepted by the validators.
pub Operation-Walks :
    {human : Bool} {env : Env} {db d : Db}
    → Operation human env db d
    → Distinct db.runs
    → ((i : String) → Walks human (find i db.runs) (find i d.runs)) × Distinct d.runs
Operation-Walks {human} {env} {db} {d} op keys =
    let over = Operation-Evolves op keys in
    (λ i. Moves-Walks human env (find i db.runs) (find i d.runs) (over.at i), over.keys keys)
