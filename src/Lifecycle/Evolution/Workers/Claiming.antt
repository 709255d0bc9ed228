-- ===== src/Lifecycle/Evolution/Workers/Claiming.antt =====
-- `claim` takes leases of due runs, and changes nothing else.
use rednexus_ai.Base.{
  Bool, ℕ, suc, ◌≡◌, refl, String, true, List, [], ◌∷◌, arith, Bool-cases, inl, inr,
}
use rednexus_ai.Env.{Env}
use rednexus_ai.Store.{Run, Db, run_keyed}
use rednexus_ai.Worker.Recover.{affects}
use rednexus_ai.Worker.Claim.{claimable, lease, claim_one, claim_first, candidates, claim}
use rednexus_ai.Lifecycle.Transition.{Transition, leased, one}
use rednexus_ai.Lifecycle.Evolution.Defs.{Evolves, Evolves-refl, Evolves-trans, Evolves-update}

lease-Transition :
    (human : Bool) (env : Env) (now : ℕ) (token : String) (r : Run)
    → claimable now r ≡ true
    → Transition human env r (lease env now token r)
lease-Transition human env now token r h = leased now token (ground arith) (ground arith) refl

pub claim_one-Evolves :
    (human : Bool) (env : Env) (now : ℕ) (i token : String) (db : Db)
    → Evolves human env db.runs (claim_one env now i token db).1.runs
unfolding claim_one
claim_one-Evolves human env now i token db =
    Evolves-update human env i (claimable now) (lease env now token) db.runs
      (λ r. unfold lease in refl) (λ r _ h. one (lease-Transition human env now token r h))

claim_first-Evolves :
    (human : Bool) (env : Env) (now : ℕ) (uid : ℕ → String) (k : ℕ) (is : List String) (db : Db)
    → Evolves human env db.runs (claim_first env now uid k is db).1.runs
unfolding claim_first
claim_first-Evolves human env now uid k [] db = Evolves-refl human env db.runs
claim_first-Evolves human env now uid k (i ∷ is) db =
    elim (Bool-cases (affects i (claimable now) db)) [
      | inl won ↦ rw won (claim_one-Evolves human env now i (uid k) db)
      | inr lost ↦ rw lost (
          Evolves-trans human env (claim_one-Evolves human env now i (uid k) db)
            (claim_first-Evolves human env now uid (suc k) is (claim_one env now i (uid k) db).1))
    ]

pub claim-Evolves :
    (human : Bool) (env : Env) (now : ℕ) (uid : ℕ → String) (db : Db)
    → Evolves human env db.runs (claim env now uid db).1.runs
unfolding claim
claim-Evolves human env now uid db = claim_first-Evolves human env now uid 0 (candidates now db) db
