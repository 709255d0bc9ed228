-- ===== src/Worker/Fence.antt =====
-- The lease's token keeps apart the workers of runtime.py that take a run one after the other.
use rednexus_ai.Base.{ap, ℕ, String, true, false, Option, none, some, ◌≡◌, refl, ◌==◌, ok, arith}
use rednexus_ai.Base.Table.{find-update_self, find}
use rednexus_ai.Env.{Env, Draws}
use rednexus_ai.Registry.{Registry}
use rednexus_ai.Store.{Run, Db, run_keyed}
use rednexus_ai.Worker.Defs.{lease_holds}
use rednexus_ai.Worker.Recover.{update_run}
use rednexus_ai.Worker.Claim.{claimable, claim_one, lease}
use rednexus_ai.Worker.Prepare.{prepare, prepare_found}
use rednexus_ai.Worker.Finish.{finish, finish_found, Ending}

-- A row that is the run under an identifier, after a claim of it was won.
won_row :
    (env : Env) (now : ℕ) (i token : String) (db : Db)
    → (claim_one env now i token db).0 ≡ true
    → (r : Run) × (claimable now r ≡ true)
      × (find i (claim_one env now i token db).1.runs ≡ some (lease env now token r))
unfolding claim_one lease
won_row env now i token db won = by_row (find i db.runs) refl won
  where
    by_row :
        (o : Option Run)
        → find i db.runs ≡ o
        → elim o [ none ↦ false | some r ↦ claimable now r ] ≡ true
        → (r : Run) × (claimable now r ≡ true)
          × (find i (update_run i (claimable now) (lease env now token) db).runs
              ≡ some (lease env now token r))
    by_row none e h = cc
    by_row (some r) e h = (
      r,
      h,
      find-update_self i (claimable now) (lease env now token) db.runs {r = r} (λ _. refl) e h,
    )

claim_taken :
    (env : Env) (now later : ℕ) (i one two : String) (d : Db) (r : Run)
    → find i d.runs ≡ some (lease env now one r)
    → (claim_one env later i two d).0 ≡ false
unfolding claim_one lease
claim_taken env now later i one two d r row =
    ap (λ o. elim o [ none ↦ false | some x ↦ claimable later x ]) row

-- Of two claims of a run, the second is lost, whenever it is made, as long as nothing came between.
pub claim_exclusive :
    (env : Env) (now later : ℕ) (i one two : String) (db : Db)
    → (claim_one env now i one db).0 ≡ true
    → (claim_one env later i two (claim_one env now i one db).1).0 ≡ false
claim_exclusive env now later i one two db won =
    let (r, _, row) = won_row env now i one db won in
    claim_taken env now later i one two (claim_one env now i one db).1 r row

prepare-without_lease :
    (env : Env) (reg : Registry) (t : Draws) (i token : String) (db : Db) {r : Run}
    → find i db.runs ≡ some r
    → lease_holds token (t.clock 0) r ≡ false
    → prepare env reg t i token db ≡ (ok none, db)
unfolding prepare prepare_found
prepare-without_lease env reg t i token db row lost = rw row (rw lost)

finish-without_lease :
    (env : Env) (t : ℕ → ℕ) (i token : String) (e : Ending) (db : Db) {r : Run}
    → find i db.runs ≡ some r
    → lease_holds token (t 0) r ≡ false
    → finish env t i token e db ≡ (ok tt, db)
unfolding finish finish_found
finish-without_lease env t i token e db row lost = rw row (rw lost)

other_token :
    (env : Env) (now at : ℕ) (new old : String) (r : Run)
    → new == old ≡ false
    → lease_holds old at (lease env now new r) ≡ false
unfolding lease
other_token env now at new old r other = ground arith

-- After a worker has won a run, a worker with another token neither gets a step of it from `prepare`
-- nor writes a result with `finish`: both calls return and leave the database as it is.
pub superseded_worker :
    (env : Env) (reg : Registry) (now : ℕ) (t : Draws) (f : ℕ → ℕ) (i new old : String) (e : Ending)
    (db : Db)
    → (claim_one env now i new db).0 ≡ true
    → new == old ≡ false
    → let d = (claim_one env now i new db).1 in
      (prepare env reg t i old d ≡ (ok none, d)) × (finish env f i old e d ≡ (ok tt, d))
superseded_worker env reg now t f i new old e db won other =
    let d = (claim_one env now i new db).1 in
    let (r, _, row) = won_row env now i new db won in
    (
      prepare-without_lease env reg t i old d {r = lease env now new r} row
          (other_token env now (t.clock 0) new old r other),
      finish-without_lease env f i old e d {r = lease env now new r} row
          (other_token env now (f 0) new old r other),
    )
