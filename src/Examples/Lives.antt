-- ===== src/Examples/Lives.antt =====
-- The theorems on sequences of transactions, applied.
use rednexus_ai.Lifecycle.Refinement.{Walks, Operation-Walks}
use rednexus_ai.Examples.World.{
  handed, env0, spec0, reg0, step0, flow0, owner0, empty_db, held_run, queued_run, done_run,
  pending0, db_of, approved0, held_db, draws0, keys0,
}
use rednexus_ai.Platform.Agents.{agent_keyed}
use rednexus_ai.Lifecycle.Evolution.Users.{IsFresh}
use rednexus_ai.Platform.Access.{accessible_run}
use rednexus_ai.Base.{String, true, false, some, ◌≡◌, refl, ok, elem}
use rednexus_ai.Base.Table.{Distinct, find, find, update_where, find, modify}
use rednexus_ai.Json.{null}
use rednexus_ai.Contracts.Accept.{accept_run}
use rednexus_ai.Identity.{require_role}
use rednexus_ai.Store.{
  needs_reconciliation, close_pending, envelope, emit, Run, Approval, Db, run_keyed,
}
use rednexus_ai.Worker.{Failure}
use rednexus_ai.Worker.Recover.{recover}
use rednexus_ai.Worker.Claim.{claim_one}
use rednexus_ai.Worker.Prepare.{prepare}
use rednexus_ai.Worker.Finish.{finish, error, output}
use rednexus_ai.Platform.Submit.{submit}
use rednexus_ai.Platform.Cancel.{cancel_in, cancel_row, request_cancel, cancel_idle, cancel}
use rednexus_ai.Lifecycle.History.{Extends}
use rednexus_ai.Lifecycle.Reachable.{
  here, next, recovering, claiming, finishing, submitting, Reach-IsSound, IsSound, Reach-Extends,
  terminal_absorbs, uncertain_waits,
}
use rednexus_ai.Lifecycle.Stopped.{cancel-IsStopped, IsStopped}
use rednexus_ai.Lifecycle.Safety.{effect_never_retried, cancelled_never_starts}

accepted0 : accept_run env0 flow0 ≡ true
unfolding accept_run
accepted0 = refl

sound0 : IsSound empty_db
unfolding find
sound0 = (tt, λ i r h. absurd (cc))

fresh0 : IsFresh draws0 empty_db
unfolding find
fresh0 = refl

Reach-IsSound_example :
    IsSound (claim_one env0 60 "n1" "t1" (submit env0 reg0 draws0 owner0 flow0 "k" empty_db).1).1
Reach-IsSound_example =
    Reach-IsSound {human = false}
      (next (next here (submitting reg0 draws0 owner0 flow0 "k" accepted0 fresh0))
        (claiming 60 "n1" "t1"))
      sound0

Operation-Walks_example :
    ((i : String)
      → Walks false
          (find i held_db.runs)
          (find i (finish env0 (λ k. 60) "r1" "t1" (output null) held_db).1.runs))
    × Distinct (finish env0 (λ k. 60) "r1" "t1" (output null) held_db).1.runs
Operation-Walks_example =
    Operation-Walks (finishing (λ k. 60) "r1" "t1" (output null)) (keys0 held_run approved0)

row0 : (r : Run) (a : Approval) → r.id ≡ "r1" → find "r1" (db_of r a).runs ≡ some r
unfolding find
row0 r a e = rw e

Reach-Extends_example :
    (u : Run) × (find "r1" (recover env0 200 held_db).1.runs ≡ some u) × Extends held_run u
Reach-Extends_example =
    Reach-Extends {human = false} {r = held_run} "r1" (next here (recovering 200))
      (keys0 held_run approved0) (row0 held_run approved0 refl)

terminal_absorbs_example :
    find "r1" (claim_one env0 60 "r1" "t2" (db_of done_run pending0)).1.runs ≡ some done_run
terminal_absorbs_example =
    terminal_absorbs {human = true} {r = done_run} "r1" (next here (claiming 60 "r1" "t2"))
      (keys0 done_run pending0) (row0 done_run pending0 refl) refl

abbrev unsure_run : Run
unsure_run = record queued_run { status = needs_reconciliation }

uncertain_waits_example :
    find "r1" (claim_one env0 60 "r1" "t2" (db_of unsure_run pending0)).1.runs ≡ some unsure_run
uncertain_waits_example =
    uncertain_waits {r = unsure_run} "r1" (next here (claiming 60 "r1" "t2"))
      (keys0 unsure_run pending0) (row0 unsure_run pending0 refl) refl

abbrev refused0 : Failure
refused0 = record { code = "adapter_unavailable"; retryable = true; http_status = some 503 }

effect_never_retried_example : ¬ (
    prepare env0 reg0 draws0 "r1" "t2"
      (claim_one env0 70 "r1" "t2" (finish env0 (λ k. 60) "r1" "t1" (error refused0) held_db).1).1
    ≡ (ok (some handed), held_db))
effect_never_retried_example =
    effect_never_retried env0 (λ k. 60) "r1" "t1" refused0 held_db held_run
      (record { step = step0; contract = spec0; fingerprint = "json" })
      (claim_one env0 70 "r1" "t2" (finish env0 (λ k. 60) "r1" "t1" (error refused0) held_db).1).1
      reg0 draws0 "t2" handed held_db (keys0 held_run approved0) (row0 held_run approved0 refl) refl
      refl refl (next here (claiming 70 "r1" "t2"))

abbrev stopped_db : Db
stopped_db = (cancel env0 55 owner0 "r1" held_db).1

stopped0 : cancel env0 55 owner0 "r1" held_db ≡ (ok tt, stopped_db)
unfolding cancel cancel_in cancel_row require_role elem accessible_run find modify request_cancel
    cancel_idle emit envelope close_pending update_where
stopped0 = refl

cancel-IsStopped_example :
    (r : Run) × (find "r1" held_db.runs ≡ some r) × IsStopped "r1" r stopped_db
cancel-IsStopped_example = cancel-IsStopped env0 55 owner0 "r1" held_db stopped_db stopped0

cancelled_never_starts_example :
    ¬ (prepare env0 reg0 draws0 "r1" "t1" stopped_db ≡ (ok (some handed), held_db))
cancelled_never_starts_example =
    cancelled_never_starts {human = true} env0 55 owner0 "r1" held_db stopped_db stopped_db reg0
      draws0 "t1" handed held_db (keys0 held_run approved0) stopped0 here
