-- ===== src/Examples/Leases.antt =====
-- The theorems on `prepare`, `claim` and `finish` of runtime.py, applied.
use rednexus_ai.Examples.World.{handed, env0, reg0, queued_run, pending0, db_of, held_db, draws0}
use rednexus_ai.Platform.Agents.{agent_keyed}
use rednexus_ai.Base.Text.{show}
use rednexus_ai.Workflows.Flow.{condition_matches, input_for}
use rednexus_ai.Base.{true, false, none, some, ◌≡◌, refl, ok, elem}
use rednexus_ai.Base.Table.{find, put, modify}
use rednexus_ai.Json.{set_field, null}
use rednexus_ai.Env.{digest, validate_payload}
use rednexus_ai.Identity.{actor_for, require_role, require}
use rednexus_ai.Registry
use rednexus_ai.Registry.{fingerprint, spec_named, Registry}
use rednexus_ai.Store.{envelope, emit, approval_at, membership, put_run, Run, run_keyed}
use rednexus_ai.Worker.{lease_holds}
use rednexus_ai.Worker.Claim.{claim_one}
use rednexus_ai.Worker.Prepare.{
  start_step, reviewer_of, check_approval, charge, approve_step, action_of, run_step, prepare_row,
  or_block, prepare_found, prepare,
}
use rednexus_ai.Worker.Finish.{finish, output}
use rednexus_ai.Worker.Authority.{HoldsLease, prepare-IsAuthorised, IsAuthorised}
use rednexus_ai.Worker.Fence.{claim_exclusive, superseded_worker}

pub prepared :
    prepare env0 reg0 draws0 "r1" "t1" held_db
    ≡ (ok (some handed), (prepare env0 reg0 draws0 "r1" "t1" held_db).1)
unfolding prepare prepare_found find or_block prepare_row actor_for put_run membership require_role
    elem require Registry.get spec_named fingerprint digest condition_matches run_step input_for
    modify put show validate_payload set_field approval_at emit envelope action_of approve_step
    charge check_approval reviewer_of start_step
prepared = refl

prepare-IsAuthorised_example :
    (r : Run) × (find "r1" held_db.runs ≡ some r)
    × (lease_holds "t1" 50 r ≡ true)
    × HoldsLease "t1" 50 r
    × IsAuthorised env0 reg0 draws0 r held_db handed
prepare-IsAuthorised_example =
    prepare-IsAuthorised env0 reg0 draws0 "r1" "t1" held_db handed
      (prepare env0 reg0 draws0 "r1" "t1" held_db).1 prepared

claimed0 : (claim_one env0 50 "r1" "t2" (db_of queued_run pending0)).0 ≡ true
unfolding claim_one find
claimed0 = refl

claim_exclusive_example :
    (claim_one env0 60 "r1" "t3" (claim_one env0 50 "r1" "t2" (db_of queued_run pending0)).1).0
    ≡ false
claim_exclusive_example =
    claim_exclusive env0 50 60 "r1" "t2" "t3" (db_of queued_run pending0) claimed0

superseded_worker_example :
    let d = (claim_one env0 50 "r1" "t2" (db_of queued_run pending0)).1 in
    (prepare env0 reg0 draws0 "r1" "t1" d ≡ (ok none, d))
    × (finish env0 (λ k. 60) "r1" "t1" (output null) d ≡ (ok tt, d))
superseded_worker_example =
    superseded_worker env0 reg0 50 draws0 (λ k. 60) "r1" "t2" "t1" (output null)
      (db_of queued_run pending0) claimed0 refl
