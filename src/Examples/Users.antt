-- ===== src/Examples/Users.antt =====
-- The theorems on what users do to runs in service.py, applied.
use rednexus_ai.Examples.World.{
  env0, reg0, flow0, owner0, reviewer0, queued_run, waiting_run, pending0, db_of, draws0,
}
use rednexus_ai.Platform.Agents.{agent_keyed}
use rednexus_ai.Base.{arith, true, [], ◌≡◌, refl, ok, elem, count}
use rednexus_ai.Base.Table.{find, modify}
use rednexus_ai.Contracts.{ReviewInput}
use rednexus_ai.Env.{digest}
use rednexus_ai.Identity.{require_role, require}
use rednexus_ai.Registry
use rednexus_ai.Registry.{fingerprint, spec_named, Registry}
use rednexus_ai.Store.{envelope, emit, run_keyed}
use rednexus_ai.Platform.Submit.{submit_in, admit, run_under, submit}
use rednexus_ai.Platform.Review.{
  approval_in, check_review, write_review, review_in, decide_row, resume_row, decide, review,
}
use rednexus_ai.Platform.Admission.{submit_again, submit-InQuota, InQuota}
use rednexus_ai.Platform.Consent.{review-IsConsent, IsConsent}

approval_input : ReviewInput
approval_input = record { allow = true; digest = "json"; reason = "reviewed" }

reviewed : review env0 reg0 (λ k. 50) reviewer0 "a1" approval_input (db_of waiting_run pending0) ≡ (
  ok tt,
  (review env0 reg0 (λ k. 50) reviewer0 "a1" approval_input (db_of waiting_run pending0)).1,
)
unfolding approval_input review review_in require_role require elem find approval_in check_review
    write_review Registry.get spec_named decide_row resume_row decide modify emit envelope
reviewed = refl

review-IsConsent_example :
    IsConsent reg0
      (λ k. 50)
      reviewer0
      "a1"
      approval_input
      (db_of waiting_run pending0)
      (review env0 reg0 (λ k. 50) reviewer0 "a1" approval_input (db_of waiting_run pending0)).1
review-IsConsent_example =
    review-IsConsent env0 reg0 (λ k. 50) reviewer0 "a1" approval_input (db_of waiting_run pending0)
      (review env0 reg0 (λ k. 50) reviewer0 "a1" approval_input (db_of waiting_run pending0)).1
      reviewed

submitted :
    submit env0 reg0 draws0 owner0 flow0 "k" (db_of queued_run pending0)
    ≡ (ok queued_run, db_of queued_run pending0)
unfolding submit submit_in admit run_under digest
submitted = refl

submit_again_example :
    submit env0 [] draws0 owner0 flow0 "k" (db_of queued_run pending0)
    ≡ (ok queued_run, db_of queued_run pending0)
unfolding digest
submit_again_example =
    submit_again env0 reg0 [] draws0 draws0 owner0 flow0 flow0 "k" queued_run
      (db_of queued_run pending0) (db_of queued_run pending0) submitted

room : InQuota "w" (db_of queued_run pending0)
unfolding count
room = omega arith

submit-InQuota_example :
    InQuota "w" (submit env0 reg0 draws0 owner0 flow0 "k2" (db_of queued_run pending0)).1
submit-InQuota_example =
    submit-InQuota env0 reg0 draws0 owner0 flow0 "k2" (db_of queued_run pending0) "w" room
