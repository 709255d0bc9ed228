-- ===== src/Examples/Reference.antt =====
-- The theorem on `Nexus.review` of core.py, applied.
use rednexus_ai.Platform.Agents.{agent_keyed}
use rednexus_ai.Contracts.Dump.{fields, num}
use rednexus_ai.Core.Separation.{IsIndependent, review-IsIndependent}
use rednexus_ai.Core.Decide.{decided, verdict_of, record_verdict}
use rednexus_ai.Core.Advance.{verdict_at}
use rednexus_ai.Core.Decide
use rednexus_ai.Core.Rows.{Host, Principal, Job, Nexus, Phase, commit, holds, run_of}
use rednexus_ai.Base.{true, [], ◌∷◌, ◌≡◌, refl, ok, elem}
use rednexus_ai.Base.Table.{find}
use rednexus_ai.Json.{str, bool, obj, end}
use rednexus_ai.Store.{run_keyed}

abbrev host0 : Host
host0 = record { encode = λ _. "json"; stamp = λ n. record { id = "e"; time = "now"; created = n } }

abbrev judge0 : Principal
judge0 = record { subject = "bob"; tenant = "t"; grants = "approval:review" ∷ [] }

abbrev parked_job : Job
parked_job = record {
  id = "j1";
  tenant = "t";
  subject = "ann";
  request_key = "k";
  plan = record { capability = "deploy"; version = "1"; approval = true; input = end } ∷ [];
  plan_text = "json";
  status = Phase.waiting_approval;
  cursor = 0;
  outputs = [];
}

abbrev nexus0 : Nexus
nexus0 = record { registry = []; jobs = parked_job ∷ []; verdicts = []; entries = []; notes = [] }

abbrev after_verdict : Nexus
after_verdict =
    commit host0 (decided true parked_job) "approval.decided"
      (obj (fields (("step", num 0) ∷ ("reviewer", str "bob") ∷ ("allowed", bool true) ∷ [])))
      (record nexus0 { verdicts = verdict_of judge0 parked_job true ∷ [] })

judged : Decide.review host0 judge0 "j1" true nexus0 ≡ ok after_verdict
unfolding Decide.review holds elem run_of find verdict_at record_verdict
judged = refl

review-IsIndependent_example : IsIndependent judge0 "j1" nexus0
review-IsIndependent_example =
    review-IsIndependent host0 judge0 "j1" true nexus0 after_verdict judged
