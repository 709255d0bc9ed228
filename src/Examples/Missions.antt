-- ===== src/Examples/Missions.antt =====
-- The theorems on mission groups, on workflows read back from runs, and on ingested events, applied.
use rednexus_ai.Workflows.Flow.{validate_static}
use rednexus_ai.Base.{
  count, count, count, ◌≡◌, refl, true, false, none, [], ◌∷◌, ok, All, elem, leb, filter,
}
use rednexus_ai.Base.Text.{show}
use rednexus_ai.Base.Table.{find}
use rednexus_ai.Json.{end, set_field}
use rednexus_ai.Contracts.Accept.{accept_run, validated}
use rednexus_ai.Env.{digest, validate_payload}
use rednexus_ai.Identity.{Actor, require, require_role, actor_for}
use rednexus_ai.Registry
use rednexus_ai.Registry.{spec_named, fingerprint}
use rednexus_ai.Store.{Run, membership, emit}
use rednexus_ai.Platform.Agents.{ordered, Agent, agent_keyed, get_agent, Rule}
use rednexus_ai.Platform.Ingest.{
  EventInput, Intake, ingest, ingest_in, ingest_found, received_under, fire_rule, fire_rules,
  with_event, accept_event,
}
use rednexus_ai.Platform.Redelivery.{ingest_again}
use rednexus_ai.Extensions.Team.{submit_group-IsScoped, submit_group_again}
use rednexus_ai.Extensions.Readback.{hour, submit-workflow_from_run}
use rednexus_ai.Platform.Redelivery.{ingest_again}
use rednexus_ai.Platform.Submit.{
  submit, submit, submit_in, admit, admit_new, snapshot, snapshot_from, snapshot_step, run_under,
  new_run,
}
use rednexus_ai.Extensions.Groups.{
  GroupInput, MissionGroup, Desk, submit_group, submit_group_in, check_group, admit_group,
  submit_assignments, submit_assignment, in_scope, total_budget, group_under, add_group, new_group,
}
use rednexus_ai.Extensions.Team.{IsScoped, submit_group-IsScoped, submit_group_again}
use rednexus_ai.Extensions.Reruns.{workflow_from_run}
use rednexus_ai.Extensions.Readback.{hour, submit-workflow_from_run}
use rednexus_ai.Examples.World.{env0, reg0, flow0, owner0, empty_db, draws0, queued_run}

abbrev agent1 : Agent
agent1 = record {
  id = "g1";
  workspace = "w";
  owner = "u1";
  definition = record {
    name = "deployer";
    capabilities = "deploy" ∷ [];
    strategy = ordered;
    budget_microunits = 10;
  };
}

abbrev desk0 : Desk
desk0 = record { db = empty_db; agents = agent1 ∷ []; groups = [] }

abbrev mission0 : GroupInput
mission0 = record {
  title = "release";
  assignments = record { agent_id = "g1"; workflow = flow0 } ∷ [];
  budget_microunits = 10;
}

abbrev group0 : MissionGroup
group0 = record {
  id = draws0.uid 0;
  workspace = "w";
  owner = "u1";
  request_key = "k";
  request_digest = "json";
  title = "release";
  runs = record { agent_id = "g1"; run_id = draws0.uid 0 } ∷ [];
  budget = 10;
  created = draws0.clock 0;
}

abbrev desk1 : Desk
desk1 = (submit_group env0 reg0 draws0 (λ _. draws0) owner0 mission0 "k" desk0).1

grouped0 :
    submit_group env0 reg0 draws0 (λ _. draws0) owner0 mission0 "k" desk0 ≡ (ok group0, desk1)
unfolding submit_group submit_group_in check_group admit_group submit_assignments submit_assignment
    in_scope total_budget group_under add_group new_group get_agent find require_role require elem
    submit_in admit admit_new snapshot snapshot_from snapshot_step validate_static run_under new_run
    Registry.get spec_named fingerprint digest show validate_payload emit count
grouped0 = refl

unused0 : group_under "w" "u1" "k" [] ≡ none
unfolding group_under
unused0 = refl

submit_group-IsScoped_example :
    (leb (total_budget mission0.assignments) 10 ≡ true)
    × All (IsScoped owner0 (agent1 ∷ [])) mission0.assignments
submit_group-IsScoped_example =
    submit_group-IsScoped env0 reg0 draws0 (λ _. draws0) owner0 mission0 "k" desk0 desk1 group0
      unused0 grouped0

submit_group_again_example :
    submit_group env0 [] draws0 (λ _. draws0) owner0 mission0 "k" desk1 ≡ (ok group0, desk1)
submit_group_again_example =
    submit_group_again env0 reg0 [] draws0 draws0 (λ _. draws0) (λ _. draws0) owner0 mission0 "k"
      desk0 desk1 group0 grouped0

abbrev run0 : Run
run0 = record queued_run {
  id = "n1";
  created = 50;
  deadline = 1050;
  updated = 50;
  request_key = "k";
}

run_admitted :
    submit env0 reg0 draws0 owner0 flow0 "k" empty_db
    ≡ (ok run0, (submit env0 reg0 draws0 owner0 flow0 "k" empty_db).1)
unfolding submit submit_in admit admit_new snapshot snapshot_from snapshot_step validate_static
    run_under new_run require_role require elem Registry.get spec_named fingerprint digest
    validate_payload emit count
run_admitted = refl

no_run : run_under "w" "u1" "k" [] ≡ none
unfolding run_under
no_run = refl

accepted0 : accept_run env0 (hour flow0) ≡ true
unfolding accept_run
accepted0 = refl

submit-workflow_from_run_example : workflow_from_run env0 run0 ≡ ok (hour flow0)
submit-workflow_from_run_example =
    submit-workflow_from_run env0 reg0 draws0 owner0 flow0 "k" empty_db
      (submit env0 reg0 draws0 owner0 flow0 "k" empty_db).1 run0 no_run accepted0 run_admitted

abbrev producer0 : Actor
producer0 = record owner0 { grants = "tool:deploy" ∷ "events:ingest" ∷ [] }

abbrev rule0 : Rule
rule0 = record {
  id = "l1";
  workspace = "w";
  owner = "u1";
  producer_id = "u1";
  event_type = "build.done";
  source = "ci";
  workflow = flow0;
  enabled = true;
}

abbrev signal0 : EventInput
signal0 = record { id = "x1"; source = "ci"; type = "build.done"; payload = end }

abbrev intake0 : Intake
intake0 = record { db = empty_db; rules = rule0 ∷ []; inbox = [] }

abbrev intake1 : Intake
intake1 = (ingest env0 reg0 "i1" (λ _. draws0) producer0 signal0 intake0).1

ingested0 :
    ingest env0 reg0 "i1" (λ _. draws0) producer0 signal0 intake0
    ≡ (ok (record { duplicate = false; run_ids = "n1" ∷ [] }), intake1)
unfolding ingest ingest_in ingest_found received_under filter fire_rules fire_rule with_event
    set_field accept_event actor_for membership find validated accept_run submit_in admit admit_new
    snapshot snapshot_from snapshot_step validate_static run_under new_run require_role require elem
    Registry.get spec_named fingerprint digest validate_payload emit count
ingested0 = refl

ingest_again_example :
    ingest env0 [] "i2" (λ _. draws0) producer0 signal0 intake1
    ≡ (ok (record { duplicate = true; run_ids = "n1" ∷ [] }), intake1)
ingest_again_example =
    ingest_again env0 reg0 [] "i1" "i2" (λ _. draws0) (λ _. draws0) producer0 signal0 intake0
      intake1 (record { duplicate = false; run_ids = "n1" ∷ [] }) ingested0
