-- ===== src/Core/Submit.antt =====
-- `Nexus.submit`: the plan is a snapshot of the capabilities as they are now.
use Prim.Native.String
use Prim.Native.String.{len}
use rednexus_ai.Base.{
  String, Bool, true, false, ◌&&◌, ◌||◌, Option, none, some, List, [], ◌∷◌, ◌++◌, length, ltb, eqb,
  ◌==◌, if◌then◌else◌, Result, ok, crashed, value_error, key_error, type_error, or_crash, ◌>>=◌,
  ◌>>◌,
}
use rednexus_ai.Json.{Json, Fields, Items, bool, str, obj, arr, end, field, nil, cons, get_field}
use rednexus_ai.Contracts.Dump.{fields, num}
use rednexus_ai.Core.Rows.{Principal, Host, Step, Job, Nexus, Phase, registered, holds, log}

-- `set(step) == {"capability", "input"}` and `step["input"]` is a dict.
two_keys : Fields → Bool
two_keys (field a v (field b w end)) = true
two_keys _ = false

parts_of : Option Json → Option Json → Option (Json × Fields)
parts_of (some c) (some (obj fs)) = some (c, fs)
parts_of _ _ = none

unfoldable pub step_parts : Fields → Option (Json × Fields)
unfolding two_keys parts_of
step_parts raw =
    if two_keys raw then parts_of (get_field "capability" raw) (get_field "input" raw) else none

-- The key of the lookup: a list or a dict has no hash.
capability_key : Json → Result String
capability_key (str s) = ok s
capability_key (arr xs) = crashed type_error
capability_key (obj fs) = crashed type_error
capability_key _ = crashed key_error

unfoldable pub plan_step : Principal → Nexus → Fields → Result Step
unfolding capability_key
plan_step p n raw = do
  parts ← or_crash value_error (step_parts raw)
  name ← capability_key parts.0
  found ← or_crash key_error (registered name n.registry)
  holds p (String.◌++◌ "tool:" found.0.name)
  ok (record {
    capability = found.0.name;
    version = found.0.version;
    approval = found.0.requires_approval;
    input = parts.1;
  })

unfoldable pub plan_steps : Principal → Nexus → List Fields → Result (List Step)
plan_steps p n [] = ok []
plan_steps p n (raw ∷ raws) = do s ← plan_step p n raw; rest ← plan_steps p n raws; ok (s ∷ rest)

dump_plan : List Step → Items
dump_plan [] = nil
dump_plan (s ∷ ss) =
    cons
      (obj (
        fields (
          ("capability", str s.capability)
          ∷ ("version", str s.version)
          ∷ ("approval", bool s.approval)
          ∷ ("input", obj s.input)
          ∷ [])))
      (dump_plan ss)

unfoldable pub job_under : String → String → String → List Job → Option Job
job_under tenant subject k [] = none
job_under tenant subject k (j ∷ js) =
    if j.tenant == tenant && j.subject == subject && j.request_key == k
    then some j
    else job_under tenant subject k js

unfoldable pub new_job : String → Principal → String → List Step → String → Job
new_job i p k plan text = record {
  id = i;
  tenant = p.tenant;
  subject = p.subject;
  request_key = k;
  plan = plan;
  plan_text = text;
  status = Phase.queued;
  cursor = 0;
  outputs = [];
}

-- The row and its event, under the identifier `i` that `uuid4` draws.
unfoldable pub add_job :
    Host → String → Principal → String → List Step → String → Nexus → String × Nexus
unfolding new_job
add_job host i p k plan text n = (
  i,
  log host (new_job i p k plan text) "workflow.submitted"
      (obj (fields (("steps", num (length plan)) ∷ [])))
      (record n { jobs = n.jobs ++ new_job i p k plan text ∷ [] }),
)

unfoldable pub accept :
    Host
    → String
    → Principal
    → String
    → List Step
    → String
    → Option Job
    → Nexus
    → Result (String × Nexus)
accept host i p k plan text (some old) n =
    if old.plan_text == text then ok (old.id, n) else crashed value_error
accept host i p k plan text none n = ok (add_job host i p k plan text n)

-- `submit(principal, steps, request_key)`.
unfoldable pub submit :
    Host → String → Principal → List Fields → String → Nexus → Result (String × Nexus)
unfolding dump_plan
submit host i p raws k n = do
  holds p "workflow:run"
  if k == "" || eqb (length raws) 0 || ltb 20 (length raws) then crashed value_error else do
    plan ← plan_steps p n raws
    let text = host.encode (arr (dump_plan plan))
    if ltb 65536 (len text)
        then crashed value_error
        else accept host i p k plan text (job_under p.tenant p.subject k n.jobs) n
