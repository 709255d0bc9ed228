-- ===== src/Core/Advance.antt =====
-- `Nexus.advance`: at most one step, between a write that marks the run as running and one that
-- records how the handler ended.
use Prim.Native.String
use Prim.Native.String.{len}
use rednexus_ai.Base.{
  ℕ, ◌+◌, String, Bool, true, false, not, ◌&&◌, ◌||◌, Option, none, some, List, [], ◌∷◌, ◌++◌,
  length, get_elem?, ltb, eqb, ◌==◌, if◌then◌else◌, Result, ok, crashed, or_crash, index_error,
  key_error, runtime_error, ◌>>=◌, ◌>>◌,
}
use rednexus_ai.Json.{Json, str, obj}
use rednexus_ai.Contracts.Dump.{fields, num}
use rednexus_ai.Core.Rows.{
  Principal, Capability, Handler, Handled, Host, Step, Job, Verdict, Nexus, Phase, returned, threw,
  queued, running, waiting_approval, completed, failed, rejected, cancelled, job_keyed, registered,
  holds, run_of, commit, log,
}

abbrev pub is_over : Phase → Bool
is_over completed = true
is_over failed = true
is_over rejected = true
is_over cancelled = true
is_over _ = false

abbrev pub is_busy : Phase → Bool
is_busy running = true
is_busy _ = false

abbrev pub is_parked : Phase → Bool
is_parked waiting_approval = true
is_parked _ = false

-- What `inspect(principal, run_id)` shows.
pub record View : Type 0 where
  pub id : String
  pub status : Phase
  pub cursor : ℕ
  pub outputs : List Json

unfoldable pub inspect : Principal → String → Nexus → Result View
inspect p i n = do
  j ← run_of p i true n
  ok (record { id = j.id; status = j.status; cursor = j.cursor; outputs = j.outputs })

unfoldable pub verdict_at : String → ℕ → List Verdict → Option Verdict
verdict_at i k [] = none
verdict_at i k (v ∷ vs) = if v.run_id == i && eqb v.step k then some v else verdict_at i k vs

-- The output, or the name of the exception: an output over 64 KiB is a `ValueError`.
unfoldable pub run_handler : Host → Handler → Job → Step → Handled
run_handler host h j s = elim (h s.input j.outputs) [
  | threw e ↦ threw e
  | returned v ↦ if ltb 65536 (len (host.encode v)) then threw "ValueError" else returned v
]

unfoldable pub step_event : Job → Capability → Json
step_event j c = obj (fields (("step", num j.cursor) ∷ ("capability", str c.name) ∷ []))

unfoldable pub advanced : Json → Job → Job
advanced v j =
    let cursor = j.cursor + 1 in
    record j {
      cursor = cursor;
      outputs = j.outputs ++ v ∷ [];
      status = if eqb cursor (length j.plan) then completed else queued;
    }

abbrev is_completed : Phase → Bool
is_completed completed = true
is_completed _ = false

-- The last write, by how the handler ended.
unfoldable pub settle_step : Host → Job → Handled → Nexus → Nexus
unfolding advanced
settle_step host j (threw e) n =
    commit host (record j { status = failed }) "step.failed"
      (obj (fields (("step", num j.cursor) ∷ ("error_type", str e) ∷ []))) n
settle_step host j (returned v) n =
    let u = advanced v j in
    let n₁ = commit host u "step.completed" (obj (fields (("step", num j.cursor) ∷ []))) n in
    if is_completed u.status
    then log host u "workflow.completed" (obj (fields (("steps", num u.cursor) ∷ []))) n₁
    else n₁

unfoldable pub execute : Host → Handler → Job → Step → Capability → Nexus → Nexus
execute host h j s c n =
    settle_step host j (run_handler host h j s)
      (commit host (record j { status = running }) "step.started" (step_event j c) n)

-- The step waits for a verdict; the first time it is asked for one.
unfoldable pub park : Host → Job → Capability → Nexus → Nexus
park host j c n =
    if is_parked j.status
    then n
    else commit host (record j { status = waiting_approval }) "approval.requested" (step_event j c)
        n

unfoldable pub by_verdict :
    Host → Handler → Job → Step → Capability → Option Verdict → Nexus → Result Nexus
by_verdict host h j s c none n =
    if s.approval then ok (park host j c n) else ok (execute host h j s c n)
by_verdict host h j s c (some v) n =
    if v.decision then ok (execute host h j s c n) else crashed runtime_error

unfoldable pub next_step : Host → Principal → Job → Nexus → Result Nexus
next_step host p j n = do
  s ← or_crash index_error (get_elem? j.plan j.cursor)
  holds p (String.◌++◌ "tool:" s.capability)
  found ← or_crash key_error (registered s.capability n.registry)
  let c = found.0
  if not (c.version == s.version) || not (same_flag c.requires_approval s.approval)
      then crashed runtime_error
      else by_verdict host found.1 j s c (verdict_at j.id j.cursor n.verdicts) n
  where
    same_flag : Bool → Bool → Bool
    same_flag true b = b
    same_flag false b = not b

unfoldable pub advance_job : Host → Principal → Job → Nexus → Result Nexus
advance_job host p j n =
    if is_over j.status
    then ok n
    else if is_busy j.status
    then crashed runtime_error
    else next_step host p j n

-- `advance(principal, run_id)`: the writes, and what `inspect` then shows.
unfoldable pub advance : Host → Principal → String → Nexus → Result (View × Nexus)
advance host p i n = do
  holds p "workflow:run"
  j ← run_of p i true n
  n' ← advance_job host p j n
  v ← inspect p i n'
  ok (v, n')
