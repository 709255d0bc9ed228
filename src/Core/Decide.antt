-- ===== src/Core/Decide.antt =====
-- `Nexus.review` and `Nexus.cancel`.
use rednexus_ai.Base.{
  String, Bool, true, false, not, Option, none, some, [], ◌∷◌, ◌++◌, ◌==◌, if◌then◌else◌, Result,
  ok, crashed, permission_error, value_error, integrity_error, ◌>>=◌, ◌>>◌,
}
use rednexus_ai.Json.{bool, str, obj, end}
use rednexus_ai.Contracts.Dump.{fields, num}
use rednexus_ai.Core.Rows.{
  Principal, Host, Job, Verdict, Nexus, Phase, queued, waiting_approval, rejected, cancelled, holds,
  run_of, commit,
}
use rednexus_ai.Core.Advance.{is_parked, verdict_at}

unfoldable pub verdict_of : Principal → Job → Bool → Verdict
verdict_of p j allow = record {
  run_id = j.id;
  step = j.cursor;
  reviewer = p.subject;
  decision = allow;
}

unfoldable pub decided : Bool → Job → Job
decided allow j = record j { status = if allow then queued else rejected }

-- The step of a run has one verdict; a second insertion violates the primary key.
unfoldable pub record_verdict :
    Host → Principal → Job → Bool → Option Verdict → Nexus → Result Nexus
unfolding verdict_of decided
record_verdict host p j allow (some v) n = crashed integrity_error
record_verdict host p j allow none n = ok (
    commit host (decided allow j) "approval.decided"
      (obj (
        fields
          (("step", num j.cursor) ∷ ("reviewer", str p.subject) ∷ ("allowed", bool allow) ∷ [])))
      (record n { verdicts = n.verdicts ++ verdict_of p j allow ∷ [] }))

-- `review(reviewer, run_id, allow)`; that the decision is a Boolean is its type.
unfoldable pub review : Host → Principal → String → Bool → Nexus → Result Nexus
review host p i allow n = do
  holds p "approval:review"
  j ← run_of p i false n
  if j.subject == p.subject
      then crashed permission_error
      else if not (is_parked j.status)
      then crashed value_error
      else record_verdict host p j allow (verdict_at j.id j.cursor n.verdicts) n

abbrev pub is_cancellable : Phase → Bool
is_cancellable queued = true
is_cancellable waiting_approval = true
is_cancellable _ = false

-- `cancel(principal, run_id)`.
unfoldable pub cancel : Host → Principal → String → Nexus → Result Nexus
cancel host p i n = do
  holds p "workflow:run"
  j ← run_of p i true n
  if not (is_cancellable j.status)
      then crashed value_error
      else ok (commit host (record j { status = cancelled }) "workflow.cancelled" (obj end) n)
