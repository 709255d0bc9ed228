-- ===== src/Store/Rows.antt =====
-- Rows. Columns of a fixed set of texts are data types, and times are readings of the clock.
use rednexus_ai.Base.{ℕ, String, Bool, true, false, Option, List}
use rednexus_ai.Base.Table.{Keyed}
use rednexus_ai.Json.{Json}
use rednexus_ai.Contracts.{CapabilitySpec, StepInput}

pub data Status : Type 0 where
  queued running waiting_approval retry_wait needs_reconciliation : Status
  completed failed cancelled rejected expired blocked : Status

-- One entry of `Run.plan`: the step as submitted, with the contract that it was admitted under. The
-- column holds their dumps in one JSON object; here the entry stays typed.
pub record PlanStep : Type 0 where
  pub step : StepInput
  pub contract : CapabilitySpec
  pub fingerprint : String

pub record Run : Type 0 where
  pub id : String
  pub workspace : String
  pub owner : String
  pub title : String
  pub request_key : String
  pub request_digest : String
  pub plan : List PlanStep
  pub status : Status
  pub cursor : ℕ
  pub outputs : List Json
  pub created : ℕ
  pub deadline : ℕ
  pub updated : ℕ
  pub next_attempt : ℕ
  pub attempts : ℕ
  pub tool_calls : ℕ
  pub max_tool_calls : ℕ
  pub cost : ℕ
  pub budget : ℕ
  pub lease_token : Option String
  pub lease_until : Option ℕ
  pub error : Option String
  pub cancel_requested : Bool

pub data Decision : Type 0 where
  pending approved rejected expired cancelled : Decision

pub record Approval : Type 0 where
  pub id : String
  pub workspace : String
  pub run_id : String
  pub step : ℕ
  pub action_digest : String
  pub action : Json
  pub status : Decision
  pub expires : ℕ
  pub reviewer : Option String
  pub reason : Option String

pub record User : Type 0 where
  pub id : String
  pub username : String
  pub password_hash : String
  pub kind : String
  pub enabled : Bool

pub record Membership : Type 0 where
  pub workspace : String
  pub user_id : String
  pub role : String
  pub grants : List String
  pub enabled : Bool

-- A row of the transactional outbox.
pub record Event : Type 0 where
  pub id : String
  pub workspace : String
  pub run_id : Option String
  pub kind : String
  pub body : Json
  pub created : ℕ
  pub published : Bool

pub record Memory : Type 0 where
  pub id : String
  pub workspace : String
  pub namespace : String
  pub key : String
  pub version : ℕ
  pub text : String
  pub source : String
  pub author : String
  pub created : ℕ
  pub expires : ℕ
  pub deleted : Bool

instance abbrev pub run_keyed : Keyed Run
run_keyed = record { key = λ r. r.id }

instance abbrev pub approval_keyed : Keyed Approval
approval_keyed = record { key = λ a. a.id }

instance abbrev pub user_keyed : Keyed User
user_keyed = record { key = λ u. u.id }

instance abbrev pub event_keyed : Keyed Event
event_keyed = record { key = λ e. e.id }

instance abbrev pub memory_keyed : Keyed Memory
memory_keyed = record { key = λ m. m.id }

-- The tests of a status that the queries make.
abbrev pub is_running : Status → Bool
is_running running = true
is_running _ = false

abbrev pub is_waiting : Status → Bool
is_waiting waiting_approval = true
is_waiting _ = false

abbrev pub is_uncertain : Status → Bool
is_uncertain needs_reconciliation = true
is_uncertain _ = false

-- `status.in_(["queued", "retry_wait"])`
abbrev pub is_claimable : Status → Bool
is_claimable queued = true
is_claimable retry_wait = true
is_claimable _ = false

-- `status.in_(["queued", "retry_wait", "waiting_approval"])`
abbrev pub is_idle : Status → Bool
is_idle queued = true
is_idle retry_wait = true
is_idle waiting_approval = true
is_idle _ = false

-- `status.in_(["queued", "running", "retry_wait", "waiting_approval"])`
abbrev pub is_active : Status → Bool
is_active queued = true
is_active running = true
is_active retry_wait = true
is_active waiting_approval = true
is_active _ = false

abbrev pub is_completed : Status → Bool
is_completed completed = true
is_completed _ = false

abbrev pub is_pending : Decision → Bool
is_pending pending = true
is_pending _ = false

abbrev pub is_approved : Decision → Bool
is_approved approved = true
is_approved _ = false

unfoldable pub status_text : Status → String
status_text queued = "queued"
status_text running = "running"
status_text waiting_approval = "waiting_approval"
status_text retry_wait = "retry_wait"
status_text needs_reconciliation = "needs_reconciliation"
status_text completed = "completed"
status_text failed = "failed"
status_text cancelled = "cancelled"
status_text rejected = "rejected"
status_text expired = "expired"
status_text blocked = "blocked"
