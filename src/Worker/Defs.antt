-- ===== src/Worker/Defs.antt =====
-- What the methods of the worker share.
use rednexus_ai.Base.{ℕ, String, Bool, false, ◌&&◌, Option, none, some, ltb, ◌==◌}
use rednexus_ai.Json.{Json}
use rednexus_ai.Store.{Run, is_running}

-- `lease_until > now`, where NULL compares false.
abbrev pub lease_open : Option ℕ → ℕ → Bool
lease_open none now = false
lease_open (some u) now = ltb now u

abbrev pub token_is : Option String → String → Bool
token_is none t = false
token_is (some s) t = s == t

-- The fence of `prepare` and `finish`: the run is running, and this worker holds its open lease.
abbrev pub lease_holds : String → ℕ → Run → Bool
lease_holds token now r =
    is_running r.status && token_is r.lease_token token && lease_open r.lease_until now

-- `AdapterFailure(code, retryable, http_status)`.
pub record Failure : Type 0 where
  pub code : String
  pub retryable : Bool
  pub http_status : Option ℕ

-- How the gateway's `execute` ends: with an output, with a failure, by the timeout around it, or
-- with any other exception.
pub data Reply : Type 0 where
  delivered : Json → Reply
  failure : Failure → Reply
  timed_out broke : Reply
