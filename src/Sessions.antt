-- ===== src/Sessions.antt =====
-- The class `Identity` of identity.py and `consume_quota`: sessions, the limit on log-ins, and quotas.
pub mod Revoked
use Prim.Native.String
use rednexus_ai.Base.{
  ℕ, ◌+◌, ◌*◌, ◌≡◌, refl, String, Bool, false, not, Option, none, some, List, [], ◌∷◌, ◌++◌, ◌==◌,
  filter, ltb, leb, if◌then◌else◌, Result, ok, raised, crashed, raise, Bool-cases, inl, inr,
}
use rednexus_ai.Base.Table.{Keyed, find, modify}
use rednexus_ai.Identity.{Actor, actor_for}
use rednexus_ai.Store.{Db, User}

pub record SessionToken : Type 0 where
  pub token_hash : String
  pub user_id : String
  pub workspace : String
  pub expires : ℕ

-- A row of `LoginAttempt` or of `RateBucket`.
pub record Window : Type 0 where
  pub key : String
  pub count : ℕ
  pub window : ℕ

instance abbrev pub session_keyed : Keyed SessionToken
session_keyed = record { key = λ s. s.token_hash }

instance abbrev pub window_keyed : Keyed Window
window_keyed = record { key = λ w. w.key }

pub record Accounts : Type 0 where
  pub db : Db
  pub sessions : List SessionToken
  pub attempts : List Window
  pub buckets : List Window

-- `token_hash`, `str.casefold`, `password_matches`, the hash for users that are not there, and the
-- settings of sessions.
pub record Secrets : Type 0 where
  pub hash : String → String
  pub casefold : String → String
  pub matches : String → String → Bool
  pub dummy_hash : String
  pub second : ℕ
  pub session_seconds : ℕ

pub record LoginInput : Type 0 where
  pub username : String
  pub password : String
  pub workspace : String

open_found : String → ℕ → Option Window → List Window → List Window
open_found k now none ws = ws ++ record { key = k; count = 0; window = now } ∷ []
open_found k now (some w) ws = ws

-- The row of a key, made if it is not there and begun again when its time has passed.
unfoldable pub open_window : String → ℕ → (ℕ → ℕ) → List Window → List Window
unfolding open_found
open_window k span t ws =
    modify k (λ w. if ltb (w.window + span) (t 1) then record w { count = 0; window = t 2 } else w)
      (open_found k (t 0) (find k ws) ws)

below : ℕ → Option Window → Bool
below n none = false
below n (some w) = ltb w.count n

-- Whether one more use is within the limit, and the rows with that use counted.
unfoldable pub hit : String → ℕ → ℕ → (ℕ → ℕ) → List Window → Bool × List Window
unfolding below
hit k n span t ws =
    let rows = open_window k span t ws in
    (
      below n (find k rows),
      modify k (λ w. if ltb w.count n then record w { count = w.count + 1 } else w) rows,
    )

-- `consume_quota(db, key, limit, seconds)`: a use past the limit rolls the window's start back too.
unfoldable pub consume_quota : String → ℕ → ℕ → (ℕ → ℕ) → Accounts → Result (Unit {0}) × Accounts
consume_quota k n span t a =
    let (allowed, rows) = hit k n span t a.buckets in
    if allowed
    then (ok tt, record a { buckets = rows })
    else (raise 429 "request quota exhausted; retry later", a)

attempt_key : Secrets → LoginInput → String
attempt_key s d = s.hash (String.◌++◌ d.workspace (String.◌++◌ "|" (s.casefold d.username)))

unfoldable pub user_named : String → List User → Option User
user_named n [] = none
user_named n (u ∷ us) = if u.username == n then some u else user_named n us

-- The identity that the credentials are for, under the one message for all failures.
unfoldable pub check_login : Secrets → LoginInput → Option User → Db → Result Actor
check_login s d none db = raise 401 "invalid credentials or workspace"
check_login s d (some u) db =
    if s.matches d.password u.password_hash
    then elim (actor_for db u.id d.workspace) [
      | ok a ↦ ok a
      | raised p ↦ raise 401 "invalid credentials or workspace"
      | crashed x ↦ crashed x
    ]
    else raise 401 "invalid credentials or workspace"

-- The session of an identity, and the attempts forgotten.
unfoldable pub grant_session :
    Secrets → LoginInput → String → ℕ → Result Actor → Accounts → Result String × Accounts
unfolding attempt_key
grant_session s d token now (raised p) a = (raised p, a)
grant_session s d token now (crashed x) a = (crashed x, a)
grant_session s d token now (ok actor) a = (
  ok token,
  record a {
    sessions =
        a.sessions
        ++ record {
          token_hash = s.hash token;
          user_id = actor.id;
          workspace = actor.workspace;
          expires = now + s.session_seconds * s.second;
        }
          ∷ [];
    attempts = modify (attempt_key s d) (λ w. record w { count = 0 }) a.attempts;
  },
)

-- The second transaction of `login`, for the token that is drawn.
unfoldable pub open_session :
    Secrets → LoginInput → String → ℕ → Accounts → Result String × Accounts
unfolding grant_session
open_session s d token now a =
    grant_session s d token now (check_login s d (user_named d.username a.db.users) a.db) a

-- `login(data, remote)`: the attempt is counted first, in a transaction of its own.
unfoldable pub login : Secrets → LoginInput → String → (ℕ → ℕ) → Accounts → Result String × Accounts
unfolding attempt_key
login s d token t a =
    let (allowed, rows) = hit (attempt_key s d) 10 (300 * s.second) t a.attempts in
    let a' = record a { attempts = rows } in
    if allowed
    then open_session s d token (t 3) a'
    else (raise 429 "too many login attempts; try again after five minutes", a')

session_of : ℕ → Db → Option SessionToken → Result Actor
session_of now db none = raise 401 "session expired or invalid"
session_of now db (some r) =
    if leb r.expires now
    then raise 401 "session expired or invalid"
    else actor_for db r.user_id r.workspace

-- `authenticate(token)`.
unfoldable pub authenticate : Secrets → String → ℕ → Accounts → Result Actor
unfolding session_of
authenticate s token now a = session_of now a.db (find (s.hash token) a.sessions)

-- `logout(token)`.
unfoldable pub logout : Secrets → String → Accounts → Accounts
logout s token a = record a {
  sessions = filter (λ (r : SessionToken). not (r.token_hash == s.hash token)) a.sessions;
}
