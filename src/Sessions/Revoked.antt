-- ===== src/Sessions/Revoked.antt =====
-- Sessions that were ended by `logout`, under whatever is served afterwards.
use rednexus_ai.Store.{Db}
use rednexus_ai.Identity.{Actor}
use rednexus_ai.Base.Table.{find, find-append}
use rednexus_ai.Base.{
  ℕ, ◌*◌, ◌≡◌, refl, String, Bool, false, not, none, List, [], ◌∷◌, ◌==◌, filter, Result, ok,
  raised, crashed, raise, Bool-cases, inl, inr, arith,
}
use rednexus_ai.Sessions.{
  grant_session, Accounts, Secrets, LoginInput, SessionToken, session_keyed, check_login,
  open_session, login, authenticate, logout, consume_quota, hit, attempt_key, user_named,
}

-- What is served after: a log-in that draws a token with another hash than the given one's, a
-- log-out, a use of a quota, or a transaction on the other tables, which may change users,
-- memberships and workspaces in any way.
pub data Served (s : Secrets) (token : String) (a : Accounts) : Accounts → Type 0 where
  logging_in :
      (d : LoginInput) (drawn : String) (t : ℕ → ℕ)
      → (s.hash drawn == s.hash token) ≡ false
      → Served s token a (login s d drawn t a).1
  logging_out : (other : String) → Served s token a (logout s other a)
  metering : (k : String) (n span : ℕ) (t : ℕ → ℕ) → Served s token a (consume_quota k n span t a).1
  changing : (db : Db) → Served s token a (record a { db = db })

pub data Serves (s : Secrets) (token : String) (a : Accounts) : Accounts → Type 0 where
  idle : Serves s token a a
  later : {b c : Accounts} → Serves s token a b → Served s token b c → Serves s token a c

abbrev IsGone : Secrets → String → Accounts → Type 0
IsGone s token a = find (s.hash token) a.sessions ≡ none

find-gone :
    (k : String) (rs : List SessionToken)
    → find k (filter (λ (r : SessionToken). not (r.token_hash == k)) rs) ≡ none
unfolding find filter
find-gone k [] = refl
find-gone k (r ∷ rs) = elim (Bool-cases (r.token_hash == k)) [
  | inl same ↦ rw same (find-gone k rs)
  | inr other ↦ rw other (rw other (find-gone k rs))
]

find-filter :
    (k : String) (p : SessionToken → Bool) (rs : List SessionToken)
    → find k rs ≡ none
    → find k (filter p rs) ≡ none
unfolding find filter
find-filter k p [] h = refl
find-filter k p (r ∷ rs) h = ground (arith, find-filter k p rs)

grant_session-IsGone :
    (s : Secrets) (d : LoginInput) (token drawn : String) (now : ℕ) (m : Result Actor)
    (a : Accounts)
    → (s.hash drawn == s.hash token) ≡ false
    → IsGone s token a
    → IsGone s token (grant_session s d drawn now m a).1
unfolding grant_session
grant_session-IsGone s d token drawn now (raised p) a fresh gone = gone
grant_session-IsGone s d token drawn now (crashed x) a fresh gone = gone
grant_session-IsGone s d token drawn now (ok actor) a fresh gone =
    rw (find-append (s.hash token) _ a.sessions) (rw gone (rw fresh refl))

login-IsGone :
    (s : Secrets) (d : LoginInput) (token drawn : String) (t : ℕ → ℕ) (a : Accounts)
    → (s.hash drawn == s.hash token) ≡ false
    → IsGone s token a
    → IsGone s token (login s d drawn t a).1
unfolding login open_session
login-IsGone s d token drawn t a fresh gone =
    let (allowed, rows) = hit (attempt_key s d) 10 (300 * s.second) t a.attempts in
    elim (Bool-cases allowed) [
      | inl within ↦ simp (within) (
          grant_session-IsGone s d token drawn (t 3)
            (check_login s d (user_named d.username a.db.users) a.db) (record a { attempts = rows })
            fresh gone)
      | inr past ↦ simp (past) gone
    ]

consume_quota-IsGone :
    (s : Secrets) (token k : String) (n span : ℕ) (t : ℕ → ℕ) (a : Accounts)
    → IsGone s token a
    → IsGone s token (consume_quota k n span t a).1
unfolding consume_quota
consume_quota-IsGone s token k n span t a gone = elim (Bool-cases (hit k n span t a.buckets).0) [
  | inl within ↦ simp (within) gone
  | inr past ↦ simp (past) gone
]

Served-IsGone :
    (s : Secrets) (token : String) (a b : Accounts)
    → Served s token a b
    → IsGone s token a
    → IsGone s token b
unfolding logout
Served-IsGone s token a b (logging_in d drawn t fresh) gone =
    login-IsGone s d token drawn t a fresh gone
Served-IsGone s token a b (logging_out other) gone =
    find-filter (s.hash token) (λ (r : SessionToken). not (r.token_hash == s.hash other)) a.sessions
      gone
Served-IsGone s token a b (metering k n span t) gone =
    consume_quota-IsGone s token k n span t a gone
Served-IsGone s token a b (changing db) gone = gone

Serves-IsGone :
    (s : Secrets) (token : String) (a b : Accounts)
    → Serves s token a b
    → IsGone s token a
    → IsGone s token b
Serves-IsGone s token a b idle gone = gone
Serves-IsGone s token a c (later {b} before last) gone =
    Served-IsGone s token b c last (Serves-IsGone s token a b before gone)

-- A token that was logged out is refused, whatever the clock says, after any log-ins that draw no
-- token with its hash, log-outs, uses of quotas, and changes of the other tables.
pub Serves-authenticate :
    (s : Secrets) (token : String) (now : ℕ) (a b : Accounts)
    → Serves s token (logout s token a) b
    → authenticate s token now b ≡ raise 401 "session expired or invalid"
unfolding authenticate logout
Serves-authenticate s token now a b path =
    rw (Serves-IsGone s token (logout s token a) b path (find-gone (s.hash token) a.sessions)) refl
