-- ===== src/Store/Tables.antt =====
-- The database, and the writes that several operations share.
use rednexus_ai.Base.Ensures.{Ensures}
use rednexus_ai.Base.{
  refl, ◌≡◌, ℕ, String, false, ◌&&◌, Option, none, some, List, [], ◌∷◌, ◌++◌, length, eqb, ◌==◌,
  if◌then◌else◌, Result, ok, raised, crashed,
}
use rednexus_ai.Base.Table.{put, update_where}
use rednexus_ai.Json.{Json, str, obj}
use rednexus_ai.Contracts.Dump.{fields}
use rednexus_ai.Env.{Env, Stamp}
use rednexus_ai.Store.Rows.{
  Run, Approval, User, Membership, Event, Memory, Decision, run_keyed, is_pending,
}
use Prim.Native.String

pub record Db : Type 0 where
  pub users : List User
  pub memberships : List Membership
  pub runs : List Run
  pub approvals : List Approval
  pub events : List Event
  pub memory : List Memory

-- `with db.session.begin() as s`: an exception rolls the transaction back.
abbrev pub transaction {ℓ} : {A : Type ℓ} → Db → Result (A × Db) → Result A × Db
transaction db (ok (a, db')) = (ok a, db')
transaction db (raised p) = (raised p, db)
transaction db (crashed x) = (crashed x, db)

pub transaction-eq-ok {ℓ} :
    {A : Type ℓ} (db : Db) (m : Result (A × Db)) {a : A} {d : Db}
    → transaction db m ≡ (ok a, d)
    → m ≡ ok (a, d)
transaction-eq-ok db (ok (b, x)) h = cc
transaction-eq-ok db (raised p) h = cc
transaction-eq-ok db (crashed x) h = cc

-- What a transaction keeps if its body, when it ends well, keeps it.
pub transaction-keeps {ℓ κ} :
    {A : Type ℓ} (P : Db → Type κ) (db : Db) (m : Result (A × Db))
    → P db
    → Ensures (λ x. P x.1) m
    → P (transaction db m).1
transaction-keeps P db (ok (a, d)) h e = e.at (a, d) refl
transaction-keeps P db (raised p) h e = h
transaction-keeps P db (crashed x) h e = h

-- `session.get(Membership, (workspace, user))`.
unfoldable pub membership : String → String → List Membership → Option Membership
membership w u [] = none
membership w u (m ∷ ms) = if m.workspace == w && m.user_id == u then some m else membership w u ms

-- The approval of one step of a run; the two columns are unique together.
unfoldable pub approval_at : String → ℕ → List Approval → Option Approval
approval_at run i [] = none
approval_at run i (a ∷ rest) =
    if a.run_id == run && eqb a.step i then some a else approval_at run i rest

-- The flush of a changed run.
unfoldable pub put_run : Run → Db → Db
put_run r db = record db { runs = put r db.runs }

abbrev or_else : Option String → String → String
or_else none d = d
or_else (some s) d = s

-- The envelope that `emit` of events.py builds.
unfoldable pub envelope : Stamp → String → String → Json → Option String → Json
envelope st workspace kind payload run = obj (
    fields (
      ("specversion", str "1.0")
      ∷ ("id", str st.id)
      ∷ ("source", str "/rednexus/platform")
      ∷ ("type", str (String.◌++◌ "ai.rednexus." (String.◌++◌ kind ".v1")))
      ∷ ("time", str st.time)
      ∷ ("subject", str (or_else run workspace))
      ∷ ("datacontenttype", str "application/json")
      ∷ ("workspaceid", str workspace)
      ∷ ("correlationid", str (or_else run st.id))
      ∷ ("data", payload)
      ∷ []))

-- `emit(s, workspace, kind, data, run_id)`: one more row of the outbox, not yet published.
unfoldable pub emit : Env → String → String → Json → Option String → Db → Db
emit env workspace kind payload run db =
    let st = env.stamp (length db.events) in
    record db {
      events =
          db.events
          ++ record {
            id = st.id;
            workspace = workspace;
            run_id = run;
            kind = kind;
            body = envelope st workspace kind payload run;
            created = st.created;
            published = false;
          }
            ∷ [];
    }

-- `update(Approval).where(run_id == run, status == "pending").values(status=…)`.
unfoldable pub close_pending : String → Decision → Db → Db
close_pending run d db = record db {
  approvals =
      update_where (λ (a : Approval). a.run_id == run && is_pending a.status)
        (λ a. record a { status = d }) db.approvals;
}
