-- ===== src/Core/Rows.antt =====
-- The state of `Nexus`, its lookups, and its events.
use Prim.Native.String
use rednexus_ai.Base.{
  raised, false, true, ℕ, String, Bool, not, ◌&&◌, ◌||◌, Option, none, some, List, [], ◌∷◌, ◌++◌,
  length, elem, ◌==◌, if◌then◌else◌, Result, ok, crashed, permission_error, value_error, ◌>>=◌,
  ◌>>◌, filter, map,
}
use rednexus_ai.Base.Table.{Keyed, find, put}
use rednexus_ai.Json.{Json, Fields, str, obj}
use rednexus_ai.Contracts.Dump.{fields}
use rednexus_ai.Env.{Stamp}

pub record Principal : Type 0 where
  pub subject : String
  pub tenant : String
  pub grants : List String

pub record Capability : Type 0 where
  pub name : String
  pub project : String
  pub version : String
  pub requires_approval : Bool

pub data Handled : Type 0 where
  returned : Json → Handled
  threw : String → Handled

abbrev pub Handler : Type 0
Handler = Fields → List Json → Handled

-- `encode(value)`, and what an event draws: its identifier and its time.
pub record Host : Type 0 where
  pub encode : Json → String
  pub stamp : ℕ → Stamp

-- One step of the immutable plan.
pub record Step : Type 0 where
  pub capability : String
  pub version : String
  pub approval : Bool
  pub input : Fields

pub data Phase : Type 0 where
  queued running waiting_approval completed failed rejected cancelled : Phase

pub record Job : Type 0 where
  pub id : String
  pub tenant : String
  pub subject : String
  pub request_key : String
  pub plan : List Step
  pub plan_text : String
  pub status : Phase
  pub cursor : ℕ
  pub outputs : List Json

pub record Verdict : Type 0 where
  pub run_id : String
  pub step : ℕ
  pub reviewer : String
  pub decision : Bool

pub record Entry : Type 0 where
  pub tenant : String
  pub run_id : String
  pub body : Json

pub record Note : Type 0 where
  pub tenant : String
  pub namespace : String
  pub key : String
  pub value : Json
  pub source : String
  pub updated : String

pub record Nexus : Type 0 where
  pub registry : List (Capability × Handler)
  pub jobs : List Job
  pub verdicts : List Verdict
  pub entries : List Entry
  pub notes : List Note

instance abbrev pub job_keyed : Keyed Job
job_keyed = record { key = λ j. j.id }

-- `self.registry[name]`.
unfoldable pub registered : String → List (Capability × Handler) → Option (Capability × Handler)
registered n [] = none
registered n (c ∷ cs) = if c.0.name == n then some c else registered n cs

is_some {ℓ} : {A : Type ℓ} → Option A → Bool
is_some none = false
is_some (some x) = true

-- `register(capability, handler)`; that the handler can be called is its type.
unfoldable pub register : Capability → Handler → Nexus → Result (Unit {0}) × Nexus
unfolding is_some
register c h n =
    if is_some (registered c.name n.registry)
    then (crashed value_error, n)
    else (ok tt, record n { registry = n.registry ++ (c, h) ∷ [] })

-- `require(principal, grant)`.
unfoldable pub holds : Principal → String → Result (Unit {0})
holds p grant = if elem grant p.grants then ok tt else crashed permission_error

-- `_run(principal, run_id, owner)`.
unfoldable pub run_of : Principal → String → Bool → Nexus → Result Job
run_of p i owner n = elim (find i n.jobs) [
  | none ↦ crashed permission_error
  | some j ↦
      if j.tenant == p.tenant && (not owner || j.subject == p.subject)
      then ok j
      else crashed permission_error
]

-- The event that `_event(row, kind, data)` stores.
unfoldable pub entry_of : Stamp → Job → String → Json → Entry
entry_of st j kind payload = record {
  tenant = j.tenant;
  run_id = j.id;
  body = obj (
      fields (
        ("specversion", str "1.0")
        ∷ ("id", str st.id)
        ∷ ("source", str "/rednexus/core")
        ∷ ("type", str (String.◌++◌ "ai.rednexus." (String.◌++◌ kind ".v1")))
        ∷ ("time", str st.time)
        ∷ ("subject", str j.id)
        ∷ ("datacontenttype", str "application/json")
        ∷ ("tenantid", str j.tenant)
        ∷ ("correlationid", str j.id)
        ∷ ("data", payload)
        ∷ []));
}

unfoldable pub log : Host → Job → String → Json → Nexus → Nexus
log host j kind payload n = record n {
  entries = n.entries ++ entry_of (host.stamp (length n.entries)) j kind payload ∷ [];
}

-- One `with self.db`: the row is updated, and an event stored.
unfoldable pub commit : Host → Job → String → Json → Nexus → Nexus
commit host j kind payload n = log host j kind payload (record n { jobs = put j n.jobs })

-- `events(principal, run_id)`.
unfoldable pub events : Principal → String → Nexus → Result (List Json)
events p i n = do
  j ← run_of p i true n
  ok (
      map (λ (e : Entry). e.body)
        (filter (λ (e : Entry). e.run_id == i && e.tenant == p.tenant) n.entries))

memory_grant : String → String → String
memory_grant space suffix = String.◌++◌ "memory:" (String.◌++◌ space suffix)

same_note : String → String → String → Note → Bool
same_note tenant space k x = x.tenant == tenant && x.namespace == space && x.key == k

-- `INSERT OR REPLACE`: the row under the key, if there is one, gives way to the new one.
unfoldable pub remember :
    Principal → String → String → Json → String → String → Nexus → Result (Unit {0}) × Nexus
unfolding memory_grant same_note
remember p space k v source now n = elim (holds p (memory_grant space ":write")) [
  | raised q ↦ (raised q, n)
  | crashed x ↦ (crashed x, n)
  | ok _ ↦ if source == "" then (crashed value_error, n) else (
    ok tt,
    record n {
      notes =
          filter (λ x. not (same_note p.tenant space k x)) n.notes
          ++ record {
            tenant = p.tenant;
            namespace = space;
            key = k;
            value = v;
            source = source;
            updated = now;
          }
            ∷ [];
    },
  )
]

unfoldable pub first_note : String → String → String → List Note → Option Note
unfolding same_note
first_note tenant space k [] = none
first_note tenant space k (x ∷ xs) =
    if same_note tenant space k x then some x else first_note tenant space k xs

-- `recall(principal, namespace, key)`.
unfoldable pub recall : Principal → String → String → Nexus → Result (Option Note)
unfolding memory_grant
recall p space k n = do
  holds p (memory_grant space ":read")
  ok (first_note p.tenant space k n.notes)
