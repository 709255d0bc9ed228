-- ===== src/AdapterSdk/AtMostOnce.antt =====
-- The life of an adapter: requests, answers of handlers in any order, and crashes, which are the
-- answers that never come.
use rednexus_ai.Base.{
  inr, inl, true, Bool-cases, sym, ℕ, ◌≤◌, String, ◌≡◌, refl, sym, Option, none, some, List, [],
  ◌∷◌, ◌++◌, ◌==◌, count, Result, ok, raised, crashed, arith, eq_iff, count-append,
}
use mathlib.Core.Path.{subst}
use rednexus_ai.Base.Table.{find, find-append, find-modify}
use rednexus_ai.Json.{Json}
use rednexus_ai.Json.Compare.{Number}
use rednexus_ai.Env.{validate_payload}
use rednexus_ai.AdapterSdk.Requests.{Adapter, ExecutionEnvelope, Ticket, check_request}
use rednexus_ai.AdapterSdk.Receipts.{
  Receipt, Admission, answered, handled, begin, open_receipt, settle, receipt_keyed, new_receipt,
  open_found, begin_checked, settle_checked, known_receipt, stored, complete,
}

-- The receipts, and the keys that a handler was called for.
pub record Service : Type 0 where
  pub receipts : List Receipt
  pub calls : List String

-- The handler is called exactly when `begin` says so.
unfoldable pub serve : Result Admission × List Receipt → List String → Service
serve (ok (handled t), rs) calls = record { receipts = rs; calls = calls ++ t.key ∷ [] }
serve (ok (answered v), rs) calls = record { receipts = rs; calls = calls }
serve (raised p, rs) calls = record { receipts = rs; calls = calls }
serve (crashed x, rs) calls = record { receipts = rs; calls = calls }

pub data Serves (a : Adapter) (s : Service) : Service → Type 0 where
  requested :
      (authorization k : String) (d : ExecutionEnvelope) (now : Number)
      → Serves a s (serve (begin a authorization k d now s.receipts) s.calls)
  settled :
      (t : Ticket) (answer : Option Json)
      → Serves a s (record s { receipts = (settle a t answer s.receipts).1 })

pub data Runs (a : Adapter) (s : Service) : Service → Type 0 where
  stop : Runs a s s
  more : {t u : Service} → Runs a s t → Serves a t u → Runs a s u

abbrev recorded : Option Receipt → ℕ
recorded none = 0
recorded (some r) = 1

-- No more calls for a key than it has receipts.
abbrev IsRecorded : String → Service → Type 0
IsRecorded k s = count (λ j. j == k) s.calls ≤ recorded (find k s.receipts)

recorded_kept :
    (o n : Option Receipt) → recorded o ≤ recorded (elim o [ some x ↦ some x | none ↦ n ])
recorded_kept none n = ground arith
recorded_kept (some r) n = omega arith

find_same :
    (i k : String) (rs : List Receipt) → (i == k) ≡ true → find i rs ≡ none → find k rs ≡ none
find_same i k rs same e = ground (arith, eq_iff i k)

open_found-IsRecorded :
    (a : Adapter) (t : Ticket) (k : String) (s : Service) (o : Option Receipt)
    → find t.key s.receipts ≡ o
    → IsRecorded k s
    → IsRecorded k (serve (open_found a t o s.receipts) s.calls)
unfolding serve new_receipt open_found known_receipt stored count
open_found-IsRecorded a t k s (some r) e h = ground arith
open_found-IsRecorded a t k s none e h = elim (Bool-cases (t.key == k)) [
  | inl same ↦
      let absent = find_same t.key k s.receipts same e in
      rw (count-append (λ j. j == k) s.calls (t.key ∷ [])) (
        rw (find-append k (new_receipt t) s.receipts)
          (rw same (rw absent (ground (arith, absent)))))
  | inr other ↦ rw (count-append (λ j. j == k) s.calls (t.key ∷ [])) (
      rw (find-append k (new_receipt t) s.receipts)
        (rw other (omega (arith, h, recorded_kept (find k s.receipts) _))))
]

begin_checked-IsRecorded :
    (a : Adapter) (k : String) (s : Service) (m : Result Ticket)
    → IsRecorded k s
    → IsRecorded k (serve (begin_checked a m s.receipts) s.calls)
unfolding serve begin_checked open_receipt
begin_checked-IsRecorded a k s (ok t) h =
    open_found-IsRecorded a t k s (find t.key s.receipts) refl h
begin_checked-IsRecorded a k s (raised p) h = h
begin_checked-IsRecorded a k s (crashed x) h = h

settle_checked-recorded :
    (a : Adapter) (t : Ticket) (v : Json) (m : Result (Unit {0})) (k : String) (rs : List Receipt)
    → recorded (find k (settle_checked a t v m rs).1) ≡ recorded (find k rs)
unfolding settle_checked
settle_checked-recorded a t v (ok _) k rs =
    ground (arith, eq_iff t.key k, find-modify t.key k (complete (a.env.canonical v)) rs (λ _ e. e))
settle_checked-recorded a t v (raised p) k rs = refl
settle_checked-recorded a t v (crashed x) k rs = refl

settle-recorded :
    (a : Adapter) (t : Ticket) (answer : Option Json) (k : String) (rs : List Receipt)
    → recorded (find k (settle a t answer rs).1) ≡ recorded (find k rs)
unfolding settle
settle-recorded a t none k rs = refl
settle-recorded a t (some v) k rs =
    settle_checked-recorded a t v (validate_payload a.env t.spec.output_schema v) k rs

Serves-IsRecorded :
    (a : Adapter) (k : String) (s t : Service) → Serves a s t → IsRecorded k s → IsRecorded k t
unfolding begin
Serves-IsRecorded a k s t (requested authorization i d now) h =
    begin_checked-IsRecorded a k s (check_request a authorization i d now) h
Serves-IsRecorded a k s t (settled ticket answer) h =
    subst (λ n. count (λ j. j == k) s.calls ≤ n)
      (sym (settle-recorded a ticket answer k s.receipts)) h

Runs-IsRecorded :
    (a : Adapter) (k : String) (s t : Service) → Runs a s t → IsRecorded k s → IsRecorded k t
Runs-IsRecorded a k s t stop h = h
Runs-IsRecorded a k s t (more {t = u} before last) h =
    Serves-IsRecorded a k u t last (Runs-IsRecorded a k s u before h)

recorded-bound : (o : Option Receipt) → recorded o ≤ 1
recorded-bound none = omega arith
recorded-bound (some r) = omega arith

-- From an adapter without receipts, no sequence of requests, answers and crashes calls a handler
-- twice for one key.
pub Runs-at_most_once :
    (a : Adapter) (k : String) (s : Service)
    → Runs a (record { receipts = []; calls = [] }) s
    → count (λ j. j == k) s.calls ≤ 1
unfolding count
Runs-at_most_once a k s run = ground (
  arith,
  Runs-IsRecorded a k (record { receipts = []; calls = [] }) s run (omega arith),
  recorded-bound (find k s.receipts),
)
