-- ===== src/AdapterSdk/Receipts.antt =====
-- The receipts of `execute`: the transaction before the handler is called, and the one after.
use rednexus_ai.Base.{
  arith, eq_refl, sym, ap, ◌∙◌, ◌≡◌, refl, type_error, String, Option, none, some, List, [], ◌∷◌,
  ◌++◌, ◌==◌, if◌then◌else◌, Result, ok, raised, crashed, raise,
}
use rednexus_ai.Base.Table.{find-append, find-modify_self, Keyed, find, modify}
use rednexus_ai.Json.{Json}
use rednexus_ai.Json.Compare.{Number}
use rednexus_ai.Env.{validate_payload}
use rednexus_ai.AdapterSdk.Requests.{Adapter, ExecutionEnvelope, Ticket, check_request}

pub data Progress : Type 0 where
  started completed : Progress

pub record Receipt : Type 0 where
  pub key : String
  pub fingerprint : String
  pub status : Progress
  pub output : Option String

instance abbrev pub receipt_keyed : Keyed Receipt
receipt_keyed = record { key = λ r. r.key }

-- What a request comes to: a stored answer, or the call of the handler.
pub data Admission : Type 0 where
  answered : Json → Admission
  handled : Ticket → Admission

unfoldable pub stored : Adapter → Option String → Result Admission
stored a none = crashed type_error
stored a (some text) = ok (answered (a.loads text))

unfoldable pub known_receipt : Adapter → Ticket → Receipt → Result Admission
unfolding stored
known_receipt a t r =
    if r.fingerprint == t.fingerprint
    then elim r.status [
      | completed ↦ stored a r.output
      | started ↦ raise 409 "execution uncertain; reconciliation required"
    ]
    else raise 409 "idempotency conflict"

unfoldable pub new_receipt : Ticket → Receipt
new_receipt t = record { key = t.key; fingerprint = t.fingerprint; status = started; output = none }

unfoldable pub open_found :
    Adapter → Ticket → Option Receipt → List Receipt → Result Admission × List Receipt
unfolding known_receipt
open_found a t (some r) rs = (known_receipt a t r, rs)
open_found a t none rs = (ok (handled t), rs ++ new_receipt t ∷ [])

-- The first transaction: a key that was seen is never handled again.
unfoldable pub open_receipt : Adapter → Ticket → List Receipt → Result Admission × List Receipt
unfolding open_found known_receipt stored new_receipt
open_receipt a t rs = open_found a t (find t.key rs) rs

unfoldable pub begin_checked :
    Adapter → Result Ticket → List Receipt → Result Admission × List Receipt
begin_checked a (ok t) rs = open_receipt a t rs
begin_checked a (raised p) rs = (raised p, rs)
begin_checked a (crashed x) rs = (crashed x, rs)

-- `execute` up to the call of the handler.
unfoldable pub begin :
    Adapter
    → String
    → String
    → ExecutionEnvelope
    → Number
    → List Receipt
    → Result Admission × List Receipt
unfolding begin_checked
begin a authorization k d now rs = begin_checked a (check_request a authorization k d now) rs

abbrev pub complete : String → Receipt → Receipt
complete text r = record r { status = completed; output = some text }

unfoldable pub settle_checked :
    Adapter → Ticket → Json → Result (Unit {0}) → List Receipt → Result Json × List Receipt
settle_checked a t v (ok _) rs = (ok v, modify t.key (complete (a.env.canonical v)) rs)
settle_checked a t v _ rs = (raise 502 "adapter execution uncertain; inspect service evidence", rs)

-- The rest of `execute`, with what the handler gave, or `none` if it raised. Every exception
-- becomes one `Problem`.
unfoldable pub settle : Adapter → Ticket → Option Json → List Receipt → Result Json × List Receipt
unfolding settle_checked
settle a t none rs = (raise 502 "adapter execution uncertain; inspect service evidence", rs)
settle a t (some v) rs = settle_checked a t v (validate_payload a.env t.spec.output_schema v) rs

open_found-handled :
    (a : Adapter) (t u : Ticket) (o : Option Receipt) (rs opened : List Receipt)
    → open_found a t o rs ≡ (ok (handled u), opened)
    → (o ≡ none) × (t ≡ u) × (opened ≡ rs ++ new_receipt t ∷ [])
unfolding open_found known_receipt stored
open_found-handled a t u (some r) rs opened e = ground arith
open_found-handled a t u none rs opened e = (refl, cc, cc)

settle_checked-stored :
    (a : Adapter) (t : Ticket) (v w : Json) (m : Result (Unit {0})) (rs closed : List Receipt)
    → settle_checked a t v m rs ≡ (ok w, closed)
    → closed ≡ modify t.key (complete (a.env.canonical w)) rs
unfolding settle_checked
settle_checked-stored a t v w (ok _) rs closed e =
    let same : v ≡ w = cc in
    let moved : modify t.key (complete (a.env.canonical v)) rs ≡ closed = cc in
    sym moved ∙ ap (λ x. modify t.key (complete (a.env.canonical x)) rs) same
settle_checked-stored a t v w (raised p) rs closed e = cc
settle_checked-stored a t v w (crashed x) rs closed e = cc

find-opened :
    (t : Ticket) (rs : List Receipt)
    → find t.key rs ≡ none
    → find t.key (rs ++ new_receipt t ∷ []) ≡ some (new_receipt t)
unfolding new_receipt
find-opened t rs e = rw (find-append t.key (new_receipt t) rs) (rw e (rw (eq_refl t.key)))

replayed :
    (a : Adapter) (t : Ticket) (text : String) (rs : List Receipt)
    → open_found a t (some (complete text (new_receipt t))) rs ≡ (ok (answered (a.loads text)), rs)
unfolding open_found known_receipt stored new_receipt
replayed a t text rs = rw (eq_refl t.fingerprint)

-- A request that is sent again after its handler's answer was stored is given that answer, as
-- `json` writes and reads it, and the handler is not called.
pub settle-open_receipt :
    (a : Adapter) (t : Ticket) (v w : Json) (rs opened closed : List Receipt)
    → open_receipt a t rs ≡ (ok (handled t), opened)
    → settle a t (some v) opened ≡ (ok w, closed)
    → open_receipt a t closed ≡ (ok (answered (a.loads (a.env.canonical w))), closed)
unfolding open_receipt settle
settle-open_receipt a t v w rs opened closed e f =
    let (absent, _, added) = open_found-handled a t t (find t.key rs) rs opened e in
    let written =
      settle_checked-stored a t v w (validate_payload a.env t.spec.output_schema v) opened closed
        f in
    let there =
      find-modify_self t.key (complete (a.env.canonical w)) (rs ++ new_receipt t ∷ []) (λ _. refl)
        (find-opened t rs absent) in
    let place = written ∙ ap (modify t.key (complete (a.env.canonical w))) added in
    ap (λ o. open_found a t o closed) (ap (find t.key) place ∙ there)
    ∙ replayed a t (a.env.canonical w) closed
