-- ===== src/EventBus/Once.antt =====
-- A message that is delivered again has no second receipt.
use rednexus_ai.Base.Ensures.{Ensures, Ensures-ok, Ensures-bind}
use rednexus_ai.Base.{
  and_then-eq-ok, All-append, ap, sym, ◌∙◌, All, ◌++◌, ◌+◌, suc, and_then-keeps, ℕ, suc, ◌+◌, ◌≡◌,
  refl, sym, ap, ◌∙◌, String, Bool, true, false, Option, none, some, List, [], ◌∷◌, ◌++◌, Result,
  ok, raised, crashed, arith, All, eq_refl,
}
use mathlib.Core.Path.{subst}
use rednexus_ai.Base.Table.{find, find-append}
use rednexus_ai.Json.{Json}
use rednexus_ai.EventBus.Consume.{
  store_event, store, acknowledge, receive, add_receipt, consume, note, consume_body, Inbox,
  receive, consume_from, consume_one, note, consume_body, Inbox, BusReceipt, receipt_keyed, Message,
  Inbox, Reader, envelope_of, body_of, note, receive, consume_body, consume_one, consume_from,
  consume,
}

is_some : Option BusReceipt → Bool
is_some none = false
is_some (some r) = true

id_of : Result String → Option String
id_of (ok i) = some i
id_of (raised p) = none
id_of (crashed x) = none

unfoldable pub receipt_id : Reader → Option (Json × Json) → Option String
unfolding id_of
receipt_id r none = none
receipt_id r (some e) = id_of (r.column e.0)

unfoldable pub has_receipt : Option String → List BusReceipt → Bool
unfolding is_some
has_receipt none rs = true
has_receipt (some i) rs = is_some (find i rs)

-- A message that is a valid event has a receipt.
abbrev pub IsNoted : Reader → List BusReceipt → Message → Type 0
IsNoted r rs m = has_receipt (receipt_id r (envelope_of (body_of r m.event))) rs ≡ true

is_some-kept :
    (o n : Option BusReceipt)
    → is_some o ≡ true
    → is_some (elim o [ some x ↦ some x | none ↦ n ]) ≡ true
unfolding is_some
is_some-kept none n h = cc
is_some-kept (some x) n h = h

note-kept :
    (i : String) (w : Result String) (now : ℕ) (o : Option BusReceipt) (rs : List BusReceipt)
    (k : Option String)
    → has_receipt k rs ≡ true
    → Ensures (λ us. has_receipt k us ≡ true) (note i w now o rs)
unfolding note add_receipt has_receipt
note-kept i w now (some old) rs k h = Ensures-ok rs h
note-kept i w now none rs none h = record { at = λ us e. refl }
note-kept i w now none rs (some j) h = Ensures-bind w _ λ text bound.
    Ensures-ok (rs ++ record { id = i; workspace = text; received = now } ∷ [])
      (rw (find-append j _ rs) (is_some-kept (find j rs) _ h))

note-noted :
    (i : String) (w : Result String) (now : ℕ) (o : Option BusReceipt) (rs : List BusReceipt)
    → find i rs ≡ o
    → Ensures (λ us. has_receipt (some i) us ≡ true) (note i w now o rs)
unfolding note add_receipt has_receipt
note-noted i w now (some old) rs e = Ensures-ok rs (rw e refl)
note-noted i w now none rs e = Ensures-bind w _ λ text bound.
    Ensures-ok (rs ++ record { id = i; workspace = text; received = now } ∷ [])
      (rw (find-append i _ rs) (rw e (rw (eq_refl i) refl)))

note-same :
    (i : String) (w : Result String) (now : ℕ) (o : Option BusReceipt) (rs : List BusReceipt)
    → find i rs ≡ o
    → has_receipt (some i) rs ≡ true
    → note i w now o rs ≡ ok rs
unfolding note has_receipt
note-same i w now (some old) rs e h = refl
note-same i w now none rs e h = absurd (ground (arith, e, h))

abbrev Has : Option String → Inbox → Type 0
Has k b = has_receipt k b.receipts ≡ true

acknowledge-Has :
    (i : String) (stored : Result (List BusReceipt)) (b : Inbox) (k : Option String)
    → Ensures (λ us. has_receipt k us ≡ true) stored
    → Has k b
    → Has k (acknowledge i stored b).1
unfolding acknowledge
acknowledge-Has i (ok us) b k kept h = kept.at us refl
acknowledge-Has i (raised p) b k kept h = h
acknowledge-Has i (crashed x) b k kept h = h

consume_body-Has :
    (r : Reader) (now : ℕ) (i : String) (e : Option (Json × Json)) (b : Inbox) (k : Option String)
    → Has k b
    → Has k (consume_body r now i e b).1
unfolding consume_body store_event store receive
consume_body-Has r now i none b k h = h
consume_body-Has r now i (some e) b k h =
    acknowledge-Has i (store now (r.column e.0) (r.column e.1) b.receipts) b k
      (Ensures-bind (r.column e.0) _
        λ id bound. note-kept id (r.column e.1) now (find id b.receipts) b.receipts k h)
      h

consume_from-Has :
    (r : Reader) (t : ℕ → ℕ) (i n : ℕ) (ms : List Message) (b : Inbox) (k : Option String)
    → Has k b
    → Has k (consume_from r t i n ms b).1
unfolding consume_from consume_one
consume_from-Has r t i n [] b k h = h
consume_from-Has r t i n (m ∷ ms) b k h =
    and_then-keeps (Has k) (consume_one r (t i) m b) _
      (consume_body-Has r (t i) m.id (envelope_of (body_of r m.event)) b k h)
      λ j c g. consume_from-Has r t (suc i) (n + j) ms c k g

acknowledge-noted :
    (i : String) (stored : Result (List BusReceipt)) (b : Inbox) (k : Option String) {j : ℕ}
    {b' : Inbox}
    → Ensures (λ us. has_receipt k us ≡ true) stored
    → acknowledge i stored b ≡ (ok j, b')
    → Has k b'
unfolding acknowledge
acknowledge-noted i (ok us) b k noted h = subst (Has k) (ap (λ x. x.1) h) (noted.at us refl)
acknowledge-noted i (raised p) b k noted h = cc
acknowledge-noted i (crashed x) b k noted h = cc

store-noted :
    (now : ℕ) (i w : Result String) (rs : List BusReceipt)
    → Ensures (λ us. has_receipt (id_of i) us ≡ true) (store now i w rs)
unfolding store receive id_of
store-noted now (ok id) w rs = note-noted id w now (find id rs) rs refl
store-noted now (raised p) w rs = record { at = λ us e. absurd (cc) }
store-noted now (crashed x) w rs = record { at = λ us e. absurd (cc) }

consume_body-noted :
    (r : Reader) (now : ℕ) (i : String) (e : Option (Json × Json)) (b : Inbox) {j : ℕ} {b' : Inbox}
    → consume_body r now i e b ≡ (ok j, b')
    → Has (receipt_id r e) b'
unfolding consume_body store_event receipt_id has_receipt
consume_body-noted r now i none b h = refl
consume_body-noted r now i (some e) b h =
    acknowledge-noted i (store now (r.column e.0) (r.column e.1) b.receipts) b
      (id_of (r.column e.0)) (store-noted now (r.column e.0) (r.column e.1) b.receipts) h

store_event_again :
    (now : ℕ) (m : String) (i w : Result String) (b : Inbox)
    → Has (id_of i) b
    → (store_event now m i w b).1.receipts ≡ b.receipts
unfolding store_event acknowledge store receive id_of
store_event_again now m (ok id) w b h =
    rw (note-same id w now (find id b.receipts) b.receipts refl h) refl
store_event_again now m (raised p) w b h = refl
store_event_again now m (crashed x) w b h = refl

consume_body_again :
    (r : Reader) (now : ℕ) (i : String) (e : Option (Json × Json)) (b : Inbox)
    → Has (receipt_id r e) b
    → (consume_body r now i e b).1.receipts ≡ b.receipts
unfolding consume_body receipt_id
consume_body_again r now i none b h = refl
consume_body_again r now i (some e) b h = store_event_again now i (r.column e.0) (r.column e.1) b h

consume_from-IsNoted :
    (r : Reader) (t : ℕ → ℕ) (i n : ℕ) (ms : List Message) (b : Inbox) {k : ℕ} {b' : Inbox}
    → consume_from r t i n ms b ≡ (ok k, b')
    → All (IsNoted r b'.receipts) ms
unfolding consume_from consume_one
consume_from-IsNoted r t i n [] b h = tt
consume_from-IsNoted r t i n (m ∷ ms) b h =
    let (j, c, first, rest) = and_then-eq-ok (consume_one r (t i) m b) _ h in
    let noted = consume_body-noted r (t i) m.id (envelope_of (body_of r m.event)) b first in
    (
      subst (Has (receipt_id r (envelope_of (body_of r m.event)))) (ap (λ x. x.1) rest)
          (consume_from-Has r t (suc i) (n + j) ms c _ noted),
      consume_from-IsNoted r t (suc i) (n + j) ms c rest,
    )

consume_from_again :
    (r : Reader) (t : ℕ → ℕ) (i n : ℕ) (ms : List Message) (b : Inbox)
    → All (IsNoted r b.receipts) ms
    → (consume_from r t i n ms b).1.receipts ≡ b.receipts
unfolding consume_from consume_one
consume_from_again r t i n [] b h = refl
consume_from_again r t i n (m ∷ ms) b (h, hs) =
    and_then-keeps (λ c. c.receipts ≡ b.receipts) (consume_one r (t i) m b) _
      (consume_body_again r (t i) m.id (envelope_of (body_of r m.event)) b h)
      λ j c same.
        consume_from_again r t (suc i) (n + j) ms c
          (subst (λ rs. All (IsNoted r rs) ms) (sym same) hs)
        ∙ same

-- When `consume` has gone through what was delivered, each valid event of it has a receipt, and
-- delivering the same messages again, in any claim and at any time, adds none.
pub consume_again :
    (r : Reader) (t t' : ℕ → ℕ) (claimed fresh : List Message) (b b' : Inbox) (n : ℕ)
    → consume r t claimed fresh b ≡ (ok n, b')
    → All (IsNoted r b'.receipts) (claimed ++ fresh)
      × ((consume r t' (claimed ++ fresh) [] b').1.receipts ≡ b'.receipts)
unfolding consume
consume_again r t t' claimed fresh b b' n h =
    let noted = consume_from-IsNoted r t 0 0 (claimed ++ fresh) b h in
    (
      noted,
      consume_from_again r t' 0 0 ((claimed ++ fresh) ++ []) b'
          (All-append (IsNoted r b'.receipts) (claimed ++ fresh) [] noted tt),
    )
