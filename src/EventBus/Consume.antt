-- ===== src/EventBus/Consume.antt =====
-- `consume`. What Redis delivers, claimed or fresh, is an argument, and so are the readers that are
-- outside: `json.loads`, and the database's text for an identifier that is not one.
use rednexus_ai.Base.{
  ◌>>=◌, ◌∷◌, [], ◌++◌, and_then, ok, none, some, ℕ, zero, suc, ◌+◌, String, Bool, true, false, not,
  ◌&&◌, Option, none, some, List, [], ◌∷◌, ◌++◌, ◌==◌, if◌then◌else◌, Result, ok, and_then,
}
use rednexus_ai.Base.Table.{Keyed, find}
use rednexus_ai.Json.{Json, null, bool, int, float, str, arr, obj, pos, get_field}
use rednexus_ai.Json.{nil, cons, end, field}
use rednexus_ai.Json.Compare.{py_eq}

pub record BusReceipt : Type 0 where
  pub id : String
  pub workspace : String
  pub received : ℕ

instance abbrev pub receipt_keyed : Keyed BusReceipt
receipt_keyed = record { key = λ r. r.id }

-- An entry of the stream: its identifier, and its field `event` if it has one.
pub record Message : Type 0 where
  pub id : String
  pub event : Option String

-- What was sent back to Redis, in order.
pub data Reply : Type 0 where
  acknowledged dead_letter : String → Reply

pub record Inbox : Type 0 where
  pub receipts : List BusReceipt
  pub replies : List Reply

pub record Reader : Type 0 where
  -- `json.loads`, or `none` for the `ValueError`
  pub loads : String → Option Json
  -- the text that a value is bound to a column as, or the driver's exception
  pub column : Json → Result String

-- `not v` is false.
unfoldable pub truthy : Json → Bool
truthy null = false
truthy (bool b) = b
truthy (int (pos zero)) = false
truthy (int _) = true
truthy (float (pos zero) k) = false
truthy (float _ k) = true
truthy (str s) = not (s == "")
truthy (arr nil) = false
truthy (arr (cons x xs)) = true
truthy (obj end) = false
truthy (obj (field k v fs)) = true

truthy_field : Option Json → Bool
truthy_field none = false
truthy_field (some v) = truthy v

is_version : Option Json → Bool
is_version none = false
is_version (some v) = py_eq v (str "1.0")

both : Option Json → Option Json → Option (Json × Json)
both (some a) (some b) = some (a, b)
both _ _ = none

-- The identifier and the workspace of a body that is a valid envelope.
unfoldable pub envelope_of : Option Json → Option (Json × Json)
unfolding truthy_field is_version both
envelope_of (some (obj fs)) =
    if is_version (get_field "specversion" fs)
      && truthy_field (get_field "workspaceid" fs)
      && truthy_field (get_field "id" fs)
    then both (get_field "id" fs) (get_field "workspaceid" fs)
    else none
envelope_of _ = none

unfoldable pub body_of : Reader → Option String → Option Json
body_of r none = none
body_of r (some text) = r.loads text

-- `s.add(BusReceipt(…))` and the flush, which binds the workspace.
unfoldable pub add_receipt : String → ℕ → Result String → List BusReceipt → Result (List BusReceipt)
add_receipt i now w rs = do
  workspace ← w
  ok (rs ++ record { id = i; workspace = workspace; received = now } ∷ [])

-- `if not s.get(BusReceipt, id)`: the workspace is read only when there is no receipt.
unfoldable pub note :
    String → Result String → ℕ → Option BusReceipt → List BusReceipt → Result (List BusReceipt)
unfolding add_receipt
note i w now (some old) rs = ok rs
note i w now none rs = add_receipt i now w rs

unfoldable pub receive : String → Result String → ℕ → List BusReceipt → Result (List BusReceipt)
unfolding note
receive i w now rs = note i w now (find i rs) rs

-- The transaction for a valid message, and its acknowledgement.
unfoldable pub store :
    ℕ → Result String → Result String → List BusReceipt → Result (List BusReceipt)
unfolding receive
store now i w rs = do id ← i; receive id w now rs

unfoldable pub acknowledge : String → Result (List BusReceipt) → Inbox → Result ℕ × Inbox
acknowledge message stored b =
    and_then (stored, b)
      λ rs b. (ok 1, record { receipts = rs; replies = b.replies ++ acknowledged message ∷ [] })

unfoldable pub store_event : ℕ → String → Result String → Result String → Inbox → Result ℕ × Inbox
unfolding store acknowledge
store_event now message i w b = acknowledge message (store now i w b.receipts) b

-- One message: an invalid one is a dead letter, a valid one has a receipt; both are acknowledged.
unfoldable pub consume_body : Reader → ℕ → String → Option (Json × Json) → Inbox → Result ℕ × Inbox
consume_body r now message none b =
    (ok 0, record b { replies = b.replies ++ dead_letter message ∷ acknowledged message ∷ [] })
consume_body r now message (some e) b = store_event now message (r.column e.0) (r.column e.1) b

unfoldable pub consume_one : Reader → ℕ → Message → Inbox → Result ℕ × Inbox
consume_one r now m b = consume_body r now m.id (envelope_of (body_of r m.event)) b

-- The loop over the messages, and how many of them were valid.
unfoldable pub consume_from : Reader → (ℕ → ℕ) → ℕ → ℕ → List Message → Inbox → Result ℕ × Inbox
consume_from r t i n [] b = (ok n, b)
consume_from r t i n (m ∷ ms) b =
    and_then (consume_one r (t i) m b) λ k b. consume_from r t (suc i) (n + k) ms b

-- `consume(consumer, limit)` on what was claimed from other consumers and what is fresh.
unfoldable pub consume : Reader → (ℕ → ℕ) → List Message → List Message → Inbox → Result ℕ × Inbox
consume r t claimed fresh b = consume_from r t 0 0 (claimed ++ fresh) b
