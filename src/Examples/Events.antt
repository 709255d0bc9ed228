-- ===== src/Examples/Events.antt =====
-- The theorems on the event bus, applied.
use rednexus_ai.Base.Table.{find}
use native.Mathlib.Omega.{arith}
use rednexus_ai.EventBus.Delivered.{publish-delivered, IsMarked}
use rednexus_ai.Base.{filter, ℕ, ◌≡◌, refl, true, false, some, none, [], ◌∷◌, ◌++◌, ok, All}
use rednexus_ai.Json.{str, obj, field, end, get_field}
use rednexus_ai.Json.Compare.{py_eq}
use rednexus_ai.Store.{Event, event_keyed}
use rednexus_ai.EventBus.Publish.{Bus, publish}
use rednexus_ai.EventBus.Outbox.{
  IsHonest, Publishes, emitted, published, interrupted, idle, later, Publishes-IsHonest,
}
use rednexus_ai.EventBus.Consume.{
  store_event, store, acknowledge, receive, Reader, Message, Inbox, consume, consume_from,
  consume_one, consume_body, envelope_of, body_of, truthy,
}
use rednexus_ai.EventBus.Once.{IsNoted, consume_again}

abbrev event0 : Event
event0 = record {
  id = "e1";
  workspace = "w";
  run_id = none;
  kind = "workflow.submitted";
  body = str "body";
  created = 1;
  published = false;
}

abbrev bus0 : Bus
bus0 = record { events = []; sent = [] }

abbrev bus1 : Bus
bus1 = record { events = [] ++ event0 ∷ []; sent = [] ++ event0.body ∷ [] }

published0 : Publishes bus0 (publish (λ _. true) 100 bus1).1
published0 =
    later (later (later idle (emitted event0 refl)) (interrupted event0))
      (published (λ _. true) 100)

Publishes-IsHonest_example : IsHonest (publish (λ _. true) 100 bus1).1
Publishes-IsHonest_example = Publishes-IsHonest bus0 (publish (λ _. true) 100 bus1).1 published0 tt

abbrev reader0 : Reader
reader0 = record {
  loads = λ s. some (
      obj
        (field "specversion" (str "1.0") (field "workspaceid" (str "w") (field "id" (str s) end))));
  column = λ _. ok "e1";
}

abbrev message0 : Message
message0 = record { id = "1-0"; event = some "e1" }

abbrev inbox0 : Inbox
inbox0 = record { receipts = []; replies = [] }

abbrev inbox1 : Inbox
inbox1 = (consume reader0 (λ _. 5) (message0 ∷ []) (message0 ∷ []) inbox0).1

consumed0 : consume reader0 (λ _. 5) (message0 ∷ []) (message0 ∷ []) inbox0 ≡ (ok 2, inbox1)
unfolding consume consume_from consume_one consume_body store_event store acknowledge receive
    envelope_of body_of get_field py_eq truthy find
consumed0 = refl

consume_again_example :
    All (IsNoted reader0 inbox1.receipts) (message0 ∷ message0 ∷ [])
    × ((consume reader0 (λ _. 9) (message0 ∷ message0 ∷ []) [] inbox1).1.receipts ≡ inbox1.receipts)
consume_again_example =
    consume_again reader0 (λ _. 5) (λ _. 9) (message0 ∷ []) (message0 ∷ []) inbox0 inbox1 2
      consumed0

publish-delivered_example :
    (n : ℕ) × ((publish (λ _. true) 100 bus1).0 ≡ ok n)
    × All (λ e. IsMarked (publish (λ _. true) 100 bus1).1.events e.id) bus1.events
unfolding find filter
publish-delivered_example =
    publish-delivered (λ _. true) 100 bus1 (λ _. refl) (refl, tt) (omega arith)
