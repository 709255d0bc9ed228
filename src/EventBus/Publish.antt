-- ===== src/EventBus/Publish.antt =====
-- `publish`.
use rednexus_ai.Base.{
  true, false, ℕ, ◌+◌, String, Bool, true, not, Option, none, some, List, [], ◌∷◌, ◌++◌, filter,
  map, leb, if◌then◌else◌, Result, ok, crashed, and_then, attribute_error, runtime_error,
}
use rednexus_ai.Base.Sorting.{sort, first_rows}
use rednexus_ai.Base.Table.{find, modify}
use rednexus_ai.Json.{Json}
use rednexus_ai.Store.{Event, event_keyed}

-- The outbox, and the bodies that `xadd` has put into the stream.
pub record Bus : Type 0 where
  pub events : List Event
  pub sent : List Json

abbrev pub older_event : Event → Event → Bool
older_event e d = leb e.created d.created

-- `select(Event.id).where(published.is_(False)).order_by(created).limit(limit)`.
unfoldable pub unpublished : ℕ → List Event → List String
unpublished n es =
    map (λ (e : Event). e.id)
      (first_rows n (sort older_event (filter (λ (e : Event). not e.published) es)))

abbrev pub publish_row : Event → Event
publish_row e = record e { published = true }

unfoldable pub send : Bool → Event → Bus → Result ℕ × Bus
send false e b = (crashed runtime_error, b)
send true e b =
    (ok 1, record { events = modify e.id publish_row b.events; sent = b.sent ++ e.body ∷ [] })

unfoldable pub publish_found : Bool → Option Event → Bus → Result ℕ × Bus
unfolding send
publish_found up none b = (crashed attribute_error, b)
publish_found up (some e) b = if e.published then (ok 0, b) else send up e b

-- The transaction for one event, where `up` says whether `xadd` returns or raises.
unfoldable pub publish_one : Bool → String → Bus → Result ℕ × Bus
publish_one up i b = publish_found up (find i b.events) b

unfoldable pub publish_ids : (ℕ → Bool) → ℕ → List String → Bus → Result ℕ × Bus
publish_ids up k [] b = (ok k, b)
publish_ids up k (i ∷ is) b = and_then (publish_one (up k) i b) λ n b. publish_ids up (k + n) is b

-- `publish(limit)`: how many events it has sent. `up k` is about the call of `xadd` after k calls.
unfoldable pub publish : (ℕ → Bool) → ℕ → Bus → Result ℕ × Bus
publish up limit b = publish_ids up 0 (unpublished limit b.events) b
