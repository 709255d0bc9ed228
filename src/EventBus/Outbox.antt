-- ===== src/EventBus/Outbox.antt =====
-- No event is marked as published that was not sent, whatever is interrupted.
use mathlib.Core.List.{Mem, mem-append_right, mem-append_left, mem-cons_self, mem-append_right}
use rednexus_ai.Base.{
  All-append, and_then-keeps, Bool-cases, All-map, refl, ◌+◌, ℕ, ◌+◌, String, ◌≡◌, refl, Bool, true,
  false, Option, none, some, List, [], ◌∷◌, ◌++◌, ◌⊎◌, inl, inr, All, All-map, All-append,
  and_then-keeps, Bool-cases,
}
use rednexus_ai.Base.Table.{All-modify, find_again, All-modify, find_again, find}
use rednexus_ai.Json.{Json}
use rednexus_ai.Store.{Event, event_keyed}
use rednexus_ai.EventBus.Publish.{
  send, Bus, publish_row, publish_found, publish_one, publish_ids, publish, unpublished,
}

-- The event waits, or its body was sent.
abbrev pub IsSent : List Json → Event → Type 0
IsSent sent e = (e.published ≡ false) ⊎ Mem e.body sent

abbrev pub IsHonest : Bus → Type 0
IsHonest b = All (IsSent b.sent) b.events

-- What happens to the outbox: a transaction of the program adds an event, an event is sent and
-- marked, or the process ends after it was sent and before it was marked.
pub data Publishing (b : Bus) : Bus → Type 0 where
  emitted :
      (e : Event) → e.published ≡ false → Publishing b (record b { events = b.events ++ e ∷ [] })
  published : (up : ℕ → Bool) (limit : ℕ) → Publishing b (publish up limit b).1
  interrupted : (e : Event) → Publishing b (record b { sent = b.sent ++ e.body ∷ [] })

pub data Publishes (b : Bus) : Bus → Type 0 where
  idle : Publishes b b
  later : {c d : Bus} → Publishes b c → Publishing c d → Publishes b d

IsSent-append : (sent more : List Json) (e : Event) → IsSent sent e → IsSent (sent ++ more) e
IsSent-append sent more e (inl waits) = inl waits
IsSent-append sent more e (inr there) = inr (mem-append_left more there)

send-IsHonest :
    (up : Bool) (i : String) (e : Event) (b : Bus)
    → find i b.events ≡ some e
    → IsHonest b
    → IsHonest (send up e b).1
unfolding send
send-IsHonest false i e b there h = h
send-IsHonest true i e b there h =
    All-modify (IsSent (b.sent ++ e.body ∷ [])) e.id publish_row b.events
      (find_again i b.events there) (inr (mem-append_right b.sent mem-cons_self))
      (All-map (IsSent b.sent) (IsSent (b.sent ++ e.body ∷ [])) b.events
        (λ x k. IsSent-append b.sent (e.body ∷ []) x k) h)

publish_found-IsHonest :
    (up : Bool) (i : String) (o : Option Event) (b : Bus)
    → find i b.events ≡ o
    → IsHonest b
    → IsHonest (publish_found up o b).1
unfolding publish_found
publish_found-IsHonest up i none b e h = h
publish_found-IsHonest up i (some r) b e h = elim (Bool-cases r.published) [
  | inl done ↦ simp (done) h
  | inr waits ↦ simp (waits) (send-IsHonest up i r b e h)
]

publish_ids-IsHonest :
    (up : ℕ → Bool) (k : ℕ) (is : List String) (b : Bus)
    → IsHonest b
    → IsHonest (publish_ids up k is b).1
unfolding publish_ids publish_one
publish_ids-IsHonest up k [] b h = h
publish_ids-IsHonest up k (i ∷ is) b h =
    and_then-keeps IsHonest (publish_one (up k) i b) _
      (publish_found-IsHonest (up k) i (find i b.events) b refl h)
      λ n c g. publish_ids-IsHonest up (k + n) is c g

Publishing-IsHonest : (b c : Bus) → Publishing b c → IsHonest b → IsHonest c
unfolding publish
Publishing-IsHonest b c (emitted e waits) h =
    All-append (IsSent b.sent) b.events (e ∷ []) h (inl waits, tt)
Publishing-IsHonest b c (published up limit) h =
    publish_ids-IsHonest up 0 (unpublished limit b.events) b h
Publishing-IsHonest b c (interrupted e) h =
    All-map (IsSent b.sent) (IsSent (b.sent ++ e.body ∷ [])) b.events
      (λ x k. IsSent-append b.sent (e.body ∷ []) x k) h

-- Whatever is emitted and published, and wherever the process is interrupted, an event that is
-- marked as published was put into the stream, if it was so at first.
pub Publishes-IsHonest : (b c : Bus) → Publishes b c → IsHonest b → IsHonest c
Publishes-IsHonest b c idle h = h
Publishes-IsHonest b c (later {c = d} before last) h =
    Publishing-IsHonest d c last (Publishes-IsHonest b d before h)
