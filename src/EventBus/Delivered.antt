-- ===== src/EventBus/Delivered.antt =====
-- `publish` while Redis answers.
use mathlib.Core.Path.{subst}
use rednexus_ai.Base.Sorting.{
  length-sort, All-not_cut, sort, first_rows, All-first_rows, All-sort, All-unsort,
}
use rednexus_ai.Store.{Event, event_keyed}
use rednexus_ai.Base.Table.{
  Distinct, Distinct-found, find, modify, find_again, find-key, find-modify, find-modify_self,
}
use rednexus_ai.Base.{
  All-mapped, All-unmapped, All-filter, All-both, All-unfilter, length, ◌≤◌, ℕ, ◌+◌, String, Bool,
  true, false, Option, none, some, List, [], ◌∷◌, ◌≡◌, refl, ◌⊎◌, inl, inr, All, All-map, and_then,
  and_then-keeps, Bool-cases, Result, ok, crashed, raised, filter, not,
}
use native.Mathlib.Omega.{arith}
use text.Mathlib.TextEquality.{eq_iff}
use rednexus_ai.EventBus.Publish.{
  send, Bus, publish_row, publish_found, publish_one, publish_ids, publish, unpublished,
  older_event,
}

-- The row with the key is there and marked as published.
abbrev pub IsMarked : List Event → String → Type 0
IsMarked es i = (e : Event) × (find i es ≡ some e) × (e.published ≡ true)

abbrev IsThere : List Event → String → Type 0
IsThere es i = (e : Event) × (find i es ≡ some e)

-- What the call for one event has done, if Redis answers.
record Delivers (i : String) (b : Bus) (m : Result ℕ × Bus) : Type 0 where
  sends : ℕ
  returns : m.0 ≡ ok sends
  marked : IsMarked m.1.events i
  keeps : (j : String) → IsThere b.events j → IsThere m.1.events j

found_after :
    (i j : String) (es : List Event) {e : Event}
    → find j es ≡ some e
    → (find j (modify i publish_row es) ≡ some e)
      ⊎ (find j (modify i publish_row es) ≡ some (publish_row e))
found_after i j es {e} h = ground (arith, eq_iff i j, h, find-modify i j publish_row es (λ _ k. k))

IsThere-modify :
    (i j : String) (es : List Event) → IsThere es j → IsThere (modify i publish_row es) j
IsThere-modify i j es (e, h) = elim (found_after i j es h) [
  | inl same ↦ (e, same)
  | inr changed ↦ (publish_row e, changed)
]

IsMarked-modify :
    (i j : String) (es : List Event) → IsMarked es j → IsMarked (modify i publish_row es) j
IsMarked-modify i j es (e, h, done) = elim (found_after i j es h) [
  | inl same ↦ (e, same, done)
  | inr changed ↦ (publish_row e, changed, refl)
]

send-Delivers :
    (i : String) (e : Event) (b : Bus) → find i b.events ≡ some e → Delivers i b (send true e b)
unfolding send
send-Delivers i e b h = record {
  sends = 1;
  returns = refl;
  marked = subst (IsMarked (modify e.id publish_row b.events)) (find-key i b.events h) (
    publish_row e,
    find-modify_self e.id publish_row b.events (λ _. refl) (find_again i b.events h),
    refl,
  );
  keeps = λ j k. IsThere-modify e.id j b.events k;
}

publish_one-Delivers :
    (i : String) (b : Bus) → IsThere b.events i → Delivers i b (publish_one true i b)
unfolding publish_one publish_found
publish_one-Delivers i b (e, h) = rw h (elim (Bool-cases e.published) [
  | inl done ↦
      simp (done) (record { sends = 0; returns = refl; marked = (e, h, done); keeps = λ j k. k })
  | inr waits ↦ simp (waits) (send-Delivers i e b h)
])

send-keeps :
    (up : Bool) (j : String) (e : Event) (b : Bus)
    → IsMarked b.events j
    → IsMarked (send up e b).1.events j
unfolding send
send-keeps false j e b h = h
send-keeps true j e b h = IsMarked-modify e.id j b.events h

publish_found-keeps :
    (up : Bool) (j : String) (o : Option Event) (b : Bus)
    → IsMarked b.events j
    → IsMarked (publish_found up o b).1.events j
unfolding publish_found
publish_found-keeps up j none b h = h
publish_found-keeps up j (some e) b h = elim (Bool-cases e.published) [
  | inl done ↦ simp (done) h
  | inr waits ↦ simp (waits) (send-keeps up j e b h)
]

-- A mark stays.
publish_ids-keeps :
    (up : ℕ → Bool) (k : ℕ) (is : List String) (b : Bus) (j : String)
    → IsMarked b.events j
    → IsMarked (publish_ids up k is b).1.events j
unfolding publish_ids publish_one
publish_ids-keeps up k [] b j h = h
publish_ids-keeps up k (i ∷ is) b j h =
    and_then-keeps (λ c. IsMarked c.events j) (publish_one (up k) i b) _
      (publish_found-keeps (up k) j (find i b.events) b h)
      λ n c g. publish_ids-keeps up (k + n) is c j g

-- What the loop has done.
record DeliversAll (is : List String) (m : Result ℕ × Bus) : Type 0 where
  total : ℕ
  answers : m.0 ≡ ok total
  all_marked : All (IsMarked m.1.events) is

DeliversAll-and_then :
    (up : ℕ → Bool) (k : ℕ) (i : String) (is : List String) (b : Bus) (m : Result ℕ × Bus)
    → Delivers i b m
    → All (IsThere b.events) is
    → ((n : ℕ) (c : Bus) → All (IsThere c.events) is → DeliversAll is (publish_ids up (k + n) is c))
    → DeliversAll (i ∷ is) (and_then m λ n c. publish_ids up (k + n) is c)
DeliversAll-and_then up k i is b (crashed x, c) d hs rest = let no = d.returns in absurd (cc)
DeliversAll-and_then up k i is b (raised x, c) d hs rest = let no = d.returns in absurd (cc)
DeliversAll-and_then up k i is b (ok n, c) d hs rest =
    let r = rest n c (All-map (IsThere b.events) (IsThere c.events) is d.keeps hs) in
    record {
      total = r.total;
      answers = r.answers;
      all_marked = (publish_ids-keeps up (k + n) is c i d.marked, r.all_marked);
    }

publish_ids-DeliversAll :
    (up : ℕ → Bool) (k : ℕ) (is : List String) (b : Bus)
    → ((k : ℕ) → up k ≡ true)
    → All (IsThere b.events) is
    → DeliversAll is (publish_ids up k is b)
unfolding publish_ids
publish_ids-DeliversAll up k [] b answer hs = record { total = k; answers = refl; all_marked = tt }
publish_ids-DeliversAll up k (i ∷ is) b answer (h, hs) =
    DeliversAll-and_then up k i is b (publish_one (up k) i b)
      (rw (answer k) (publish_one-Delivers i b h)) hs
      λ n c gs. publish_ids-DeliversAll up (k + n) is c answer gs

abbrev pub is_waiting : Event → Bool
is_waiting e = not e.published

not-inj : (b : Bool) → not b ≡ false → b ≡ true
not-inj true h = refl
not-inj false h = cc

-- The identifiers that the query returns have a row.
unpublished-IsThere : (n : ℕ) (es : List Event) → Distinct es → All (IsThere es) (unpublished n es)
unfolding unpublished
unpublished-IsThere n es d =
    All-mapped (IsThere es) (λ e. e.id) (first_rows n (sort older_event (filter is_waiting es)))
      (All-first_rows (λ e. IsThere es e.id) n (sort older_event (filter is_waiting es))
        (All-sort (λ e. IsThere es e.id) older_event (filter is_waiting es)
          (All-filter (λ e. IsThere es e.id) is_waiting es
            (All-map (λ e. find e.id es ≡ some e) (λ e. IsThere es e.id) es (λ e h. (e, h))
              (Distinct-found es d)))))

-- What holds for the identifiers of the query, if it is not cut, holds for every event that waits.
unpublished-All :
    (P : String → Type 0) (n : ℕ) (es : List Event)
    → length (filter is_waiting es) ≤ n
    → All P (unpublished n es)
    → All (λ e. P e.id) (filter is_waiting es)
unfolding unpublished
unpublished-All P n es within q =
    All-unsort (λ e. P e.id) older_event (filter is_waiting es)
      (All-not_cut (λ e. P e.id) n (sort older_event (filter is_waiting es))
        (omega (arith, within, length-sort older_event (filter is_waiting es)))
        (All-unmapped P (λ e. e.id) (first_rows n (sort older_event (filter is_waiting es))) q))

-- The events that were published before are still so.
published-All :
    (up : ℕ → Bool) (is : List String) (b : Bus)
    → Distinct b.events
    → All (λ e. IsMarked (publish_ids up 0 is b).1.events e.id) (filter is_waiting b.events)
    → All (λ e. IsMarked (publish_ids up 0 is b).1.events e.id) b.events
published-All up is b d q =
    All-map
      (λ e.
        (find e.id b.events ≡ some e)
        × ((e.published ≡ true) ⊎ IsMarked (publish_ids up 0 is b).1.events e.id))
      (λ e. IsMarked (publish_ids up 0 is b).1.events e.id) b.events (λ e h. settle e h.0 h.1)
      (All-both (λ e. find e.id b.events ≡ some e)
        (λ e. (e.published ≡ true) ⊎ IsMarked (publish_ids up 0 is b).1.events e.id) b.events
        (Distinct-found b.events d)
        (All-unfilter (λ e. IsMarked (publish_ids up 0 is b).1.events e.id)
          (λ e. (e.published ≡ true) ⊎ IsMarked (publish_ids up 0 is b).1.events e.id) is_waiting
          b.events (λ e w h. inr h) (λ e w. inl (not-inj e.published w)) q))
  where
    settle :
        (e : Event)
        → find e.id b.events ≡ some e
        → (e.published ≡ true) ⊎ IsMarked (publish_ids up 0 is b).1.events e.id
        → IsMarked (publish_ids up 0 is b).1.events e.id
    settle e h (inl before) = publish_ids-keeps up 0 is b e.id (e, h, before)
    settle e h (inr now) = now

-- If every call of xadd returns and no more events wait than the limit, publish returns and every
-- event of the outbox is then marked as published, where no two events have one identifier.
pub publish-delivered :
    (up : ℕ → Bool) (limit : ℕ) (b : Bus)
    → ((k : ℕ) → up k ≡ true)
    → Distinct b.events
    → length (filter is_waiting b.events) ≤ limit
    → (n : ℕ) × ((publish up limit b).0 ≡ ok n)
      × All (λ e. IsMarked (publish up limit b).1.events e.id) b.events
unfolding publish
publish-delivered up limit b answer d within =
    let r =
      publish_ids-DeliversAll up 0 (unpublished limit b.events) b answer
        (unpublished-IsThere limit b.events d) in
    (
      r.total,
      r.answers,
      published-All up (unpublished limit b.events) b d (
          unpublished-All (IsMarked (publish_ids up 0 (unpublished limit b.events) b).1.events)
            limit b.events within r.all_marked),
    )
