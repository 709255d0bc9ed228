-- ===== src/Platform/Redelivery.antt =====
-- An event that is delivered again starts nothing.
use mathlib.Core.Path.{subst}
use rednexus_ai.Base.{
  ℕ, ◌≡◌, refl, String, true, ◌&&◌, Option, none, some, List, [], ◌∷◌, ◌++◌, ◌==◌, filter, Result,
  ok, raise, raised, crashed, arith, eq_refl, >>=-eq-ok, ok-inj, Bool-cases, inl, inr,
}
use rednexus_ai.Env.{Env, Draws, digest}
use rednexus_ai.Identity.{Actor, require}
use rednexus_ai.Registry.{Registry}
use rednexus_ai.Store.{Db}
use rednexus_ai.Platform.Ingest.{
  EventInput, Received, Intake, Accepted, dump_event, received_under, is_for, fire_rules,
  accept_event, ingest_found, ingest_in, take_in, ingest,
}

received_under-append :
    (w source i : String) (rs : List Received) (r : Received)
    → received_under w source i rs ≡ none
    → (r.workspace == w && r.source == source && r.external_id == i) ≡ true
    → received_under w source i (rs ++ r ∷ []) ≡ some r
unfolding received_under
received_under-append w source i [] r e h = ground (arith, h)
received_under-append w source i (x ∷ rs) r e h =
    ground (arith, e, h, received_under-append w source i rs r)

-- The row of an event that was taken in, and what was answered for it.
abbrev IsStored : Env → Actor → EventInput → Accepted → Intake → Type 0
IsStored env actor e a s =
    (r : Received) × (received_under actor.workspace e.source e.id s.inbox ≡ some r)
    × ((r.digest == digest env (dump_event e)) ≡ true)
    × (r.run_ids ≡ a.run_ids)

accept_event-IsStored :
    (env : Env) (i : String) (actor : Actor) (e : EventInput) (run_ids : List String) (db : Db)
    (s : Intake)
    → received_under actor.workspace e.source e.id s.inbox ≡ none
    → IsStored env actor e
        (accept_event env i actor e run_ids db s).0
        (accept_event env i actor e run_ids db s).1
unfolding accept_event
accept_event-IsStored env i actor e run_ids db s new = (
  _,
  received_under-append actor.workspace e.source e.id s.inbox _ new
      (rw (eq_refl actor.workspace) (rw (eq_refl e.source) (eq_refl e.id))),
  eq_refl (digest env (dump_event e)),
  refl,
)

ingest_found-IsStored :
    (env : Env) (reg : Registry) (i : String) (t : ℕ → Draws) (actor : Actor) (e : EventInput)
    (o : Option Received) (s s' : Intake) (a : Accepted)
    → received_under actor.workspace e.source e.id s.inbox ≡ o
    → ingest_found env reg i t actor e o s ≡ ok (a, s')
    → IsStored env actor e a s'
unfolding ingest_found
ingest_found-IsStored env reg i t actor e (some old) s s' a there h =
    elim (Bool-cases (old.digest == digest env (dump_event e))) [
      | inl same ↦
          let kept : ok (record { duplicate = true; run_ids = old.run_ids }, s) ≡ ok (a, s') =
            rw same at h in
          subst (λ x. IsStored env actor e x.0 x.1) (ok-inj kept) (old, there, same, refl)
      | inr other ↦ absurd (refused (rw other at h))
    ]
  where
    refused :
        raise {A = Accepted × Intake} 409 "event ID reused with different data" ≡ ok (a, s') → ⊥
    refused e = cc
ingest_found-IsStored env reg i t actor e none s s' a there h =
    let (fired, _, stored) =
      >>=-eq-ok (fire_rules env reg t 0 actor e i (filter (is_for actor e) s.rules) s.db) _ h in
    subst (λ x. IsStored env actor e x.0 x.1) (ok-inj stored)
      (accept_event-IsStored env i actor e fired.0 fired.1 s there)

take_in-eq-ok :
    (s : Intake) (m : Result (Accepted × Intake)) {a : Accepted} {next : Intake}
    → take_in s m ≡ (ok a, next)
    → m ≡ ok (a, next)
take_in-eq-ok s (ok (b, x)) h = cc
take_in-eq-ok s (raised p) h = cc
take_in-eq-ok s (crashed x) h = cc

-- An event that was accepted is a duplicate when the same producer sends it again: it is answered
-- with the runs that it started, and starts none, whatever the registry is then.
pub ingest_again :
    (env : Env) (reg reg' : Registry) (i i' : String) (t t' : ℕ → Draws) (actor : Actor)
    (e : EventInput) (s s' : Intake) (a : Accepted)
    → ingest env reg i t actor e s ≡ (ok a, s')
    → ingest env reg' i' t' actor e s' ≡ (ok (record { duplicate = true; run_ids = a.run_ids }), s')
unfolding ingest ingest_in ingest_found
ingest_again env reg reg' i i' t t' actor e s s' a h =
    let (_, allowed, rest) = >>=-eq-ok (require actor "events:ingest") _ (take_in-eq-ok s _ h) in
    let (r, there, same, runs) = ingest_found-IsStored env reg i t actor e _ s s' a refl rest in
    rw allowed (rw there (rw same (rw runs refl)))
