-- ===== src/Examples/Services.antt =====
-- The theorems on memory, lists and sessions, applied.
use rednexus_ai.Examples.World.{env0, owner0, empty_db, held_db, draws0}
use rednexus_ai.Platform.Agents.{agent_keyed}
use rednexus_ai.Sessions.{Secrets, Accounts, authenticate, logout, consume_quota}
use rednexus_ai.Sessions.Revoked.{Serves-authenticate, idle, later, metering}
use rednexus_ai.Platform.Listing.{runs, runs-can_see}
use rednexus_ai.Platform.Memory.{
  IsVersionOf, remember, remember_in, add_memory, OlderThan, remember-OlderThan,
}
use rednexus_ai.Platform.Access.{can_see}
use rednexus_ai.Base.{raise, All, ◌≤◌, ◌++◌, length, true, [], ◌∷◌, ◌≡◌, refl, ok, elem}
use rednexus_ai.Contracts.{MemoryInput}
use rednexus_ai.Identity.{Actor, require}
use rednexus_ai.Store.{run_keyed}

abbrev note0 : MemoryInput
note0 = record { namespace = "ops"; key = "k"; text = "x"; source = "s"; ttl_seconds = 60 }

abbrev writer0 : Actor
writer0 = record owner0 { grants = "memory:ops:write" ∷ [] }

remembered : remember env0 draws0 writer0 note0 held_db ≡ (
  ok (add_memory env0 draws0 writer0 note0 held_db).0,
  (add_memory env0 draws0 writer0 note0 held_db).1,
)
unfolding remember remember_in require elem
remembered = refl

remember-OlderThan_example :
    ((add_memory env0 draws0 writer0 note0 held_db).1.memory
      ≡ held_db.memory ++ (add_memory env0 draws0 writer0 note0 held_db).0 ∷ [])
    × IsVersionOf writer0 note0 (add_memory env0 draws0 writer0 note0 held_db).0
    × OlderThan
        (add_memory env0 draws0 writer0 note0 held_db).0.version
        "w"
        "ops"
        "k"
        held_db.memory
remember-OlderThan_example =
    remember-OlderThan env0 draws0 writer0 note0 held_db
      (add_memory env0 draws0 writer0 note0 held_db).1
      (add_memory env0 draws0 writer0 note0 held_db).0 remembered

runs-can_see_example :
    All (λ r. can_see owner0 r ≡ true) (runs owner0 5 held_db)
    × (length (runs owner0 5 held_db) ≤ 5)
runs-can_see_example = runs-can_see owner0 5 held_db

abbrev secrets0 : Secrets
secrets0 = record {
  hash = λ t. t;
  casefold = λ t. t;
  matches = λ _ _. true;
  dummy_hash = "";
  second = 1;
  session_seconds = 60;
}

abbrev accounts0 : Accounts
accounts0 = record {
  db = empty_db;
  sessions = record { token_hash = "t"; user_id = "u1"; workspace = "w"; expires = 100 } ∷ [];
  attempts = [];
  buckets = [];
}

Serves-authenticate_example :
    authenticate secrets0 "t" 50 (consume_quota "k" 3 60 (λ k. 5) (logout secrets0 "t" accounts0)).1
    ≡ raise 401 "session expired or invalid"
Serves-authenticate_example =
    Serves-authenticate secrets0 "t" 50 accounts0
      (consume_quota "k" 3 60 (λ k. 5) (logout secrets0 "t" accounts0)).1
      (later idle (metering "k" 3 60 (λ k. 5)))
