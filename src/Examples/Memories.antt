-- ===== src/Examples/Memories.antt =====
-- The theorems on the memory of a workspace, applied.
use rednexus_ai.Base.{◌≡◌, refl, true, false, some, [], ◌∷◌, List, ok, All, filter, elem}
use rednexus_ai.Base.Sorting.{sort, insert, first_rows}
use rednexus_ai.Base.Table.{find, update_where}
use rednexus_ai.Identity.{Actor, require}
use rednexus_ai.Store.{Memory, memory_keyed, emit}
use rednexus_ai.Json.{null}
use rednexus_ai.Recall.Shelf.{Shelf, memories}
use rednexus_ai.Recall.Search.{score, Words, Hit, latest, hits, newest, found, search_memory}
use rednexus_ai.Recall.Forgotten.{Shelves, unchanged, onward, deleting, purging, Shelves-IsClean}
use rednexus_ai.Recall.Vectors.{IsClean}
use rednexus_ai.Recall.Latest.{IsLatest, search_memory-IsLatest}
use rednexus_ai.Recall.Redact.{
  same_as, forget, forget_found, delete_in, delete_memory, purge_expired,
}
use rednexus_ai.Recall.Erased.{IsVersion, delete_memory-search_memory}
use rednexus_ai.Examples.World.{env0, empty_db, owner0}

abbrev keeper0 : Actor
keeper0 = record owner0 { grants = "memory:shared:read" ∷ "memory:shared:write" ∷ [] }

abbrev note0 : Memory
note0 = record {
  id = "m1";
  workspace = "w";
  namespace = "shared";
  key = "k";
  version = 1;
  text = "old";
  source = "s";
  author = "u1";
  created = 10;
  expires = 100;
  deleted = false;
}

abbrev note1 : Memory
note1 = record note0 { id = "m2"; version = 2; text = "new"; created = 20 }

abbrev shelf0 : Shelf
shelf0 = record {
  accounts = record {
    db = record empty_db { memory = note0 ∷ note1 ∷ [] };
    sessions = [];
    attempts = [];
    buckets = [];
  };
  vectors = record { memory_id = "m2"; model = "v1"; vector = null ∷ [] } ∷ [];
}

abbrev words0 : Words
words0 = record { split = λ _. []; occurrences = λ _ _. 1 }

live0 : IsClean shelf0
unfolding find
live0 = (refl, tt)

abbrev forgotten0 : Shelf
forgotten0 = (purge_expired (λ _. 30) (delete_memory env0 keeper0 "m1" shelf0).1).1

shelved0 : Shelves env0 shelf0 forgotten0
shelved0 = onward (onward unchanged (deleting keeper0 "m1")) (purging (λ _. 30))

Shelves-IsClean_example : IsClean forgotten0
Shelves-IsClean_example = Shelves-IsClean env0 shelf0 forgotten0 shelved0 live0

abbrev shown0 : List Hit
shown0 = record { memory = note1; score = 0 } ∷ []

searched0 : search_memory words0 (λ _. 30) keeper0 "shared" "" false shelf0.accounts.db ≡ ok shown0
unfolding search_memory require elem newest filter sort insert first_rows latest found hits score
searched0 = refl

search_memory-IsLatest_example :
    All
      (λ (h : Hit).
        IsLatest "w" "shared" (note0 ∷ note1 ∷ []) h.memory × (h.memory.deleted ≡ false))
      shown0
search_memory-IsLatest_example =
    search_memory-IsLatest words0 (λ _. 30) keeper0 "shared" "" shelf0.accounts.db shown0
      ((refl, (refl, tt)), ((refl, (refl, tt)), tt)) searched0

found0 : find "m1" (memories shelf0) ≡ some note0
unfolding find
found0 = refl

abbrev erased0 : Shelf
erased0 = (delete_memory env0 keeper0 "m1" shelf0).1

deleted0 : delete_memory env0 keeper0 "m1" shelf0 ≡ (ok tt, erased0)
unfolding delete_memory delete_in forget_found find require elem
deleted0 = refl

searched1 : search_memory words0 (λ _. 30) keeper0 "shared" "" true erased0.accounts.db ≡ ok []
unfolding search_memory require elem newest filter sort insert first_rows latest found hits score
    delete_memory delete_in forget_found find forget update_where emit
searched1 = refl

delete_memory-search_memory_example :
    All
      (λ (h : Hit).
        (same_as keeper0 note0 h.memory ≡ false) × (¬ IsVersion keeper0.workspace note0 h.memory))
      []
delete_memory-search_memory_example =
    delete_memory-search_memory env0 keeper0 "m1" note0 shelf0 erased0 words0 (λ _. 30) keeper0
      "shared" "" true [] found0 deleted0 searched1
