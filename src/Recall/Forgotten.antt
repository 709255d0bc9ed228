-- ===== src/Recall/Forgotten.antt =====
-- What a deletion leaves behind: no vector of a redacted row, and no row that a search shows.
use Prim.Native.String
use rednexus_ai.Base.{
  All-map, ℕ, ◌≡◌, String, true, Option, none, some, List, [], ◌∷◌, ◌++◌, ◌==◌, All-map,
}
use rednexus_ai.Base.Ensures.{Ensures-ok, Ensures-bind, Ensures-guard, Ensures-or_raise}
use rednexus_ai.Base.Table.{find, find-append}
use rednexus_ai.Json.{Json}
use rednexus_ai.Contracts.{MemoryInput}
use rednexus_ai.Env.{Env, Draws}
use rednexus_ai.Identity.{Actor, actor_for, require}
use rednexus_ai.Store.{emit, Memory, memory_keyed, emit, transaction-keeps}
use rednexus_ai.Platform.Memory.{remember, remember_in, add_memory}
use rednexus_ai.Recall.Shelf.{Shelf, MemoryVector, vector_keyed, memories, reshelve, whole-keeps}
use rednexus_ai.Recall.Redact.{forget, forget_found, delete_in, delete_memory, purge_expired}
use rednexus_ai.Recall.Semantic.{Engine, store_vectors, batch_in, store_batch, memory_grant}
use rednexus_ai.Recall.Vectors.{
  is_live, IsLive, IsClean, forget-IsClean, purge_expired-IsClean, store_vectors-IsClean,
}

-- One transaction on memory, by any user or by the operator.
pub data Shelving (env : Env) (s : Shelf) : Shelf → Type 0 where
  remembering :
      (t : Draws) (actor : Actor) (d : MemoryInput)
      → Shelving env s (reshelve (remember env t actor d s.accounts.db).1 s.vectors s)
  deleting : (actor : Actor) (i : String) → Shelving env s (delete_memory env actor i s).1
  purging : (t : ℕ → ℕ) → Shelving env s (purge_expired t s).1
  indexing :
      (e : Engine) (t : ℕ → ℕ) (actor : Actor) (space : String) (rows : List Memory)
      (vectors : List (List Json))
      → Shelving env s (store_batch e t actor space rows vectors s).1

pub data Shelves (env : Env) (s : Shelf) : Shelf → Type 0 where
  unchanged : Shelves env s s
  onward : {t u : Shelf} → Shelves env s t → Shelving env t u → Shelves env s u

is_live-kept :
    (o n : Option Memory)
    → is_live o ≡ true
    → is_live (elim o [ some x ↦ some x | none ↦ n ]) ≡ true
is_live-kept none n h = cc
is_live-kept (some m) n h = h

IsLive-append :
    (ms : List Memory) (m : Memory) (v : MemoryVector) → IsLive ms v → IsLive (ms ++ m ∷ []) v
IsLive-append ms m v h = rw (find-append v.memory_id m ms) (is_live-kept (find v.memory_id ms) _ h)

add_memory-IsClean :
    (env : Env) (t : Draws) (actor : Actor) (d : MemoryInput) (s : Shelf)
    → IsClean s
    → IsClean (reshelve (add_memory env t actor d s.accounts.db).1 s.vectors s)
unfolding add_memory emit
add_memory-IsClean env t actor d s h =
    All-map (IsLive (memories s)) _ s.vectors (λ v l. IsLive-append (memories s) _ v l) h

remember-IsClean :
    (env : Env) (t : Draws) (actor : Actor) (d : MemoryInput) (s : Shelf)
    → IsClean s
    → IsClean (reshelve (remember env t actor d s.accounts.db).1 s.vectors s)
unfolding remember remember_in
remember-IsClean env t actor d s h =
    transaction-keeps (λ db. IsClean (reshelve db s.vectors s)) s.accounts.db
      (remember_in env t actor d s.accounts.db) h
      (Ensures-bind (require actor (String.◌++◌ "memory:" (String.◌++◌ d.namespace ":write"))) _
        λ _ _.
          Ensures-ok (add_memory env t actor d s.accounts.db)
            (add_memory-IsClean env t actor d s h))

delete_memory-IsClean :
    (env : Env) (actor : Actor) (i : String) (s : Shelf)
    → IsClean s
    → IsClean (delete_memory env actor i s).1
unfolding delete_memory delete_in forget_found
delete_memory-IsClean env actor i s h = whole-keeps IsClean s (delete_in env actor i s) h (
    Ensures-or_raise 404 "memory not found" (find i (memories s)) _ λ row _.
      Ensures-guard (row.workspace == actor.workspace) 404 "memory not found" _ λ _.
        Ensures-bind (require actor (String.◌++◌ "memory:" (String.◌++◌ row.namespace ":write"))) _
          λ _ _. Ensures-ok (tt, forget env actor row s) (forget-IsClean env actor row s h))

store_batch-IsClean :
    (e : Engine) (t : ℕ → ℕ) (actor : Actor) (space : String) (rows : List Memory)
    (vectors : List (List Json)) (s : Shelf)
    → IsClean s
    → IsClean (store_batch e t actor space rows vectors s).1
unfolding store_batch batch_in
store_batch-IsClean e t actor space rows vectors s h =
    whole-keeps IsClean s (batch_in e t actor space rows vectors s) h (
      Ensures-bind (actor_for s.accounts.db actor.id actor.workspace) _ λ fresh _.
        Ensures-bind (require fresh (memory_grant space "write")) _ λ _ _.
          Ensures-bind (require fresh (memory_grant space "read")) _ λ _ _.
            Ensures-ok (store_vectors e t 0 rows vectors s)
              (store_vectors-IsClean e t 0 rows vectors s h))

-- Whatever users write, delete and index, and whenever the operator purges, every vector stays one
-- of a row that is not deleted, if it was so at first.
pub Shelves-IsClean : (env : Env) (s t : Shelf) → Shelves env s t → IsClean s → IsClean t
Shelves-IsClean env s t unchanged h = h
Shelves-IsClean env s t (onward {t = u} before last) h =
    Shelving-IsClean env u t last (Shelves-IsClean env s u before h)
  where
    Shelving-IsClean : (env : Env) (s t : Shelf) → Shelving env s t → IsClean s → IsClean t
    Shelving-IsClean env s t (remembering d actor m) h = remember-IsClean env d actor m s h
    Shelving-IsClean env s t (deleting actor i) h = delete_memory-IsClean env actor i s h
    Shelving-IsClean env s t (purging clock) h = purge_expired-IsClean clock s h
    Shelving-IsClean env s t (indexing e clock actor space rows vectors) h =
        store_batch-IsClean e clock actor space rows vectors s h
