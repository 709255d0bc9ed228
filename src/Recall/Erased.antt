-- ===== src/Recall/Erased.antt =====
-- A deletion, and what is found after it.
use mathlib.Core.Path.{subst}
use Prim.Native.String
use rednexus_ai.Base.{
  eq_iff, ℕ, ◌≡◌, sym, ap, String, Bool, true, false, some, List, [], ◌∷◌, ◌==◌, if◌then◌else◌, ok,
  arith, All, All-map, All-filter,
}
use rednexus_ai.Base.Ensures.{Ensures, Ensures-ok, Ensures-bind, Ensures-guard, Ensures-or_raise}
use rednexus_ai.Base.Sorting.{All-sort, All-first_rows}
use rednexus_ai.Base.Table.{find, update_where}
use rednexus_ai.Env.{Env}
use rednexus_ai.Identity.{Actor, require}
use rednexus_ai.Store.{Db, Memory, memory_keyed, emit}
use rednexus_ai.Recall.Shelf.{Shelf, memories, whole-eq-ok}
use rednexus_ai.Recall.Redact.{redact, same_as, forget, forget_found, delete_in, delete_memory}
use rednexus_ai.Recall.Search.{
  Words, Hit, newest_first, latest, is_in, newest, found, search_memory,
}
use rednexus_ai.Recall.Newest.{All-latest, All-found}

-- The versions of the row's key are deleted.
abbrev IsErased : Actor → Memory → Memory → Type 0
IsErased actor row m = (if same_as actor row m then m.deleted else true) ≡ true

redact-IsErased :
    (actor : Actor) (row m : Memory)
    → IsErased actor row (if same_as actor row m then redact "deleted" m else m)
redact-IsErased actor row m = ground arith

All-IsErased :
    (actor : Actor) (row : Memory) (ms : List Memory)
    → All (IsErased actor row) (update_where (same_as actor row) (redact "deleted") ms)
unfolding update_where
All-IsErased actor row [] = tt
All-IsErased actor row (m ∷ ms) = (redact-IsErased actor row m, All-IsErased actor row ms)

delete_in-forget :
    (env : Env) (actor : Actor) (i : String) (row : Memory) (s : Shelf)
    → find i (memories s) ≡ some row
    → Ensures (λ x. x.1 ≡ forget env actor row s) (delete_in env actor i s)
unfolding delete_in forget_found
delete_in-forget env actor i row s e =
    Ensures-or_raise 404 "memory not found" (find i (memories s)) _ λ other same.
      Ensures-guard (other.workspace == actor.workspace) 404 "memory not found" _ λ _.
        Ensures-bind (require actor (String.◌++◌ "memory:" (String.◌++◌ other.namespace ":write")))
          _ λ _ _. Ensures-ok (tt, forget env actor other s) (ap (λ r. forget env actor r s) cc)

newest-All :
    (P : Memory → Type 0) (w space : String) (ms : List Memory)
    → All P ms
    → All P (newest w space ms)
unfolding newest
newest-All P w space ms h =
    All-first_rows P 1000 _ (All-sort P newest_first _ (All-filter P (is_in w space) ms h))

rows-All :
    (P : Memory → Type 0) (history : Bool) (ms : List Memory)
    → All P ms
    → All P (if history then ms else latest [] ms)
rows-All P true ms h = h
rows-All P false ms h = All-latest P [] ms h

search_memory-All :
    (P : Memory → Type 0) (words : Words) (t : ℕ → ℕ) (reader : Actor) (space query : String)
    (history : Bool) (db : Db)
    → All P db.memory
    → Ensures
        (λ shown. All (λ (h : Hit). P h.memory × (h.memory.deleted ≡ false)) shown)
        (search_memory words t reader space query history db)
unfolding search_memory
search_memory-All P words t reader space query history db h =
    let rows = newest reader.workspace space db.memory in
    Ensures-bind (require reader (String.◌++◌ "memory:" (String.◌++◌ space ":read"))) _ λ _ _.
      Ensures-ok (found words t query (if history then rows else latest [] rows)) (
        All-found P words t query (if history then rows else latest [] rows)
          (rows-All P history rows (newest-All P reader.workspace space db.memory h)))

forget-All :
    (env : Env) (actor : Actor) (row : Memory) (s : Shelf)
    → All (IsErased actor row) (memories (forget env actor row s))
unfolding forget emit
forget-All env actor row s = All-IsErased actor row (memories s)

-- The row is a version of the logical key of a row of the workspace.
pub record IsVersion (w : String) (row m : Memory) : Type 0 where
  pub workspace : m.workspace ≡ w
  pub namespace : m.namespace ≡ row.namespace
  pub key : m.key ≡ row.key

same_as-IsVersion :
    (actor : Actor) (row m : Memory)
    → same_as actor row m ≡ false
    → ¬ IsVersion actor.workspace row m
same_as-IsVersion actor row m h v = absurd (
    ground (
      arith,
      h,
      v.workspace,
      v.namespace,
      v.key,
      eq_iff m.workspace actor.workspace,
      eq_iff m.namespace row.namespace,
      eq_iff m.key row.key,
    ))

-- After a deletion that succeeds, no search, with history or without, by any user, shows a version
-- of the key of the row that was deleted.
pub delete_memory-search_memory :
    (env : Env) (actor : Actor) (i : String) (row : Memory) (s s' : Shelf) (words : Words)
    (t : ℕ → ℕ) (reader : Actor) (space query : String) (history : Bool) (shown : List Hit)
    → find i (memories s) ≡ some row
    → delete_memory env actor i s ≡ (ok tt, s')
    → search_memory words t reader space query history s'.accounts.db ≡ ok shown
    → All
        (λ (h : Hit).
          (same_as actor row h.memory ≡ false) × (¬ IsVersion actor.workspace row h.memory))
        shown
unfolding delete_memory
delete_memory-search_memory env actor i row s s' words t reader space query history shown e d f =
    let after : s' ≡ forget env actor row s =
      (delete_in-forget env actor i row s e).at (tt, s') (whole-eq-ok s _ d) in
    let erased : All (IsErased actor row) (memories s') =
      subst (λ x. All (IsErased actor row) (memories x)) (sym after) (forget-All env actor row s) in
    All-map (λ (h : Hit). IsErased actor row h.memory × (h.memory.deleted ≡ false))
      (λ (h : Hit).
        (same_as actor row h.memory ≡ false) × (¬ IsVersion actor.workspace row h.memory))
      shown
      (λ h k.
        let other : same_as actor row h.memory ≡ false = ground (arith, k.0, k.1) in
        (other, same_as-IsVersion actor row h.memory other))
      ((search_memory-All (IsErased actor row) words t reader space query history s'.accounts.db
          erased).at
        shown f)
