-- ===== src/Recall/Redact.antt =====
-- `Platform.delete_memory` of service.py and `purge_expired` of memory.py.
use Prim.Native.String
use rednexus_ai.Base.{
  ℕ, String, Bool, true, not, ◌&&◌, ◌||◌, none, [], ◌∷◌, ◌==◌, count, leb, Result, ok, guard,
  or_raise, ◌>>=◌, ◌>>◌,
}
use rednexus_ai.Base.Table.{find, update_where}
use rednexus_ai.Json.{str, obj}
use rednexus_ai.Contracts.Dump.{fields}
use rednexus_ai.Env.{Env}
use rednexus_ai.Identity.{Actor, require}
use rednexus_ai.Store.{Memory, memory_keyed, emit}
use rednexus_ai.Platform.Memory.{same_key}
use rednexus_ai.Recall.Shelf.{Shelf, memories, reshelve, whole, ids, delete_vectors}

abbrev pub redact : String → Memory → Memory
redact source m = record m { deleted = true; text = ""; source = source }

-- Every version of the row's logical key.
abbrev pub same_as : Actor → Memory → Memory → Bool
same_as actor row m = same_key actor.workspace row.namespace row.key m

unfoldable pub forget : Env → Actor → Memory → Shelf → Shelf
forget env actor row s =
    let rows = update_where (same_as actor row) (redact "deleted") (memories s) in
    let db = s.accounts.db in
    reshelve
      (emit env actor.workspace "memory.deleted"
        (obj (
          fields (
            ("namespace", str row.namespace)
            ∷ ("key", str row.key)
            ∷ ("actor", str actor.id)
            ∷ [])))
        none (record db { memory = rows }))
      (delete_vectors (ids (same_as actor row) rows) s.vectors) s

unfoldable pub forget_found : Env → Actor → Memory → Shelf → Result (Unit {0} × Shelf)
forget_found env actor row s = do
  guard (row.workspace == actor.workspace) 404 "memory not found"
  require actor (String.◌++◌ "memory:" (String.◌++◌ row.namespace ":write"))
  ok (tt, forget env actor row s)

unfoldable pub delete_in : Env → Actor → String → Shelf → Result (Unit {0} × Shelf)
unfolding forget_found
delete_in env actor i s = do
  row ← or_raise 404 "memory not found" (find i (memories s))
  forget_found env actor row s

-- `delete_memory(actor, memory_id)`.
unfoldable pub delete_memory : Env → Actor → String → Shelf → Result (Unit {0}) × Shelf
delete_memory env actor i s = whole s (delete_in env actor i s)

-- A row to redact, at one reading of the clock; and one whose vector goes, at another.
abbrev pub is_stale : ℕ → Memory → Bool
is_stale now m = leb m.expires now && not m.deleted

abbrev pub is_gone : ℕ → Memory → Bool
is_gone now m = leb m.expires now || m.deleted

-- `purge_expired(db)`, and how many rows it has redacted.
unfoldable pub purge_expired : (ℕ → ℕ) → Shelf → ℕ × Shelf
purge_expired t s =
    let rows = update_where (is_stale (t 1)) (redact "expired") (memories s) in
    let db = s.accounts.db in
    (
      count (is_stale (t 1)) (memories s),
      reshelve (record db { memory = rows }) (delete_vectors (ids (is_gone (t 0)) rows) s.vectors)
          s,
    )
