-- ===== src/Platform/Memory.antt =====
-- `Platform.remember` of service.py, which adds a version of a memory.
use Prim.Native.String
use rednexus_ai.Base.{
  ℕ, ◌+◌, ◌*◌, ◌<◌, ◌≡◌, refl, String, Bool, true, false, ◌&&◌, none, List, [], ◌∷◌, ◌++◌, ◌==◌,
  if◌then◌else◌, Result, ok, ◌>>◌, ltb, All, max, arith, Bool-cases, inl, inr,
}
use rednexus_ai.Base.Ensures.{Ensures, Ensures-ok, Ensures-bind}
use rednexus_ai.Json.{str, obj}
use rednexus_ai.Contracts.{MemoryInput}
use rednexus_ai.Contracts.Dump.{fields, num}
use rednexus_ai.Env.{Env, Draws}
use rednexus_ai.Identity.{Actor, require}
use rednexus_ai.Store.{Db, Memory, memory_keyed, emit, transaction, transaction-eq-ok}

-- The rows of one logical key of a workspace.
abbrev pub same_key : String → String → String → Memory → Bool
same_key w space k m = m.workspace == w && m.namespace == space && m.key == k

-- `select(func.max(Memory.version))` of them, `or 0`.
unfoldable pub max_version : String → String → String → List Memory → ℕ
max_version w space k [] = 0
max_version w space k (m ∷ ms) =
    let rest = max_version w space k ms in if same_key w space k m then max m.version rest else rest

unfoldable pub new_memory : Draws → Actor → MemoryInput → ℕ → ℕ → Memory
new_memory t actor d version seconds = record {
  id = t.uid 0;
  workspace = actor.workspace;
  namespace = d.namespace;
  key = d.key;
  version = version;
  text = d.text;
  source = d.source;
  author = actor.id;
  created = t.clock 1;
  expires = t.clock 0 + d.ttl_seconds * seconds;
  deleted = false;
}

unfoldable pub add_memory : Env → Draws → Actor → MemoryInput → Db → Memory × Db
add_memory env t actor d db =
    let version = max_version actor.workspace d.namespace d.key db.memory + 1 in
    let m = new_memory t actor d version env.second in
    (
      m,
      emit env actor.workspace "memory.written"
          (obj (
            fields (
              ("id", str m.id)
              ∷ ("namespace", str m.namespace)
              ∷ ("version", num m.version)
              ∷ ("actor", str actor.id)
              ∷ [])))
          none (record db { memory = db.memory ++ m ∷ [] }),
    )

unfoldable pub remember_in : Env → Draws → Actor → MemoryInput → Db → Result (Memory × Db)
remember_in env t actor d db = do
  require actor (String.◌++◌ "memory:" (String.◌++◌ d.namespace ":write"))
  ok (add_memory env t actor d db)

-- `remember(actor, data)`; the answer is the identifier and the version of the row.
unfoldable pub remember : Env → Draws → Actor → MemoryInput → Db → Result Memory × Db
remember env t actor d db = transaction db (remember_in env t actor d db)

-- Every version of the key is older.
abbrev pub OlderThan : ℕ → String → String → String → List Memory → Type 0
OlderThan v w space k ms =
    All (λ (m : Memory). (if same_key w space k m then ltb m.version v else true) ≡ true) ms

All-max_version :
    (v : ℕ) (w space k : String) (ms : List Memory)
    → max_version w space k ms < v
    → OlderThan v w space k ms
unfolding max_version
All-max_version v w space k [] h = tt
All-max_version v w space k (m ∷ ms) h = elim (Bool-cases (same_key w space k m)) [
  | inl same ↦ (rw same (ground arith), All-max_version v w space k ms (ground arith))
  | inr other ↦ (rw other refl, All-max_version v w space k ms (rw other at h))
]

-- The row is a version of what was written, in the writer's workspace and name.
pub record IsVersionOf (actor : Actor) (d : MemoryInput) (m : Memory) : Type 0 where
  pub workspace : m.workspace ≡ actor.workspace
  pub namespace : m.namespace ≡ d.namespace
  pub key : m.key ≡ d.key
  pub text : m.text ≡ d.text
  pub source : m.source ≡ d.source
  pub author : m.author ≡ actor.id
  pub live : m.deleted ≡ false

add_memory-IsVersionOf :
    (env : Env) (t : Draws) (actor : Actor) (d : MemoryInput) (db : Db)
    → IsVersionOf actor d (add_memory env t actor d db).0
unfolding add_memory new_memory
add_memory-IsVersionOf env t actor d db = record {
  workspace = refl;
  namespace = refl;
  key = refl;
  text = refl;
  source = refl;
  author = refl;
  live = refl;
}

add_memory-OlderThan :
    (env : Env) (t : Draws) (actor : Actor) (d : MemoryInput) (db : Db)
    → ((add_memory env t actor d db).1.memory ≡ db.memory ++ (add_memory env t actor d db).0 ∷ [])
      × OlderThan
          (add_memory env t actor d db).0.version
          actor.workspace
          d.namespace
          d.key
          db.memory
unfolding add_memory new_memory emit
add_memory-OlderThan env t actor d db = (
  refl,
  All-max_version (max_version actor.workspace d.namespace d.key db.memory + 1) actor.workspace
      d.namespace d.key db.memory (omega arith),
)

remember_in-OlderThan :
    (env : Env) (t : Draws) (actor : Actor) (d : MemoryInput) (db : Db)
    → Ensures
        (λ x.
          (x.1.memory ≡ db.memory ++ x.0 ∷ [])
          × IsVersionOf actor d x.0
          × OlderThan x.0.version actor.workspace d.namespace d.key db.memory)
        (remember_in env t actor d db)
unfolding remember_in
remember_in-OlderThan env t actor d db =
    Ensures-bind (require actor (String.◌++◌ "memory:" (String.◌++◌ d.namespace ":write"))) _ λ _ _.
      let (added, newer) = add_memory-OlderThan env t actor d db in
      Ensures-ok (add_memory env t actor d db)
        (added, add_memory-IsVersionOf env t actor d db, newer)

-- What is remembered is one new row after all others, a version of the given key in the actor's
-- workspace with the given text and source (`IsVersionOf`), and its version is newer than every
-- version of that key that was there.
pub remember-OlderThan :
    (env : Env) (t : Draws) (actor : Actor) (d : MemoryInput) (db db' : Db) (m : Memory)
    → remember env t actor d db ≡ (ok m, db')
    → (db'.memory ≡ db.memory ++ m ∷ [])
      × IsVersionOf actor d m
      × OlderThan m.version actor.workspace d.namespace d.key db.memory
unfolding remember
remember-OlderThan env t actor d db db' m h =
    (remember_in-OlderThan env t actor d db).at (m, db') (transaction-eq-ok db _ h)
