-- ===== src/Recall/Index.antt =====
-- `index` and `search` of memory.py, from the parts of `SemanticMemory`. Between the transactions of
-- `index` those of others may come; here it runs alone.
use Prim.Native.String
use rednexus_ai.Base.{
  ℕ, suc, ◌+◌, ◌*◌, String, Bool, false, not, ◌&&◌, Option, none, some, List, [], ◌∷◌, ◌==◌, length,
  ltb, eqb, map, if◌then◌else◌, Result, ok, crashed, raise, guard, and_then, ◌>>=◌, ◌>>◌,
  index_error,
}
use rednexus_ai.Base.Sorting.{sort, first_rows}
use rednexus_ai.Base.Table.{find}
use rednexus_ai.Json.{Json, str, obj}
use rednexus_ai.Contracts.Dump.{fields, num}
use rednexus_ai.Env.{Env}
use rednexus_ai.Identity.{Actor, actor_for, require}
use rednexus_ai.Sessions.{consume_quota}
use rednexus_ai.Store.{Memory, emit}
use rednexus_ai.Recall.Shelf.{Shelf, MemoryVector, vector_keyed, memories, reshelve}
use rednexus_ai.Recall.Semantic.{
  Engine, SemanticQuery, unit_vector, embed, latest_query, pending_rows, store_batch, memory_grant,
}

-- `pending[offset:offset + 4]` for each offset.
unfoldable pub batches : List Memory → List (List Memory)
batches [] = []
batches (a ∷ []) = (a ∷ []) ∷ []
batches (a ∷ b ∷ []) = (a ∷ b ∷ []) ∷ []
batches (a ∷ b ∷ c ∷ []) = (a ∷ b ∷ c ∷ []) ∷ []
batches (a ∷ b ∷ c ∷ d ∷ rest) = (a ∷ b ∷ c ∷ d ∷ []) ∷ batches rest

abbrev texts_of : List Memory → List String
texts_of rows = map (λ (m : Memory). m.text) rows

-- The loop over the batches: what was stored before a failure stays.
unfoldable pub index_batches :
    Engine → (ℕ → ℕ → ℕ) → Actor → String → ℕ → ℕ → List (List Memory) → Shelf → Result ℕ × Shelf
index_batches e t actor space k n [] s = (ok n, s)
index_batches e t actor space k n (rows ∷ rest) s =
    and_then (embed e (texts_of rows), s)
      λ vectors s.
        and_then (store_batch e (t k) actor space rows vectors s)
          λ done s. index_batches e t actor space (suc k) (n + done) rest s

abbrev quota_key : Actor → String
quota_key actor = String.◌++◌ "embeddings:" (String.◌++◌ actor.workspace (String.◌++◌ ":" actor.id))

unfoldable pub emit_indexed : Env → Engine → Actor → String → ℕ → Shelf → Shelf
emit_indexed env e actor space n s =
    reshelve
      (emit env actor.workspace "memory.indexed"
        (obj (
          fields (
            ("namespace", str space)
            ∷ ("records", num n)
            ∷ ("model", str e.model_id)
            ∷ ("actor", str actor.id)
            ∷ [])))
        none s.accounts.db)
      s.vectors s

index_rows : Env → Engine → (ℕ → ℕ → ℕ) → Actor → String → List Memory → Shelf → Result ℕ × Shelf
index_rows env e t actor space rows s =
    if ltb 500 (length rows)
    then (raise 409 "namespace exceeds 500-record semantic index limit", s)
    else and_then (index_batches e t actor space 2 0 (batches (pending_rows e s.vectors rows)) s)
        λ n s. (ok n, emit_indexed env e actor space n s)

abbrev with_quota {ℓ} :
    {A : Type ℓ} → Env → Actor → (ℕ → ℕ) → Shelf → (Shelf → Result A × Shelf) → Result A × Shelf
with_quota env actor t s next =
    let (allowed, a) = consume_quota (quota_key actor) 20 (300 * env.second) t s.accounts in
    and_then (allowed, record s { accounts = a }) λ _ s. next s

index_allowed : Engine → Actor → String → Result (Unit {0})
index_allowed e actor space = do
  require actor (memory_grant space "write")
  require actor (memory_grant space "read")

-- `index(actor, namespace)`. The quota reads the clock as `t 0`, the query as `t 1`, and the k-th
-- batch as `t (2 + k)`.
unfoldable pub index : Env → Engine → (ℕ → ℕ → ℕ) → Actor → String → Shelf → Result ℕ × Shelf
unfolding index_allowed index_rows
index env e t actor space s =
    and_then (index_allowed e actor space, s)
      λ _ s. with_quota env actor (t 0) s λ s.
        index_rows env e t actor space
          (first_rows 501 (latest_query actor.workspace space (t 1 0) (memories s))) s

pub record Match : Type 0 where
  pub memory : Memory
  pub score : Json

usable : Engine → List Json → Option MemoryVector → Bool
usable e query none = false
usable e query (some v) = v.model == e.model_id && eqb (length v.vector) (length query)

vector_or_empty : Option MemoryVector → List Json
vector_or_empty none = []
vector_or_empty (some v) = v.vector

-- The loop over the rows: the matches, and how many rows have no vector to compare.
unfoldable pub matches :
    Engine → List Json → List MemoryVector → List Memory → Result (List Match × ℕ)
unfolding usable vector_or_empty
matches e query vs [] = ok ([], 0)
matches e query vs (m ∷ ms) =
    let rest = matches e query vs ms in
    if usable e query (find m.id vs)
    then (do
      v ← unit_vector e (vector_or_empty (find m.id vs))
      r ← rest
      ok (record { memory = m; score = e.product query v } ∷ r.0, r.1))
    else (do r ← rest; ok (r.0, suc r.1))

head_vector : List (List Json) → Result (List Json)
head_vector [] = crashed index_error
head_vector (v ∷ vs) = ok v

unfoldable pub semantic_rows :
    Engine → (ℕ → ℕ → ℕ) → Actor → SemanticQuery → Shelf → Result (List Match × ℕ)
unfolding head_vector
semantic_rows e t actor d s = do
  vectors ← embed e (d.query ∷ [])
  query ← head_vector vectors
  fresh ← actor_for s.accounts.db actor.id actor.workspace
  require fresh (memory_grant d.namespace "read")
  let rows = first_rows 501 (latest_query actor.workspace d.namespace (t 1 0) (memories s))
  guard (not (ltb 500 (length rows))) 409 "namespace exceeds 500-record semantic search limit"
  found ← matches e query s.vectors rows
  ok (first_rows d.limit (sort (λ (g h : Match). e.above g.score h.score) found.0), found.1)

-- `search(actor, data)`.
unfoldable pub semantic_search :
    Env → Engine → (ℕ → ℕ → ℕ) → Actor → SemanticQuery → Shelf → Result (List Match × ℕ) × Shelf
semantic_search env e t actor d s =
    and_then (require actor (memory_grant d.namespace "read"), s)
      λ _ s. with_quota env actor (t 0) s λ s. (semantic_rows e t actor d s, s)
