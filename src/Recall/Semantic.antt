-- ===== src/Recall/Semantic.antt =====
-- The class `SemanticMemory` of memory.py. The embedding service and arithmetic on floats are
-- outside: the service answers with records, and `normalise` and `product` are `math`'s.
use Prim.Native.String
use rednexus_ai.Base.{
  ℕ, suc, ◌+◌, String, Bool, true, false, not, ◌&&◌, Option, none, some, List, [], ◌∷◌, ◌++◌, ◌==◌,
  length, filter, ltb, leb, eqb, if◌then◌else◌, Result, ok, guard, or_raise, ◌>>=◌, ◌>>◌,
}
use rednexus_ai.Base.Sorting.{sort}
use rednexus_ai.Base.Table.{find, put}
use rednexus_ai.Json.{Json}
use rednexus_ai.Json.Compare.{number}
use rednexus_ai.Identity.{Actor, actor_for, require}
use rednexus_ai.Store.{Memory, memory_keyed}
use rednexus_ai.Platform.Memory.{max_version}
use rednexus_ai.Recall.Shelf.{Shelf, MemoryVector, vector_keyed, memories, whole}
use rednexus_ai.Recall.Search.{is_in}

pub record SemanticQuery : Type 0 where
  pub namespace : String
  pub query : String
  pub limit : ℕ

-- One record of the service's answer.
pub record Embedded : Type 0 where
  pub index : ℕ
  pub embedding : List Json

pub record Engine : Type 0 where
  -- whether the settings name an endpoint and a model
  pub configured : Bool
  -- what `registry.check_endpoint` says of the endpoint
  pub endpoint : Result (Unit {0})
  -- the answer for some texts, or `none` if there is none that can be read
  pub provider : List String → Option (List Embedded)
  -- the vector over its norm, or `none` if the norm is not finite or 0
  pub normalise : List Json → Option (List Json)
  pub product : List Json → List Json → Json
  -- whether the first score is at least the second
  pub above : Json → Json → Bool
  pub model_id : String

all_numbers : List Json → Bool
all_numbers [] = true
all_numbers (v ∷ vs) = elim (number v) [ none ↦ false | some n ↦ all_numbers vs ]

-- `unit_vector(value)` on a list.
unfoldable pub unit_vector : Engine → List Json → Result (List Json)
unfolding all_numbers
unit_vector e v = do
  guard (leb 1 (length v) && leb (length v) 4096) 502 "invalid embedding dimensions"
  guard (all_numbers v) 502 "invalid embedding values"
  or_raise 502 "invalid embedding norm" (e.normalise v)

unfoldable pub unit_vectors : Engine → List Embedded → Result (List (List Json))
unit_vectors e [] = ok []
unit_vectors e (r ∷ rs) = do v ← unit_vector e r.embedding; vs ← unit_vectors e rs; ok (v ∷ vs)

-- `[r["index"] for r in records] == list(range(n))`, from some index on.
in_range : ℕ → ℕ → List Embedded → Bool
in_range i n [] = eqb i n
in_range i n (r ∷ rs) = eqb r.index i && in_range (suc i) n rs

same_length : ℕ → List (List Json) → Bool
same_length n [] = true
same_length n (v ∷ vs) = eqb (length v) n && same_length n vs

one_length : List (List Json) → Bool
one_length [] = false
one_length (v ∷ vs) = same_length (length v) vs

abbrev lower_index : Embedded → Embedded → Bool
lower_index r q = leb r.index q.index

abbrev embed_failed : String
embed_failed = "embedding provider failed or returned an invalid response"

-- `embed(texts)`.
unfoldable pub embed : Engine → List String → Result (List (List Json))
unfolding in_range one_length same_length
embed e texts = do
  guard e.configured 409 "semantic memory requires an embedding endpoint and model"
  e.endpoint
  answer ← or_raise 502 embed_failed (e.provider texts)
  let records = sort lower_index answer
  guard (in_range 0 (length texts) records) 502 embed_failed
  vectors ← unit_vectors e records
  guard (one_length vectors) 502 embed_failed
  ok vectors

-- The rows of `latest_query(workspace, namespace)` at a reading of the clock.
abbrev current_row : String → String → ℕ → List Memory → Memory → Bool
current_row w space now ms m =
    is_in w space m
    && eqb m.version (max_version w space m.key ms)
    && not m.deleted
    && ltb now m.expires

abbrev later_row : Memory → Memory → Bool
later_row m n = leb n.created m.created

unfoldable pub latest_query : String → String → ℕ → List Memory → List Memory
latest_query w space now ms = sort later_row (filter (current_row w space now ms) ms)

old_model : Engine → Option MemoryVector → Bool
old_model e none = true
old_model e (some v) = not (v.model == e.model_id)

-- The rows without a vector of the model.
unfoldable pub pending_rows : Engine → List MemoryVector → List Memory → List Memory
unfolding old_model
pending_rows e vs rows = filter (λ (m : Memory). old_model e (find m.id vs)) rows

unfoldable pub alive : ℕ → Option Memory → Bool
alive now none = false
alive now (some m) = not m.deleted && ltb now m.expires

unfoldable pub store_found :
    Option MemoryVector → MemoryVector → List MemoryVector → List MemoryVector
store_found none v vs = vs ++ v ∷ []
store_found (some old) v vs = put v vs

-- One row of a batch: nothing is written for a row that is no longer there.
unfoldable pub store_vector : Engine → ℕ → Memory → List Json → Shelf → ℕ × Shelf
unfolding alive store_found
store_vector e now row vector s =
    let v : MemoryVector = record { memory_id = row.id; model = e.model_id; vector = vector } in
    if alive now (find row.id (memories s))
    then (1, record s { vectors = store_found (find row.id s.vectors) v s.vectors })
    else (0, s)

unfoldable pub store_vectors :
    Engine → (ℕ → ℕ) → ℕ → List Memory → List (List Json) → Shelf → ℕ × Shelf
store_vectors e t i [] vectors s = (0, s)
store_vectors e t i (m ∷ ms) [] s = (0, s)
store_vectors e t i (m ∷ ms) (v ∷ vs) s =
    let (n, s') = store_vector e (t i) m v s in
    let (k, s'') = store_vectors e t (suc i) ms vs s' in (n + k, s'')

abbrev pub memory_grant : String → String → String
memory_grant space action = String.◌++◌ "memory:" (String.◌++◌ space (String.◌++◌ ":" action))

unfoldable pub batch_in :
    Engine → (ℕ → ℕ) → Actor → String → List Memory → List (List Json) → Shelf → Result (ℕ × Shelf)
batch_in e t actor space rows vectors s = do
  fresh ← actor_for s.accounts.db actor.id actor.workspace
  require fresh (memory_grant space "write")
  require fresh (memory_grant space "read")
  ok (store_vectors e t 0 rows vectors s)

-- The transaction of one batch.
unfoldable pub store_batch :
    Engine → (ℕ → ℕ) → Actor → String → List Memory → List (List Json) → Shelf → Result ℕ × Shelf
store_batch e t actor space rows vectors s = whole s (batch_in e t actor space rows vectors s)
