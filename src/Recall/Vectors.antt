-- ===== src/Recall/Vectors.antt =====
-- Every vector is of a row that is not deleted: what each write keeps of that.
use mathlib.Core.Option
use rednexus_ai.Base.{
  All-append, suc, suc, ℕ, ◌≡◌, refl, ap, ◌∙◌, String, Bool, true, false, not, Option, none, some,
  List, [], ◌∷◌, ◌==◌, elem, filter, if◌then◌else◌, arith, All, All-map, All-both, All-filter,
  All-passed, Bool-cases, inl, inr, eq_iff,
}
use rednexus_ai.Base.Table.{
  modify, put, modify, put, find, put, modify, update_where, find-update_where,
}
use rednexus_ai.Json.{Json}
use rednexus_ai.Env.{Env}
use rednexus_ai.Identity.{Actor}
use rednexus_ai.Store.{emit, emit, Memory, memory_keyed}
use rednexus_ai.Recall.Shelf.{Shelf, MemoryVector, vector_keyed, memories, ids, delete_vectors}
use rednexus_ai.Recall.Redact.{redact, same_as, forget, purge_expired, is_stale, is_gone}
use rednexus_ai.Recall.Semantic.{alive, store_found, Engine, store_vector, store_vectors}

-- The row with an identifier is there and not deleted.
abbrev pub is_live : Option Memory → Bool
is_live none = false
is_live (some m) = not m.deleted

abbrev pub IsLive : List Memory → MemoryVector → Type 0
IsLive ms v = is_live (find v.memory_id ms) ≡ true

-- Every vector is of a row that is not deleted.
abbrev pub IsClean : Shelf → Type 0
IsClean s = All (IsLive (memories s)) s.vectors

elem-ids :
    (p : Memory → Bool) (i : String) (ms : List Memory) {m : Memory}
    → find i ms ≡ some m
    → p m ≡ true
    → elem i (ids p ms) ≡ true
unfolding ids filter elem find
elem-ids p i [] e h = cc
elem-ids p i (x ∷ ms) {m} e h =
    ground (arith, eq_iff x.id i, eq_iff i x.id, elem-ids p i ms {m = m})

-- A write that redacts some rows, and the deletion of the vectors of rows among which these are.
module _ (p q : Memory → Bool) (f : Memory → Memory) (same : (m : Memory) → (f m).id ≡ m.id)
    (covered : (m : Memory) → q m ≡ true → p (f m) ≡ true) where
  kept_row :
      (ms : List Memory) (v : MemoryVector) (m : Memory)
      → find v.memory_id (update_where q f ms) ≡ some (if q m then f m else m)
      → not m.deleted ≡ true
      → not (elem v.memory_id (ids p (update_where q f ms))) ≡ true
      → IsLive (update_where q f ms) v
  kept_row ms v m there live kept = elim (Bool-cases (q m)) [
    | inl hit ↦
        let gone = elem-ids p v.memory_id (update_where q f ms) (rw hit at there) (covered m hit) in
        absurd (ground (arith, gone, kept))
    | inr missed ↦ rw there (rw missed live)
  ]

  kept-IsLive :
      (ms : List Memory) (v : MemoryVector) (o : Option Memory)
      → find v.memory_id ms ≡ o
      → is_live o ≡ true
      → not (elem v.memory_id (ids p (update_where q f ms))) ≡ true
      → IsLive (update_where q f ms) v
  kept-IsLive ms v none e live kept = cc
  kept-IsLive ms v (some m) e live kept =
      kept_row ms v m
        (find-update_where v.memory_id q f ms same
          ∙ ap (Option.map (λ m. if q m then f m else m)) e)
        live kept

  delete_vectors-IsLive :
      (ms : List Memory) (vs : List MemoryVector)
      → All (IsLive ms) vs
      → All (IsLive (update_where q f ms)) (delete_vectors (ids p (update_where q f ms)) vs)
  unfolding delete_vectors
  delete_vectors-IsLive ms vs live =
      let test = λ (v : MemoryVector). not (elem v.memory_id (ids p (update_where q f ms))) in
      All-map _ _ (filter test vs) (λ v h. kept-IsLive ms v (find v.memory_id ms) refl h.0 h.1)
        (All-both (IsLive ms) (λ v. test v ≡ true) (filter test vs)
          (All-filter (IsLive ms) test vs live) (All-passed test vs))

pub forget-IsClean :
    (env : Env) (actor : Actor) (row : Memory) (s : Shelf)
    → IsClean s
    → IsClean (forget env actor row s)
unfolding forget emit
forget-IsClean env actor row s h =
    delete_vectors-IsLive (same_as actor row) (same_as actor row) (redact "deleted") (λ _. refl)
      (λ m e. e) (memories s) s.vectors h

pub purge_expired-IsClean : (t : ℕ → ℕ) (s : Shelf) → IsClean s → IsClean (purge_expired t s).1
unfolding purge_expired
purge_expired-IsClean t s h =
    delete_vectors-IsLive (is_gone (t 0)) (is_stale (t 1)) (redact "expired") (λ _. refl)
      (λ m e. ground arith) (memories s) s.vectors h

alive-is_live : (now : ℕ) (o : Option Memory) → alive now o ≡ true → is_live o ≡ true
unfolding alive
alive-is_live now none e = cc
alive-is_live now (some m) e = ground arith

All-put :
    (P : MemoryVector → Type 0) (v : MemoryVector) (i : String) (vs : List MemoryVector)
    → P v
    → All P vs
    → All P (modify i (λ _. v) vs)
unfolding modify
All-put P v i [] h hs = tt
All-put P v i (x ∷ vs) h (k, ks) = elim (Bool-cases (x.memory_id == i)) [
  | inl same ↦ rw same (h, ks)
  | inr other ↦ rw other (k, All-put P v i vs h ks)
]

store_found-IsLive :
    (ms : List Memory) (o : Option MemoryVector) (v : MemoryVector) (vs : List MemoryVector)
    → IsLive ms v
    → All (IsLive ms) vs
    → All (IsLive ms) (store_found o v vs)
unfolding store_found put
store_found-IsLive ms none v vs h hs = All-append (IsLive ms) vs (v ∷ []) hs (h, tt)
store_found-IsLive ms (some old) v vs h hs = All-put (IsLive ms) v v.memory_id vs h hs

store_vector-IsClean :
    (e : Engine) (now : ℕ) (row : Memory) (vector : List Json) (s : Shelf)
    → IsClean s
    → IsClean (store_vector e now row vector s).1
unfolding store_vector
store_vector-IsClean e now row vector s h =
    elim (Bool-cases (alive now (find row.id (memories s)))) [
      | inl there ↦ rw there (
          store_found-IsLive (memories s) (find row.id s.vectors) _ s.vectors
            (alive-is_live now (find row.id (memories s)) there) h)
      | inr gone ↦ rw gone h
    ]

pub store_vectors-IsClean :
    (e : Engine) (t : ℕ → ℕ) (i : ℕ) (rows : List Memory) (vectors : List (List Json)) (s : Shelf)
    → IsClean s
    → IsClean (store_vectors e t i rows vectors s).1
unfolding store_vectors
store_vectors-IsClean e t i [] vectors s h = h
store_vectors-IsClean e t i (m ∷ ms) [] s h = h
store_vectors-IsClean e t i (m ∷ ms) (v ∷ vs) s h =
    store_vectors-IsClean e t (suc i) ms vs (store_vector e (t i) m v s).1
      (store_vector-IsClean e (t i) m v s h)
