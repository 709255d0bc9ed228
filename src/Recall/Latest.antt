-- ===== src/Recall/Latest.antt =====
-- What a search without history shows of each key.
use Prim.Native.String
use Prim.Native.String.{◌++◌}
use rednexus_ai.Base.Ensures.{Ensures-ok, Ensures-bind}
use rednexus_ai.Base.{
  ok, All-filter, All-passed, All-both, All-unfilter, filter, refl, ℕ, ◌≡◌, String, Bool, true,
  false, ◌&&◌, List, [], ◌==◌, ltb, leb, if◌then◌else◌, arith, All, All-map, eq_iff,
}
use rednexus_ai.Base.Sorting.{sort-IsSorted, All-unsort, sort, first_rows, All-sort, All-first_rows}
use rednexus_ai.Store.{Db, Memory}
use rednexus_ai.Platform.Memory.{same_key}
use rednexus_ai.Identity.{Actor, require}
use rednexus_ai.Recall.Search.{
  search_memory, search_memory, newest, Words, Hit, newest_first, latest, is_in, found,
}
use rednexus_ai.Recall.Newest.{
  newest_first-total, newest_first_trans, Newest, New, latest-New, All-latest, All-found,
}

-- In the namespace, a later version of a key was not written at an earlier time.
abbrev pub later : String → String → Memory → Memory → Bool
later w space m n =
    if is_in w space m && is_in w space n && m.key == n.key && ltb m.version n.version
    then leb m.created n.created
    else true

abbrev pub IsChronological : String → String → List Memory → Type 0
IsChronological w space ms =
    All (λ (m : Memory). All (λ (n : Memory). later w space m n ≡ true) ms) ms

-- A row of the namespace that is not deleted and whose version no other row of its key exceeds.
abbrev pub IsLatest : String → String → List Memory → Memory → Type 0
IsLatest w space ms r =
    (is_in w space r ≡ true)
    × All
        (λ (m : Memory).
          (if same_key w space r.key m then leb m.version r.version else true) ≡ true)
        ms

later-leb :
    (w space : String) (r m : Memory)
    → is_in w space r ≡ true
    → later w space r m ≡ true
    → (if is_in w space m then if m.key == r.key then newest_first r m else true else true) ≡ true
    → (if same_key w space r.key m then leb m.version r.version else true) ≡ true
later-leb w space r m here h n = ground (arith, eq_iff m.key r.key, eq_iff r.key m.key)

-- A row of the namespace before which nothing of its key was written later.
abbrev Chronological : String → String → List Memory → Memory → Type 0
Chronological w space ms r =
    (is_in w space r ≡ true) × All (λ (m : Memory). later w space r m ≡ true) ms

abbrev NewestIn : String → String → List Memory → Memory → Type 0
NewestIn w space ms r =
    All
      (λ (m : Memory).
        (if is_in w space m then if m.key == r.key then newest_first r m else true else true)
        ≡ true)
      ms

Newest-unsorted :
    (w space : String) (ms : List Memory) (r : Memory)
    → Newest (sort newest_first (filter (is_in w space) ms)) r
    → NewestIn w space ms r
Newest-unsorted w space ms r h =
    All-unfilter (λ (m : Memory). (if m.key == r.key then newest_first r m else true) ≡ true) _
      (is_in w space) ms (λ m e k. rw e k) (λ m e. rw e refl)
      (All-unsort _ newest_first (filter (is_in w space) ms) h)

Newest-IsLatest :
    (w space : String) (ms : List Memory) (r : Memory)
    → Chronological w space ms r
    → New [] (sort newest_first (filter (is_in w space) ms)) r
    → IsLatest w space ms r
Newest-IsLatest w space ms r (here, chron) (_, n) = (
  here,
  All-map _ _ ms (λ m h. later-leb w space r m here h.0 h.1)
      (All-both _ _ ms chron (Newest-unsorted w space ms r n)),
)

-- The rows that a search without history looks at.
latest-IsLatest :
    (w space : String) (ms : List Memory)
    → IsChronological w space ms
    → All (IsLatest w space ms) (latest [] (newest w space ms))
unfolding newest
latest-IsLatest w space ms c =
    let sub = filter (is_in w space) ms in
    let sorted = sort newest_first sub in
    let rows = first_rows 1000 sorted in
    let kept = All-latest (Chronological w space ms) [] rows (
      All-first_rows (Chronological w space ms) 1000 sorted (
        All-sort (Chronological w space ms) newest_first sub (
          All-both (λ r. is_in w space r ≡ true)
            (λ r. All (λ (m : Memory). later w space r m ≡ true) ms) sub
            (All-passed (is_in w space) ms)
            (All-filter (λ r. All (λ (m : Memory). later w space r m ≡ true) ms) (is_in w space) ms
              c)))) in
    let new =
      latest-New [] 1000 sorted
        (sort-IsSorted newest_first newest_first-total newest_first_trans sub) in
    All-map (λ r. Chronological w space ms r × New [] sorted r) (IsLatest w space ms)
      (latest [] rows) (λ r h. Newest-IsLatest w space ms r h.0 h.1)
      (All-both (Chronological w space ms) (New [] sorted) (latest [] rows) kept new)

-- If later versions were not written at earlier times, a search without history shows of each key
-- only the version that no other exceeds, and only if it is not deleted.
pub search_memory-IsLatest :
    (words : Words) (t : ℕ → ℕ) (actor : Actor) (space query : String) (db : Db) (shown : List Hit)
    → IsChronological actor.workspace space db.memory
    → search_memory words t actor space query false db ≡ ok shown
    → All
        (λ (h : Hit).
          IsLatest actor.workspace space db.memory h.memory × (h.memory.deleted ≡ false))
        shown
unfolding search_memory
search_memory-IsLatest words t actor space query db shown c e =
    (Ensures-bind
        {P = All (λ (h : Hit).
          IsLatest actor.workspace space db.memory h.memory × (h.memory.deleted ≡ false))}
        (require actor (String.◌++◌ "memory:" (String.◌++◌ space ":read"))) _
        λ _ _.
          Ensures-ok (found words t query (latest [] (newest actor.workspace space db.memory))) (
            All-found (IsLatest actor.workspace space db.memory) words t query
              (latest [] (newest actor.workspace space db.memory))
              (latest-IsLatest actor.workspace space db.memory c))).at
      shown e
