-- ===== src/Recall/Newest.antt =====
-- The first rows of their keys in the order of a search.
use rednexus_ai.Base.{
  refl, ℕ, zero, suc, ◌≡◌, String, Bool, true, false, List, [], ◌∷◌, ◌==◌, elem, if◌then◌else◌,
  arith, All, All-map, Bool-cases, inl, inr, eq_iff, eq_refl,
}
use rednexus_ai.Base.Sorting.{first_rows, All-sort, All-first_rows, IsSorted}
use rednexus_ai.Store.{Memory}
use rednexus_ai.Recall.Search.{Words, Hit, newest_first, best_first, latest, hits, found}

pub newest_first-total : (m n : Memory) → newest_first m n ≡ false → newest_first n m ≡ true
newest_first-total m n h = ground arith

pub newest_first_trans :
    (m n o : Memory) → newest_first m n ≡ true → newest_first n o ≡ true → newest_first m o ≡ true
newest_first_trans m n o h k = ground arith

abbrev InOrder : List Memory → Type 0
InOrder = IsSorted newest_first newest_first-total newest_first_trans

-- Of the rows of its key this one comes first.
abbrev pub Newest : List Memory → Memory → Type 0
Newest ms r = All (λ (m : Memory). (if m.key == r.key then newest_first r m else true) ≡ true) ms

-- The same for a row whose key was not met before.
abbrev pub New : List String → List Memory → Memory → Type 0
New seen ms r = (elem r.key seen ≡ false) × Newest ms r

newest_first_refl : (m : Memory) → newest_first m m ≡ true
newest_first_refl m = ground arith

New-first :
    (seen : List String) (m : Memory) (ms : List Memory)
    → elem m.key seen ≡ false
    → All (λ n. newest_first m n ≡ true) ms
    → New seen (m ∷ ms) m
New-first seen m ms fresh h = (
  fresh,
  (
    rw (eq_refl m.key) (newest_first_refl m),
    All-map (λ n. newest_first m n ≡ true)
        (λ n. (if n.key == m.key then newest_first m n else true) ≡ true) ms
        (λ n k. ground (arith, k)) h,
  ),
)

New-later :
    (seen : List String) (m : Memory) (ms : List Memory) (r : Memory)
    → New (m.key ∷ seen) ms r
    → New seen (m ∷ ms) r
unfolding elem
New-later seen m ms r (fresh, h) =
    (ground (arith, fresh), (ground (arith, fresh, eq_iff m.key r.key, eq_iff r.key m.key), h))

New-seen :
    (seen : List String) (m : Memory) (ms : List Memory) (r : Memory)
    → elem m.key seen ≡ true
    → New seen ms r
    → New seen (m ∷ ms) r
New-seen seen m ms r met (fresh, h) = (fresh, (apart, h))
  where
    apart : (if m.key == r.key then newest_first r m else true) ≡ true
    apart = ground (arith, met, fresh, eq_iff m.key r.key)

pub latest-New :
    (seen : List String) (n : ℕ) (ms : List Memory)
    → InOrder ms
    → All (New seen ms) (latest seen (first_rows n ms))
unfolding latest first_rows
latest-New seen zero ms s = tt
latest-New seen (suc n) [] s = tt
latest-New seen (suc n) (m ∷ ms) s = elim (Bool-cases (elem m.key seen)) [
  | inl met ↦ rw met (
      All-map (New seen ms) (New seen (m ∷ ms)) (latest seen (first_rows n ms))
        (λ r h. New-seen seen m ms r met h) (latest-New seen n ms s.1))
  | inr fresh ↦ rw fresh (
    New-first seen m ms fresh s.0,
    All-map (New (m.key ∷ seen) ms) (New seen (m ∷ ms)) (latest (m.key ∷ seen) (first_rows n ms))
        (λ r h. New-later seen m ms r h) (latest-New (m.key ∷ seen) n ms s.1),
  )
]

pub All-latest {κ} :
    (P : Memory → Type κ) (seen : List String) (ms : List Memory)
    → All P ms
    → All P (latest seen ms)
unfolding latest
All-latest P seen [] hs = tt
All-latest P seen (m ∷ ms) (h, hs) = elim (Bool-cases (elem m.key seen)) [
  | inl met ↦ rw met (All-latest P seen ms hs)
  | inr fresh ↦ rw fresh (h, All-latest P (m.key ∷ seen) ms hs)
]

All-skip {κ} :
    (Q : Hit → Type κ) (gone hidden : Bool) (h : Hit) (here rest : List Hit)
    → (gone ≡ false → Q h)
    → All Q here
    → All Q rest
    → All Q (if gone then here else if hidden then rest else h ∷ rest)
All-skip Q true hidden h here rest q hs rs = hs
All-skip Q false true h here rest q hs rs = rs
All-skip Q false false h here rest q hs rs = (q refl, rs)

-- What is shown is in the rows and not deleted.
All-hits {κ} :
    (P : Memory → Type κ) (w : Words) (words : List String) (t : ℕ → ℕ) (i : ℕ) (ms : List Memory)
    → All P ms
    → All (λ (h : Hit). P h.memory × (h.memory.deleted ≡ false)) (hits w words t i ms)
unfolding hits
All-hits P w words t i [] hs = tt
All-hits P w words t i (m ∷ ms) (h, hs) =
    All-skip (λ (h : Hit). P h.memory × (h.memory.deleted ≡ false)) m.deleted _ _ _ _
      (λ there. (h, there)) (All-hits P w words t i ms hs) (All-hits P w words t (suc i) ms hs)

pub All-found {κ} :
    (P : Memory → Type κ) (w : Words) (t : ℕ → ℕ) (query : String) (rows : List Memory)
    → All P rows
    → All (λ (h : Hit). P h.memory × (h.memory.deleted ≡ false)) (found w t query rows)
unfolding found
All-found P w t query rows hs =
    All-first_rows (λ (h : Hit). P h.memory × (h.memory.deleted ≡ false)) 100 _
      (All-sort (λ (h : Hit). P h.memory × (h.memory.deleted ≡ false)) best_first _
        (All-hits P w (w.split query) t 0 rows hs))
