-- ===== src/Recall/Search.antt =====
-- `Platform.search_memory` of service.py.
use Prim.Native.String
use rednexus_ai.Base.{
  ℕ, suc, ◌+◌, String, Bool, true, false, not, ◌&&◌, ◌||◌, List, [], ◌∷◌, ◌==◌, elem, filter, ltb,
  leb, eqb, if◌then◌else◌, Result, ok, ◌>>◌,
}
use rednexus_ai.Base.Sorting.{sort, first_rows}
use rednexus_ai.Identity.{Actor, require}
use rednexus_ai.Store.{Db, Memory}

-- Python's texts: `query.casefold().split()`, and `text.casefold().count(word)`.
pub record Words : Type 0 where
  pub split : String → List String
  pub occurrences : String → String → ℕ

-- `order_by(created.desc(), version.desc())`. Rows that agree in both come in the table's order.
abbrev pub newest_first : Memory → Memory → Bool
newest_first m n = ltb n.created m.created || eqb m.created n.created && leb n.version m.version

-- The first row of each key: the values of the dict `latest`, in the order of their insertion.
unfoldable pub latest : List String → List Memory → List Memory
latest seen [] = []
latest seen (m ∷ ms) =
    let rest = latest seen ms in
    let others = latest (m.key ∷ seen) ms in if elem m.key seen then rest else m ∷ others

unfoldable pub score : Words → List String → String → ℕ
score w [] text = 0
score w (word ∷ words) text = w.occurrences word text + score w words text

pub record Hit : Type 0 where
  pub memory : Memory
  pub score : ℕ

unfoldable pub no_words : List String → Bool
no_words [] = true
no_words (w ∷ ws) = false

-- The loop over the rows, which reads the clock for each that is not deleted.
unfoldable pub hits : Words → List String → (ℕ → ℕ) → ℕ → List Memory → List Hit
unfolding no_words
hits w words t i [] = []
hits w words t i (m ∷ ms) =
    let here = hits w words t i ms in
    let rest = hits w words t (suc i) ms in
    if m.deleted
    then here
    else if leb m.expires (t i) || not (no_words words) && eqb (score w words m.text) 0
    then rest
    else record { memory = m; score = score w words m.text } ∷ rest

-- `sorted(results, key=lambda x: (x["score"], x["created"]), reverse=True)`.
abbrev pub best_first : Hit → Hit → Bool
best_first g h = ltb h.score g.score || eqb g.score h.score && leb h.memory.created g.memory.created

abbrev pub is_in : String → String → Memory → Bool
is_in w space m = m.workspace == w && m.namespace == space

unfoldable pub newest : String → String → List Memory → List Memory
newest w space ms = first_rows 1000 (sort newest_first (filter (is_in w space) ms))

unfoldable pub found : Words → (ℕ → ℕ) → String → List Memory → List Hit
found w t query rows = first_rows 100 (sort best_first (hits w (w.split query) t 0 rows))

-- `search_memory(actor, namespace, query, history)`.
unfoldable pub search_memory :
    Words → (ℕ → ℕ) → Actor → String → String → Bool → Db → Result (List Hit)
search_memory w t actor space query history db = do
  require actor (String.◌++◌ "memory:" (String.◌++◌ space ":read"))
  let rows = newest actor.workspace space db.memory
  ok (found w t query (if history then rows else latest [] rows))
