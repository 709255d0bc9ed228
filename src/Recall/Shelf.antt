-- ===== src/Recall/Shelf.antt =====
-- The tables that memory uses: those of the database, the quotas, and the vectors.
use rednexus_ai.Base.{
  refl, ◌≡◌, String, List, Result, ok, raised, crashed, Bool, not, elem, filter, map,
}
use rednexus_ai.Base.Ensures.{Ensures}
use rednexus_ai.Base.Table.{Keyed}
use rednexus_ai.Json.{Json}
use rednexus_ai.Sessions.{Accounts}
use rednexus_ai.Store.{Db, Memory}

pub record MemoryVector : Type 0 where
  pub memory_id : String
  pub model : String
  pub vector : List Json

instance abbrev pub vector_keyed : Keyed MemoryVector
vector_keyed = record { key = λ v. v.memory_id }

pub record Shelf : Type 0 where
  pub accounts : Accounts
  pub vectors : List MemoryVector

abbrev pub memories : Shelf → List Memory
memories s = s.accounts.db.memory

-- The shelf with other tables.
abbrev pub reshelve : Db → List MemoryVector → Shelf → Shelf
reshelve db vs s = let a = s.accounts in record { accounts = record a { db = db }; vectors = vs }

-- `with db.session.begin() as s` over all of these tables.
abbrev pub whole {ℓ} : {A : Type ℓ} → Shelf → Result (A × Shelf) → Result A × Shelf
whole s (ok (a, t)) = (ok a, t)
whole s (raised p) = (raised p, s)
whole s (crashed x) = (crashed x, s)

pub whole-keeps {ℓ κ} :
    {A : Type ℓ} (P : Shelf → Type κ) (s : Shelf) (m : Result (A × Shelf))
    → P s
    → Ensures (λ x. P x.1) m
    → P (whole s m).1
whole-keeps P s (ok (a, t)) h e = e.at (a, t) refl
whole-keeps P s (raised p) h e = h
whole-keeps P s (crashed x) h e = h

pub whole-eq-ok {ℓ} :
    {A : Type ℓ} (s : Shelf) (m : Result (A × Shelf)) {a : A} {t : Shelf}
    → whole s m ≡ (ok a, t)
    → m ≡ ok (a, t)
whole-eq-ok s (ok (b, x)) h = cc
whole-eq-ok s (raised p) h = cc
whole-eq-ok s (crashed x) h = cc

-- The identifiers of the rows with a property: the subquery of a `DELETE`.
unfoldable pub ids : (Memory → Bool) → List Memory → List String
ids p ms = map (λ (m : Memory). m.id) (filter p ms)

-- `delete(MemoryVector).where(memory_id.in_(…))`.
unfoldable pub delete_vectors : List String → List MemoryVector → List MemoryVector
delete_vectors gone vs = filter (λ (v : MemoryVector). not (elem v.memory_id gone)) vs
