-- ===== src/Worker/Claim.antt =====
-- `Worker.claim`: the oldest runs that are due, each tried with a conditional update of its own.
use rednexus_ai.Base.{
  ℕ, zero, suc, ◌+◌, ◌*◌, String, Bool, not, ◌&&◌, Option, none, some, List, [], ◌∷◌, filter, ltb,
  leb, if◌then◌else◌,
}
use rednexus_ai.Env.{Env}
use rednexus_ai.Store.{Run, Db, running, is_claimable, run_keyed}
use rednexus_ai.Worker.Recover.{affects, update_run}

abbrev pub due : ℕ → Run → Bool
due now r = is_claimable r.status && leb r.next_attempt now && ltb now r.deadline

-- `order_by(Run.created)`.
insert_run : Run → List Run → List Run
insert_run r [] = r ∷ []
insert_run r (x ∷ xs) = if leb r.created x.created then r ∷ x ∷ xs else x ∷ insert_run r xs

by_created : List Run → List Run
by_created [] = []
by_created (r ∷ rs) = insert_run r (by_created rs)

take_ids : ℕ → List Run → List String
take_ids zero rs = []
take_ids (suc n) [] = []
take_ids (suc n) (r ∷ rs) = r.id ∷ take_ids n rs

-- The identifiers that the first query returns.
unfoldable pub candidates : ℕ → Db → List String
unfolding take_ids by_created insert_run
candidates now db = take_ids 20 (by_created (filter (due now) db.runs))

-- The condition of the update; unlike the query it tests the cancellation and not the deadline.
abbrev pub claimable : ℕ → Run → Bool
claimable now r = is_claimable r.status && leb r.next_attempt now && not r.cancel_requested

unfoldable pub lease : Env → ℕ → String → Run → Run
lease env now token r = record r {
  status = running;
  lease_token = some token;
  lease_until = some (now + env.lease_seconds * env.second);
  updated = now;
}

-- One round of the loop, a transaction of its own: whether the run is now ours.
unfoldable pub claim_one : Env → ℕ → String → String → Db → Bool × Db
unfolding lease
claim_one env now i token db =
    (affects i (claimable now) db, update_run i (claimable now) (lease env now token) db)

unfoldable pub claim_first :
    Env → ℕ → (ℕ → String) → ℕ → List String → Db → Option (String × String) × Db
unfolding claim_one
claim_first env now uid k [] db = (none, db)
claim_first env now uid k (i ∷ is) db =
    let (won, db') = claim_one env now i (uid k) db in
    let later = claim_first env now uid (suc k) is db' in
    if won then (some (i, uid k), db') else later

-- `Worker.claim`: the run and the lease's token, if one was won.
unfoldable pub claim : Env → ℕ → (ℕ → String) → Db → Option (String × String) × Db
unfolding claim_first candidates
claim env now uid db = claim_first env now uid 0 (candidates now db) db
