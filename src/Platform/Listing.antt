-- ===== src/Platform/Listing.antt =====
-- `Platform.runs` and `Platform.approvals`: what a user may list.
use rednexus_ai.Base.{
  ℕ, ◌≤◌, ◌≡◌, String, Bool, true, ◌&&◌, ◌||◌, Option, List, [], ◌∷◌, length, elem, leb, ◌==◌,
  Result, ok, ◌>>◌, filter, map, All, All-map, All-passed, arith,
}
use rednexus_ai.Base.Sorting.{sort, first_rows, All-sort, All-first_rows, length-first_rows}
use rednexus_ai.Json.{Json}
use rednexus_ai.Identity.{Actor, require_role}
use rednexus_ai.Store.{Run, PlanStep, Status, Approval, Db, is_pending}
use rednexus_ai.Platform.Access.{can_see}

-- `run_view(row)`.
pub record RunView : Type 0 where
  pub id : String
  pub title : String
  pub status : Status
  pub cursor : ℕ
  pub outputs : List Json
  pub created : ℕ
  pub updated : ℕ
  pub deadline : ℕ
  pub error : Option String
  pub tool_calls : ℕ
  pub cost : ℕ
  pub budget : ℕ
  pub cancel_requested : Bool
  pub plan : List PlanStep
  pub owner : String

unfoldable pub run_view : Run → RunView
run_view r = record {
  id = r.id;
  title = r.title;
  status = r.status;
  cursor = r.cursor;
  outputs = r.outputs;
  created = r.created;
  updated = r.updated;
  deadline = r.deadline;
  error = r.error;
  tool_calls = r.tool_calls;
  cost = r.cost;
  budget = r.budget;
  cancel_requested = r.cancel_requested;
  plan = r.plan;
  owner = r.owner;
}

-- The condition of the query: the owner's is added for who is neither administrator nor reviewer.
abbrev pub listed : Actor → Run → Bool
listed a r =
    r.workspace == a.workspace && (elem a.role ("admin" ∷ "reviewer" ∷ []) || r.owner == a.id)

abbrev later_created : Run → Run → Bool
later_created r q = leb q.created r.created

abbrev sooner_expired : Approval → Approval → Bool
sooner_expired a b = leb a.expires b.expires

-- The rows that `runs(actor, limit)` shows, the latest first.
unfoldable pub runs : Actor → ℕ → Db → List Run
runs actor n db = first_rows n (sort later_created (filter (listed actor) db.runs))

unfoldable pub run_views : Actor → ℕ → Db → List RunView
run_views actor n db = map run_view (runs actor n db)

-- `approvals(actor)`: the undecided ones of the workspace, the first to expire first.
unfoldable pub approvals : Actor → Db → Result (List Approval)
approvals actor db = do
  require_role actor ("admin" ∷ "reviewer" ∷ [])
  ok (
      sort sooner_expired (
        filter (λ (a : Approval). a.workspace == actor.workspace && is_pending a.status)
          db.approvals))

listed-can_see : (a : Actor) (r : Run) → listed a r ≡ true → can_see a r ≡ true
listed-can_see a r h = ground arith

-- A user lists at most as many runs as asked for, and only runs that `accessible_run` would give.
pub runs-can_see :
    (actor : Actor) (n : ℕ) (db : Db)
    → All (λ r. can_see actor r ≡ true) (runs actor n db) × (length (runs actor n db) ≤ n)
unfolding runs
runs-can_see actor n db =
    let found = filter (listed actor) db.runs in
    (
      All-first_rows (λ r. can_see actor r ≡ true) n (sort later_created found)
          (All-sort (λ r. can_see actor r ≡ true) later_created found
            (All-map (λ r. listed actor r ≡ true) (λ r. can_see actor r ≡ true) found
              (λ r h. listed-can_see actor r h) (All-passed (listed actor) db.runs))),
      length-first_rows n (sort later_created found),
    )
