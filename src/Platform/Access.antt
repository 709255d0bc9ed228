-- ===== src/Platform/Access.antt =====
-- `Platform.accessible_run`.
use rednexus_ai.Base.{
  ◌≡◌, arith, String, Bool, ◌&&◌, ◌||◌, Option, none, some, [], ◌∷◌, elem, ◌==◌, if◌then◌else◌,
  Result, ok, raise,
}
use rednexus_ai.Base.Table.{find}
use rednexus_ai.Identity.{Actor}
use rednexus_ai.Store.{Run, Db, run_keyed}

-- A run is seen by its owner, and by the administrators and reviewers of its workspace.
abbrev pub can_see : Actor → Run → Bool
can_see a r =
    r.workspace == a.workspace && (r.owner == a.id || elem a.role ("admin" ∷ "reviewer" ∷ []))

visible : Actor → Option Run → Result Run
visible a none = raise 404 "run not found"
visible a (some r) = if can_see a r then ok r else raise 404 "run not found"

unfoldable pub accessible_run : Actor → String → Db → Result Run
unfolding visible
accessible_run a i db = visible a (find i db.runs)

pub accessible_run-found :
    (a : Actor) (i : String) (db : Db) {r : Run}
    → accessible_run a i db ≡ ok r
    → find i db.runs ≡ some r
unfolding accessible_run
accessible_run-found a i db h = ground arith
