-- ===== src/Platform/Admission.antt =====
-- What `Platform.submit` of service.py promises: idempotency under the request key, and the quota.
use mathlib.Core.Path.{subst}
use rednexus_ai.Base.{
  sym, ◌∙◌, eq_iff, ◌≤◌, String, true, not, ◌&&◌, Option, none, some, List, [], ◌∷◌, ◌++◌, ◌≡◌,
  refl, ◌==◌, eq_refl, arith, count, leb, ltb, if◌then◌else◌, ok, raise, Bool-cases, inl, inr,
  count-append,
}
use rednexus_ai.Base.Ensures.{
  Ensures, Ensures-ok, Ensures-bind, Ensures-guard, Ensures-if, Ensures-raised,
}
use rednexus_ai.Contracts.{RunInput}
use rednexus_ai.Contracts.Dump.{dump_run}
use rednexus_ai.Env.{Draws, Env, digest}
use rednexus_ai.Identity.{Actor}
use rednexus_ai.Registry.{Registry}
use rednexus_ai.Store.{transaction-keeps, transaction-eq-ok, Run, Db, emit}
use rednexus_ai.Platform.Submit.{
  admit_new, snapshot, run_under, is_active_in, new_run, admit, submit_in, submit,
}
use Prim.Native.String

-- The key is in use, for this content.
record IsKept (env : Env) (a : Actor) (w : RunInput) (k : String) (x : Run × Db) : Type 0 where
  stored : run_under a.workspace a.id k x.1.runs ≡ some x.0
  content : x.0.request_digest ≡ digest env (dump_run w)
  key : not (k == "") && leb (String.count k) 200 ≡ true

run_under-append :
    (w o k : String) (r : Run) (rs : List Run)
    → run_under w o k rs ≡ none
    → r.workspace ≡ w
    → r.owner ≡ o
    → r.request_key ≡ k
    → run_under w o k (rs ++ r ∷ []) ≡ some r
unfolding run_under
run_under-append w o k r [] h a b c = rw (a, b, c, eq_refl w, eq_refl o, eq_refl k)
run_under-append w o k r (x ∷ xs) h a b c = ground (arith, run_under-append w o k r xs)

admit-IsKept :
    (env : Env) (reg : Registry) (t : Draws) (a : Actor) (w : RunInput) (k : String)
    (o : Option Run) (db : Db)
    → run_under a.workspace a.id k db.runs ≡ o
    → not (k == "") && leb (String.count k) 200 ≡ true
    → Ensures (IsKept env a w k) (admit env reg t a w k o db)
unfolding admit admit_new new_run emit
admit-IsKept env reg t a w k (some old) db h key =
    Ensures-if (old.request_digest == digest env (dump_run w)) _ _
      (λ same. Ensures-ok _ (record {
        stored = h;
        content = (eq_iff old.request_digest (digest env (dump_run w))).0 same;
        key = key;
      }))
      (λ _. Ensures-raised _ _)
admit-IsKept env reg t a w k none db h key =
    Ensures-guard (ltb (count (is_active_in a.workspace) db.runs) 100) 429
      "workspace active mission quota exhausted" _
      λ _. Ensures-bind (snapshot env reg a w) _ λ plan _.
        Ensures-ok (admit_new env t a w k plan db) (record {
          stored =
              run_under-append a.workspace a.id k (new_run env t a w k plan) db.runs h refl refl
                refl;
          content = refl;
          key = key;
        })

submit_in-IsKept :
    (env : Env) (reg : Registry) (t : Draws) (a : Actor) (w : RunInput) (k : String) (db : Db)
    → Ensures (IsKept env a w k) (submit_in env reg t a w k db)
unfolding submit_in
submit_in-IsKept env reg t a w k db =
    Ensures-guard _ 422 "Idempotency-Key must contain 1..200 characters" _
      λ key. admit-IsKept env reg t a w k (run_under a.workspace a.id k db.runs) db refl key

kept_answer :
    (env : Env) (reg : Registry) (t : Draws) (a : Actor) (w v : RunInput) (k : String) (r : Run)
    (d : Db)
    → IsKept env a w k (r, d)
    → submit env reg t a v k d ≡ (
      if digest env (dump_run w) == digest env (dump_run v)
          then ok r
          else raise 409 "idempotency key already used for different content",
      d,
    )
unfolding submit submit_in admit
kept_answer env reg t a w v k r d h = rw h.key (
    rw h.stored (
      rw h.content (elim (Bool-cases (digest env (dump_run w) == digest env (dump_run v))) [
        | inl same ↦ rw same
        | inr other ↦ rw other
      ])))

-- A submission that was accepted holds its key: whoever sends the same content under the key again,
-- with any registry and at any time, gets the run that was made, and other content is refused with
-- 409; neither changes the database.
pub submit_again :
    (env : Env) (reg reg' : Registry) (t t' : Draws) (a : Actor) (w v : RunInput) (k : String)
    (r : Run) (db d : Db)
    → submit env reg t a w k db ≡ (ok r, d)
    → submit env reg' t' a v k d ≡ (
      if digest env (dump_run w) == digest env (dump_run v)
          then ok r
          else raise 409 "idempotency key already used for different content",
      d,
    )
unfolding submit
submit_again env reg reg' t t' a w v k r db d h =
    kept_answer env reg' t' a w v k r d
      ((submit_in-IsKept env reg t a w k db).at (r, d) (transaction-eq-ok db _ h))

-- The quota of one workspace.
abbrev pub InQuota : String → Db → Type 0
InQuota w db = count (is_active_in w) db.runs ≤ 100

quota_kept :
    (space own : String) (rs : List Run) (r : Run)
    → r.workspace ≡ own
    → count (is_active_in space) rs ≤ 100
    → ltb (count (is_active_in own) rs) 100 ≡ true
    → count (is_active_in space) (rs ++ r ∷ []) ≤ 100
unfolding count
quota_kept space own rs r e h free = elim (Bool-cases (r.workspace == space)) [
  | inl same ↦
      let here : own ≡ space = sym e ∙ (eq_iff r.workspace space).0 same in
      let free' : ltb (count (is_active_in space) rs) 100 ≡ true =
        subst (λ x. ltb (count (is_active_in x) rs) 100 ≡ true) here free in
      rw (count-append (is_active_in space) rs (r ∷ [])) (ground arith)
  | inr other ↦ rw (count-append (is_active_in space) rs (r ∷ [])) (ground arith)
]

admit-InQuota :
    (env : Env) (reg : Registry) (t : Draws) (a : Actor) (w : RunInput) (k : String)
    (o : Option Run) (db : Db) (space : String)
    → InQuota space db
    → Ensures (λ x. InQuota space x.1) (admit env reg t a w k o db)
unfolding admit admit_new new_run emit
admit-InQuota env reg t a w k (some old) db space h =
    Ensures-if (old.request_digest == digest env (dump_run w)) _ _ (λ _. Ensures-ok _ h)
      (λ _. Ensures-raised _ _)
admit-InQuota env reg t a w k none db space h =
    Ensures-guard (ltb (count (is_active_in a.workspace) db.runs) 100) 429
      "workspace active mission quota exhausted" _
      λ free. Ensures-bind (snapshot env reg a w) _ λ plan _.
        Ensures-ok (admit_new env t a w k plan db)
          (quota_kept space a.workspace db.runs (new_run env t a w k plan) refl h free)

submit_in-InQuota :
    (env : Env) (reg : Registry) (t : Draws) (a : Actor) (w : RunInput) (k : String) (db : Db)
    (space : String)
    → InQuota space db
    → Ensures (λ x. InQuota space x.1) (submit_in env reg t a w k db)
unfolding submit_in
submit_in-InQuota env reg t a w k db space h =
    Ensures-guard (not (k == "") && leb (String.count k) 200) 422
      "Idempotency-Key must contain 1..200 characters" _
      λ _. admit-InQuota env reg t a w k (run_under a.workspace a.id k db.runs) db space h

-- A submission never takes any workspace, whether its own or another, past 100 active runs.
pub submit-InQuota :
    (env : Env) (reg : Registry) (t : Draws) (a : Actor) (w : RunInput) (k : String) (db : Db)
    (space : String)
    → InQuota space db
    → InQuota space (submit env reg t a w k db).1
unfolding submit
submit-InQuota env reg t a w k db space h =
    transaction-keeps (InQuota space) db (submit_in env reg t a w k db) h
      (submit_in-InQuota env reg t a w k db space h)
