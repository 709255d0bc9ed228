-- ===== src/Core/Separation.antt =====
-- `Nexus.review` of core.py keeps the requester and the reviewer apart.
use rednexus_ai.Base.{
  eq_iff, ℕ, List, [], ◌∷◌, All, String, Bool, true, false, not, Option, none, some, ◌≡◌, refl,
  ◌==◌, elem, ok, arith, permission_error, value_error, crashed,
}
use rednexus_ai.Base.Table.{find}
use rednexus_ai.Base.Ensures.{Ensures, Ensures-bind, Ensures-if}
use rednexus_ai.Core.Rows.{Verdict, Principal, Host, Job, Nexus, job_keyed, holds, run_of}
use rednexus_ai.Core.Advance.{is_parked, verdict_at}
use rednexus_ai.Core.Decide.{review, record_verdict}

-- The reviewer has the grant, is of the run's tenant and not its requester, and the run waits for the
-- first verdict on its step.
pub record IsIndependent (p : Principal) (i : String) (n : Nexus) : Type 0 where
  pub job : Job
  pub found : find i n.jobs ≡ some job
  pub grant : elem "approval:review" p.grants ≡ true
  pub tenant : (job.tenant == p.tenant) ≡ true
  pub other : (job.subject == p.subject) ≡ false
  pub parked : is_parked job.status ≡ true
  pub first : verdict_at job.id job.cursor n.verdicts ≡ none
  pub none_given : All (λ (v : Verdict). ¬ ((v.run_id ≡ job.id) × (v.step ≡ job.cursor))) n.verdicts

verdict_at-All :
    (i : String) (k : ℕ) (vs : List Verdict)
    → verdict_at i k vs ≡ none
    → All (λ (v : Verdict). ¬ ((v.run_id ≡ i) × (v.step ≡ k))) vs
unfolding verdict_at
verdict_at-All i k [] h = tt
verdict_at-All i k (v ∷ vs) h = (
  λ same. absurd (ground (arith, h, same.0, same.1, eq_iff v.run_id i)),
  verdict_at-All i k vs (ground (arith, h)),
)

Ensures-fails {ℓ κ} : {A : Type ℓ} {P : A → Type κ} → Ensures P (crashed permission_error)
Ensures-fails = record { at = λ a e. absurd (cc) }

Ensures-invalid {ℓ κ} : {A : Type ℓ} {P : A → Type κ} → Ensures P (crashed value_error)
Ensures-invalid = record { at = λ a e. absurd (cc) }

holds-eq-ok :
    (p : Principal) (g : String) {u : Unit {0}} → holds p g ≡ ok u → elem g p.grants ≡ true
unfolding holds
holds-eq-ok p g h = ground arith

run_of-eq-ok :
    (p : Principal) (i : String) (n : Nexus) {j : Job}
    → run_of p i false n ≡ ok j
    → (find i n.jobs ≡ some j) × ((j.tenant == p.tenant) ≡ true)
unfolding run_of
run_of-eq-ok p i n h = ground arith

record_verdict-first :
    (host : Host) (p : Principal) (j : Job) (allow : Bool) (n n' : Nexus)
    → record_verdict host p j allow (verdict_at j.id j.cursor n.verdicts) n ≡ ok n'
    → verdict_at j.id j.cursor n.verdicts ≡ none
record_verdict-first host p j allow n n' h = by_verdict (verdict_at j.id j.cursor n.verdicts) h
  where
    by_verdict : (o : Option _) → record_verdict host p j allow o n ≡ ok n' → o ≡ none
    by_verdict none h = refl
    by_verdict (some v) h = unfold record_verdict in cc

waiting : (b : Bool) → not b ≡ false → b ≡ true
waiting b h = ground arith

-- A review of the reference runtime that succeeds was given by a reviewer who is independent of the
-- run's requester: see `IsIndependent`.
pub review-IsIndependent :
    (host : Host) (p : Principal) (i : String) (allow : Bool) (n n' : Nexus)
    → review host p i allow n ≡ ok n'
    → IsIndependent p i n
unfolding review
review-IsIndependent host p i allow n n' h =
    (Ensures-bind {P = λ _. IsIndependent p i n} (holds p "approval:review") _ λ u granted.
        Ensures-bind (run_of p i false n) _ λ j seen.
          Ensures-if (j.subject == p.subject) _ _ (λ _. Ensures-fails)
            λ other.
              Ensures-if (not (is_parked j.status)) _ _ (λ _. Ensures-invalid)
                λ parked. record {
                  at = λ m done.
                      let (found, tenant) = run_of-eq-ok p i n {j = j} seen in
                      record {
                        job = j;
                        found = found;
                        grant = holds-eq-ok p "approval:review" {u = u} granted;
                        tenant = tenant;
                        other = other;
                        parked = waiting (is_parked j.status) parked;
                        first = record_verdict-first host p j allow n m done;
                        none_given =
                            verdict_at-All j.id j.cursor n.verdicts
                              (record_verdict-first host p j allow n m done);
                      };
                }).at
      n' h
