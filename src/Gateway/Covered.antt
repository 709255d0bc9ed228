-- ===== src/Gateway/Covered.antt =====
-- Contracts that are loaded, and what they ask of the steps that `prepare` of runtime.py hands out.
use mathlib.Core.Path.{subst}
use rednexus_ai.Base.{
  ok-inj, raise, Bool-cases, inl, inr, String, ◌≡◌, refl, Bool, true, false, ◌||◌, Option, none,
  some, List, [], ◌∷◌, ◌++◌, ◌==◌, ok, arith, All, All-append, Bool-cases, inl, inr,
}
use rednexus_ai.Base.Ensures.{Ensures, Ensures-ok, Ensures-bind}
use rednexus_ai.Base.Table.{find}
use rednexus_ai.Contracts.{is_disabled, CapabilitySpec, is_read, is_disabled}
use rednexus_ai.Env.{Env, Draws}
use rednexus_ai.Registry
use rednexus_ai.Registry
use rednexus_ai.Registry.{enabled_spec, Registry, spec_named}
use rednexus_ai.Store.{Run, Db, run_keyed}
use rednexus_ai.Worker.Prepare.{Prepared, prepare, action_of}
use rednexus_ai.Worker.Authority.{prepare-IsAuthorised, IsAuthorised, IsCovered}
use rednexus_ai.Gateway.Specs.{Outside, valid_spec}
use rednexus_ai.Gateway.Catalog.{Settings, demand, load, load_from, check_endpoints, is_absent}

-- A contract that changes anything wants an approval.
abbrev pub IsGuarded : CapabilitySpec → Type 0
IsGuarded c = (is_read c.effect || c.approval) ≡ true

demand-eq-ok : (b : Bool) {u : Unit {0}} → demand b ≡ ok u → b ≡ true
demand-eq-ok true h = refl
demand-eq-ok false h = cc

valid_spec-IsGuarded :
    (env : Env) (o : Outside) (c : CapabilitySpec) → valid_spec env o c ≡ true → IsGuarded c
unfolding valid_spec
valid_spec-IsGuarded env o c h = ground (arith, h)

load_from-IsGuarded :
    (env : Env) (g : Settings) (o : Outside) (cs : List CapabilitySpec) (specs : Registry)
    → All IsGuarded specs
    → Ensures (All IsGuarded) (load_from env g o cs specs)
unfolding load_from
load_from-IsGuarded env g o [] specs h = Ensures-ok specs h
load_from-IsGuarded env g o (c ∷ cs) specs h =
    Ensures-bind (demand (valid_spec env o c)) _ λ u valid.
      Ensures-bind (demand (is_absent (spec_named c.name specs))) _ λ _ _.
        Ensures-bind (check_endpoints g o c) _ λ _ _.
          load_from-IsGuarded env g o cs (specs ++ c ∷ []) (
            All-append IsGuarded specs (c ∷ []) h
              (valid_spec-IsGuarded env o c (demand-eq-ok (valid_spec env o c) {u = u} valid), tt))

spec_named-IsGuarded :
    (n : String) (reg : Registry) {c : CapabilitySpec}
    → All IsGuarded reg
    → spec_named n reg ≡ some c
    → IsGuarded c
unfolding spec_named
spec_named-IsGuarded n [] h e = absurd (cc)
spec_named-IsGuarded n (x ∷ reg) {c} (h, hs) e = elim (Bool-cases (x.name == n)) [
  | inl hit ↦
      let found : some x ≡ some c = rw hit at e in let same : x ≡ c = cc in subst IsGuarded same h
  | inr missed ↦
      let rest : spec_named n reg ≡ some c = rw missed at e in spec_named-IsGuarded n reg hs rest
]

enabled-IsGuarded :
    (o : Option CapabilitySpec) {c : CapabilitySpec}
    → ((x : CapabilitySpec) → o ≡ some x → IsGuarded x)
    → enabled_spec o ≡ ok c
    → IsGuarded c
unfolding enabled_spec
enabled-IsGuarded none h e = absurd (cc)
enabled-IsGuarded (some x) {c} h e = elim (Bool-cases (is_disabled x.mode)) [
  | inl off ↦
      let gone : raise 409 "capability is disabled" ≡ ok c = rw off at e in absurd (refused gone)
  | inr on ↦ let same : ok x ≡ ok c = rw on at e in subst IsGuarded (ok-inj same) (h x refl)
]
  where
    refused : raise {A = CapabilitySpec} 409 "capability is disabled" ≡ ok c → ⊥
    refused k = cc

get-IsGuarded :
    (n : String) (reg : Registry) {c : CapabilitySpec}
    → All IsGuarded reg
    → Registry.get reg n ≡ ok c
    → IsGuarded c
unfolding Registry.get
get-IsGuarded n reg h e =
    enabled-IsGuarded (spec_named n reg) (λ x there. spec_named-IsGuarded n reg h there) e

unexempt : (c : CapabilitySpec) → IsGuarded c → is_read c.effect ≡ false → ¬ (c.approval ≡ false)
unexempt c guarded effect exempt = absurd (ground (arith, guarded, effect, exempt))

-- With the contracts of a registry that was loaded, a step that `prepare` hands out and that may
-- change anything is covered by the approval of a human who may review it and is not the owner.
pub prepare-IsCovered :
    (env : Env) (g : Settings) (o : Outside) (raw : List CapabilitySpec) (reg : Registry)
    (t : Draws) (i token : String) (db db' : Db) (p : Prepared)
    → load env g o raw ≡ ok reg
    → prepare env reg t i token db ≡ (ok (some p), db')
    → is_read p.spec.effect ≡ false
    → (r : Run) × (find i db.runs ≡ some r)
      × (a : IsAuthorised env reg t r db p) × IsCovered env
          (t.clock 2)
          db
          r
          a.contract
          (action_of r a.contract a.step.fingerprint p.payload)
          a.owner
unfolding load
prepare-IsCovered env g o raw reg t i token db db' p loaded handed effect =
    let (r, there, _, _, a) = prepare-IsAuthorised env reg t i token db p db' handed in
    let guarded =
      get-IsGuarded a.step.step.capability reg
        ((load_from-IsGuarded env g o raw [] tt).at reg loaded) a.registered in
    let changes = subst (λ c. is_read c.effect ≡ false) a.admitted.paid.spec effect in
    (
      r,
      there,
      a,
      elim a.admitted.covered [
        | inl exempt ↦ absurd (unexempt a.contract guarded changes exempt)
        | inr held ↦ held
      ],
    )
