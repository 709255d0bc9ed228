-- ===== src/Lifecycle/Evolution/Defs.antt =====
-- The relation on tables of runs, and the writes that keep it.
use mathlib.Core.Option
use mathlib.Core.Path.{subst}
use rednexus_ai.Base.{
  ap, ◌≡◌, refl, sym, inl, inr, String, Bool, true, false, Option, none, some, List, [], ◌∷◌, ◌++◌,
  ◌==◌, eq_iff, eq_refl, Bool-cases, if◌then◌else◌,
}
use rednexus_ai.Base.Table.{
  update_kept, Distinct, Distinct-modify, Distinct-put, Distinct-append, find, modify, put,
  find-modify, find-put, find-append,
}
use rednexus_ai.Env.{Env}
use rednexus_ai.Store.{Run, run_keyed}
use rednexus_ai.Lifecycle.Transition.{Steps, here, Steps-trans}
use rednexus_ai.Lifecycle.WellFormed.{IsWellFormed, Steps-IsWellFormed}

-- Rows are never deleted.
abbrev pub Moves : Bool → Env → Option Run → Option Run → Type 0
Moves human env none none = Unit
Moves human env none (some u) = IsWellFormed u
Moves human env (some r) none = ⊥
Moves human env (some r) (some u) = Steps human env r u

pub record Evolves (human : Bool) (env : Env) (rs us : List Run) : Type 0 where
  pub at : (i : String) → Moves human env (find i rs) (find i us)
  pub keys : Distinct rs → Distinct us

module _ (human : Bool) (env : Env) where
  Moves-refl : (o : Option Run) → Moves human env o o
  Moves-refl none = tt
  Moves-refl (some r) = here

  Moves-trans :
      (a b c : Option Run) → Moves human env a b → Moves human env b c → Moves human env a c
  Moves-trans none none c p q = q
  Moves-trans none (some u) none p q = absurd q
  Moves-trans none (some u) (some v) p q = Steps-IsWellFormed q p
  Moves-trans (some r) none c p q = absurd p
  Moves-trans (some r) (some u) none p q = q
  Moves-trans (some r) (some u) (some v) p q = Steps-trans p q

  pub Evolves-refl : (rs : List Run) → Evolves human env rs rs
  Evolves-refl rs = record { at = λ i. Moves-refl (find i rs); keys = λ d. d }

  pub Evolves-trans :
      {rs us vs : List Run}
      → Evolves human env rs us
      → Evolves human env us vs
      → Evolves human env rs vs
  Evolves-trans {rs} {us} {vs} p q = record {
    at = λ i. Moves-trans (find i rs) (find i us) (find i vs) (p.at i) (q.at i);
    keys = λ d. q.keys (p.keys d);
  }

  Moves-if :
      (b : Bool) (f : Run → Run) (r : Run)
      → (b ≡ true → Steps human env r (f r))
      → Steps human env r (if b then f r else r)
  Moves-if true f r h = h refl
  Moves-if false f r h = here

  Moves-map :
      (f : Run → Run) (o : Option Run)
      → ((r : Run) → o ≡ some r → Steps human env r (f r))
      → Moves human env o (Option.map f o)
  Moves-map f none h = tt
  Moves-map f (some r) h = h r refl

  -- A conditional update of one row.
  pub Evolves-update :
      (i : String) (test : Run → Bool) (f : Run → Run) (rs : List Run)
      → ((r : Run) → (f r).id ≡ r.id)
      → ((r : Run) → find i rs ≡ some r → test r ≡ true → Steps human env r (f r))
      → Evolves human env rs (modify i (λ r. if test r then f r else r) rs)
  Evolves-update i test f rs keep h = record {
    at = λ j.
        rw
          (find-modify i j (λ r. if test r then f r else r) rs
            (λ r e. update_kept i test f keep r e))
          (elim (Bool-cases (i == j)) [
            | inl same ↦ rw same (
                rw (← (eq_iff i j).0 same) (
                  Moves-map (λ r. if test r then f r else r) (find i rs)
                    (λ r e. Moves-if (test r) f r (h r e))))
            | inr other ↦ rw other (Moves-refl (find j rs))
          ]);
    keys = λ d.
        Distinct-modify i (λ r. if test r then f r else r) rs (λ r e. update_kept i test f keep r e)
          d;
  }

  -- The flush of a changed row.
  pub Evolves-put :
      (rs : List Run) (r u : Run)
      → find r.id rs ≡ some r
      → u.id ≡ r.id
      → Steps human env r u
      → Evolves human env rs (put u rs)
  Evolves-put rs r u h e s = record {
    at = λ j. elim (Bool-cases (u.id == j)) [
      | inl same ↦
          let to_j : u.id ≡ j = (eq_iff u.id j).0 same in
          let old : find u.id rs ≡ some r = subst (λ x. find x rs ≡ some r) (sym e) h in
          let before : find j rs ≡ some r = subst (λ x. find x rs ≡ some r) to_j old in
          rw (find-put j u rs) (rw (same, before, ap (Option.map (λ _. u)) old) s)
      | inr other ↦ rw (find-put j u rs) (rw other (Moves-refl (find j rs)))
    ];
    keys = λ d. Distinct-put u rs d;
  }

  -- A new row under an identifier that is not in use.
  pub Evolves-append :
      (rs : List Run) (u : Run)
      → find u.id rs ≡ none
      → IsWellFormed u
      → Evolves human env rs (rs ++ u ∷ [])
  Evolves-append rs u new w = record {
    at = λ j. rw (find-append j u rs) (at_one j (find j rs) (λ e. new_at j e));
    keys = λ d. Distinct-append rs u new d;
  }
    where
      new_at : (j : String) → (u.id == j) ≡ true → find j rs ≡ none
      new_at j e = rw (← (eq_iff u.id j).0 e) new

      at_one :
          (j : String) (o : Option Run)
          → ((u.id == j) ≡ true → o ≡ none)
          → Moves human env o
              (elim o [ some x ↦ some x | none ↦ if u.id == j then some u else none ])
      at_one j none h = elim (Bool-cases (u.id == j)) [
        | inl same ↦ rw same w
        | inr other ↦ rw other tt
      ]
      at_one j (some r) h = here

pub find-put_self :
    (u : Run) (rs : List Run) {r : Run} → find u.id rs ≡ some r → find u.id (put u rs) ≡ some u
find-put_self u rs h = rw (find-put u.id u rs) (rw (eq_refl u.id) (rw h))
