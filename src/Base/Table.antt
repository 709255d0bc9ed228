-- ===== src/Base/Table.antt =====
-- A database table whose primary key is one text column (storage.py). The database keeps keys
-- unique, so an UPDATE or a `session.get` on a key meets at most one row: the first that is found.
use mathlib.Core.Logic.{inl, inr}
use Prim.Native.String.{String}
use mathlib.Core.Path.{◌∙◌, subst, sym, ◌≡◌, refl}
use mathlib.Core.Bool.{true, Bool}
use mathlib.Core.Option
use mathlib.Core.Option.{Option, none, some}
use mathlib.Core.List.{List, [], ◌∷◌, ◌++◌}
use native.Mathlib.Omega.{arith}
use text.Mathlib.Text.{◌==◌}
use text.Mathlib.TextEquality.{eq_iff}
use text.Mathlib.TextPositions.{eq_refl}
use rednexus_ai.Base.Tests.{Bool-cases, if◌then◌else◌}
use rednexus_ai.Base.Lists.{All, All-map}

pub record Keyed {ℓ} (A : Type ℓ) : Type ℓ where
  pub key : A → String

module _ {ℓ} {A : Type ℓ} ⦃k : Keyed A⦄ where
  -- `session.get(Table, id)`.
  unfoldable pub find : String → List A → Option A
  find i [] = none
  find i (r ∷ rs) = if k.key r == i then some r else find i rs

  -- A write to the row with a key.
  unfoldable pub modify : String → (A → A) → List A → List A
  modify i f [] = []
  modify i f (r ∷ rs) = if k.key r == i then f r ∷ rs else r ∷ modify i f rs

  -- The flush of a changed object: it is written back under its key.
  unfoldable pub put : A → List A → List A
  put r = modify (k.key r) (λ _. r)

  pub find-key : (i : String) (rs : List A) {r : A} → find i rs ≡ some r → k.key r ≡ i
  unfolding find
  find-key i [] h = cc
  find-key i (x ∷ rs) {r} h = ground (arith, eq_iff (k.key x) i, find-key i rs {r = r})

  pub find_again :
      (i : String) (rs : List A) {r : A} → find i rs ≡ some r → find (k.key r) rs ≡ some r
  find_again i rs {r} h = subst (λ x. find x rs ≡ some r) (sym (find-key i rs h)) h

  pub find-modify :
      (i j : String) (f : A → A) (rs : List A)
      → ((r : A) → k.key r ≡ i → k.key (f r) ≡ i)
      → find j (modify i f rs) ≡ (if i == j then Option.map f (find i rs) else find j rs)
  unfolding find modify
  find-modify i j f [] h = ground arith
  find-modify i j f (r ∷ rs) h = ground (
    arith,
    eq_iff (k.key r) i,
    eq_iff (k.key r) j,
    eq_iff (k.key (f r)) j,
    eq_iff i j,
    h r,
    find-modify i j f rs h,
  )

  pub find-put :
      (j : String) (r : A) (rs : List A)
      → find j (put r rs)
        ≡ (if k.key r == j then Option.map (λ _. r) (find (k.key r) rs) else find j rs)
  unfolding put
  find-put j r rs = find-modify (k.key r) j (λ _. r) rs (λ _ _. refl)

  pub find-append :
      (j : String) (r : A) (rs : List A)
      → find j (rs ++ r ∷ [])
        ≡ elim (find j rs) [ some x ↦ some x | none ↦ if k.key r == j then some r else none ]
  unfolding find
  find-append j r [] = ground arith
  find-append j r (x ∷ rs) = ground (arith, find-append j r rs)

-- A write to the row that its key finds keeps what it keeps of that row.
pub All-modify {ℓ κ} :
    {A : Type ℓ} ⦃k : Keyed A⦄ (P : A → Type κ) (i : String) (f : A → A) (rs : List A) {r : A}
    → find i rs ≡ some r
    → P (f r)
    → All P rs
    → All P (modify i f rs)
unfolding find modify
All-modify P i f [] h p hs = tt
All-modify ⦃k⦄ P i f (x ∷ rs) {r} h p (q, qs) = elim (Bool-cases (k.key x == i)) [
  | inl same ↦ rw same (subst (λ y. P (f y)) (sym (found same)) p, qs)
  | inr other ↦ rw other (q, All-modify P i f rs (rw other at h) p qs)
]
  where
    found : (k.key x == i) ≡ true → x ≡ r
    found same = cc

-- The key is primary: no two rows have one.
module _ {ℓ} {A : Type ℓ} ⦃k : Keyed A⦄ where
  abbrev pub Distinct : List A → Type ℓ
  Distinct [] = Unit
  Distinct (r ∷ rs) = (find (k.key r) rs ≡ none) × Distinct rs

  pub Distinct-modify :
      (i : String) (f : A → A) (rs : List A)
      → ((r : A) → k.key r ≡ i → k.key (f r) ≡ i)
      → Distinct rs
      → Distinct (modify i f rs)
  unfolding modify
  Distinct-modify i f [] keep d = tt
  Distinct-modify i f (r ∷ rs) keep d = ground (
    arith,
    eq_iff (k.key r) i,
    eq_iff i (k.key r),
    keep r,
    find-modify i (k.key r) f rs keep,
    Distinct-modify i f rs keep d.1,
  )

  pub Distinct-put : (r : A) (rs : List A) → Distinct rs → Distinct (put r rs)
  unfolding put
  Distinct-put r rs d = Distinct-modify (k.key r) (λ _. r) rs (λ _ _. refl) d

  pub Distinct-append :
      (rs : List A) (r : A) → find (k.key r) rs ≡ none → Distinct rs → Distinct (rs ++ r ∷ [])
  unfolding find
  Distinct-append [] r new d = (refl, tt)
  Distinct-append (x ∷ rs) r new d = ground (
    arith,
    eq_iff (k.key x) (k.key r),
    eq_iff (k.key r) (k.key x),
    find-append (k.key x) r rs,
    Distinct-append rs r,
  )

  -- Under a primary key a listed row is the one that its key finds.
  found_head :
      (r x : A) (rs : List A)
      → find (k.key r) rs ≡ none
      → find (k.key x) rs ≡ some x
      → find (k.key x) (r ∷ rs) ≡ some x
  unfolding find
  found_head r x rs new h = ground (arith, eq_iff (k.key r) (k.key x))

  pub Distinct-found : (rs : List A) → Distinct rs → All (λ x. find (k.key x) rs ≡ some x) rs
  Distinct-found [] d = tt
  Distinct-found (r ∷ rs) d = (
    unfold find in rw (eq_refl (k.key r)),
    All-map (λ x. find (k.key x) rs ≡ some x) (λ x. find (k.key x) (r ∷ rs) ≡ some x) rs
        (λ x h. found_head r x rs d.0 h) (Distinct-found rs d.1),
  )

-- The conditional update of the row with a key.
module _ {ℓ} {A : Type ℓ} ⦃k : Keyed A⦄ where
  -- It keeps the key if what it does keeps it.
  pub update_kept :
      (i : String) (test : A → Bool) (f : A → A)
      → ((r : A) → k.key (f r) ≡ k.key r)
      → (r : A) → k.key r ≡ i
      → k.key (if test r then f r else r) ≡ i
  update_kept i test f keep r e = elim (Bool-cases (test r)) [
    | inl b ↦ rw b (keep r ∙ e)
    | inr b ↦ rw b e
  ]

  pub find-modify_self :
      (i : String) (f : A → A) (rs : List A) {r : A}
      → ((x : A) → k.key (f x) ≡ k.key x)
      → find i rs ≡ some r
      → find i (modify i f rs) ≡ some (f r)
  find-modify_self i f rs keep h =
      rw (find-modify i i f rs (λ x e. keep x ∙ e)) (rw (eq_refl i) (rw h))

  -- The row that the update has met.
  pub find-update_self :
      (i : String) (test : A → Bool) (f : A → A) (rs : List A) {r : A}
      → ((x : A) → k.key (f x) ≡ k.key x)
      → find i rs ≡ some r
      → test r ≡ true
      → find i (modify i (λ x. if test x then f x else x) rs) ≡ some (f r)
  find-update_self i test f rs keep h met =
      rw
        (find-modify i i (λ x. if test x then f x else x) rs (λ x e. update_kept i test f keep x e))
        (rw (eq_refl i) (rw h (rw met)))

-- `update(Table).where(test).values(…)` over every row.
unfoldable pub update_where {ℓ} : {A : Type ℓ} → (A → Bool) → (A → A) → List A → List A
update_where p f [] = []
update_where p f (r ∷ rs) = (if p r then f r else r) ∷ update_where p f rs

pub find-update_where {ℓ} :
    {A : Type ℓ} ⦃k : Keyed A⦄ (j : String) (p : A → Bool) (f : A → A) (rs : List A)
    → ((r : A) → k.key (f r) ≡ k.key r)
    → find j (update_where p f rs) ≡ Option.map (λ r. if p r then f r else r) (find j rs)
unfolding find update_where
find-update_where ⦃k⦄ j p f [] h = refl
find-update_where ⦃k⦄ j p f (r ∷ rs) h =
    ground (arith, h r, eq_iff (k.key r) j, eq_iff (k.key (f r)) j, find-update_where j p f rs h)
