-- ===== src/Base/Sorting.antt =====
-- Stable sorting by insertion, and the first rows of a sorted list.
use Prim.Native.Nat.{ℕ, zero, suc, ◌≤◌}
use mathlib.Core.Path.{◌≡◌, refl, ◌∙◌, ap}
use mathlib.Core.Logic.{inl, inr}
use mathlib.Core.Bool.{Bool, true, false}
use mathlib.Core.List.{List, [], ◌∷◌}
use native.Mathlib.Omega.{arith}
use rednexus_ai.Base.Tests.{Bool-cases, if◌then◌else◌}
use rednexus_ai.Base.Lists.{All, All-map, length}

-- `sorted(xs, …)`, where `before x y` says that x may stand before y.
module _ {ℓ} {A : Type ℓ} (before : A → A → Bool) where
  unfoldable pub insert : A → List A → List A
  insert x [] = x ∷ []
  insert x (y ∷ ys) = let rest = insert x ys in if before x y then x ∷ y ∷ ys else y ∷ rest

  unfoldable pub sort : List A → List A
  sort [] = []
  sort (x ∷ xs) = insert x (sort xs)

  -- What one insertion and the whole sort do to the length.
  length-insert : (x : A) (ys : List A) → length (insert x ys) ≡ suc (length ys)
  unfolding insert
  length-insert x [] = refl
  length-insert x (y ∷ ys) = ground (arith, length-insert x ys)

  pub length-sort : (xs : List A) → length (sort xs) ≡ length xs
  unfolding sort
  length-sort [] = refl
  length-sort (x ∷ xs) = length-insert x (sort xs) ∙ ap suc (length-sort xs)

-- `.limit(n)`, `xs[:n]`.
unfoldable pub first_rows {ℓ} : {A : Type ℓ} → ℕ → List A → List A
first_rows zero xs = []
first_rows (suc n) [] = []
first_rows (suc n) (x ∷ xs) = x ∷ first_rows n xs

pub length-first_rows {ℓ} : {A : Type ℓ} (n : ℕ) (xs : List A) → length (first_rows n xs) ≤ n
unfolding first_rows
length-first_rows zero xs = omega arith
length-first_rows (suc n) [] = omega arith
length-first_rows (suc n) (x ∷ xs) = omega (arith, length-first_rows n xs)

pub All-first_rows {ℓ κ} :
    {A : Type ℓ} (P : A → Type κ) (n : ℕ) (xs : List A) → All P xs → All P (first_rows n xs)
unfolding first_rows
All-first_rows P zero xs q = tt
All-first_rows P (suc n) [] q = tt
All-first_rows P (suc n) (x ∷ xs) q = (q.0, All-first_rows P n xs q.1)

-- A limit that is not reached cuts nothing.
pub All-not_cut {ℓ κ} :
    {A : Type ℓ} (P : A → Type κ) (n : ℕ) (xs : List A)
    → length xs ≤ n
    → All P (first_rows n xs)
    → All P xs
unfolding first_rows
All-not_cut P n [] h q = tt
All-not_cut P zero (x ∷ xs) h q = absurd (omega (arith, h))
All-not_cut P (suc n) (x ∷ xs) h q = (q.0, All-not_cut P n xs (omega (arith, h)) q.1)

module _ {ℓ κ} {A : Type ℓ} (P : A → Type κ) (before : A → A → Bool) where
  pub All-insert : (x : A) (ys : List A) → P x → All P ys → All P (insert before x ys)
  unfolding insert
  All-insert x [] p q = (p, tt)
  All-insert x (y ∷ ys) p q = elim (Bool-cases (before x y)) [
    | inl first ↦ rw first (p, q)
    | inr later ↦ rw later (q.0, All-insert x ys p q.1)
  ]

  pub All-sort : (xs : List A) → All P xs → All P (sort before xs)
  unfolding sort
  All-sort [] q = tt
  All-sort (x ∷ xs) q = All-insert x (sort before xs) q.0 (All-sort xs q.1)

module _ {ℓ κ} {A : Type ℓ} (P : A → Type κ) (before : A → A → Bool) where
  All-uninsert : (x : A) (ys : List A) → All P (insert before x ys) → P x × All P ys
  unfolding insert
  All-uninsert x [] q = q
  All-uninsert x (y ∷ ys) q = elim (Bool-cases (before x y)) [
    | inl first ↦ rw first at q
    | inr later ↦
        let (h, hs) : P y × All P (insert before x ys) = rw later at q in
        let (k, ks) = All-uninsert x ys hs in (k, (h, ks))
  ]

  -- A sorted list has all the elements.
  pub All-unsort : (xs : List A) → All P (sort before xs) → All P xs
  unfolding sort
  All-unsort [] q = tt
  All-unsort (x ∷ xs) q = let (h, hs) = All-uninsert x (sort before xs) q in (h, All-unsort xs hs)

-- For an order that is total and transitive the result is in that order.
module _ {ℓ} {A : Type ℓ} (before : A → A → Bool)
    (total : (x y : A) → before x y ≡ false → before y x ≡ true)
    (trans : (x y z : A) → before x y ≡ true → before y z ≡ true → before x z ≡ true) where
  abbrev pub IsSorted : List A → Type ℓ
  IsSorted [] = Unit
  IsSorted (x ∷ xs) = All (λ y. before x y ≡ true) xs × IsSorted xs

  IsSorted-insert : (x : A) (ys : List A) → IsSorted ys → IsSorted (insert before x ys)
  unfolding insert
  IsSorted-insert x [] s = (tt, tt)
  IsSorted-insert x (y ∷ ys) s = elim (Bool-cases (before x y)) [
    | inl first ↦
        rw first
          ((first, All-map _ (λ z. before x z ≡ true) ys (λ z h. trans x y z first h) s.0), s)
    | inr later ↦ rw later (
      All-insert (λ z. before y z ≡ true) before x ys (total x y later) s.0,
      IsSorted-insert x ys s.1,
    )
  ]

  pub sort-IsSorted : (xs : List A) → IsSorted (sort before xs)
  unfolding sort
  sort-IsSorted [] = tt
  sort-IsSorted (x ∷ xs) = IsSorted-insert x (sort before xs) (sort-IsSorted xs)
