-- ===== src/Base/Ensures.antt =====
-- What holds of a result when it is a value, proved along the calls that make it.
use mathlib.Core.Path.{◌≡◌, refl, subst}
use mathlib.Core.Bool.{Bool, true, false}
use mathlib.Core.Option.{Option, none, some}
use Prim.Native.Nat.{ℕ}
use Prim.Native.String.{String}
use rednexus_ai.Base.Tests.{if◌then◌else◌}
use rednexus_ai.Base.Outcome.{
  Result, Fault, ok, raised, crashed, raise, guard, or_crash, or_raise, ◌>>=◌,
}

-- Every value that the result can be has the property.
pub record Ensures {ℓ κ} {A : Type ℓ} (P : A → Type κ) (m : Result A) : Type (ℓ ⊔ κ) where
  pub at : (a : A) → m ≡ ok a → P a

module _ {ℓ κ} {A : Type ℓ} {P : A → Type κ} where
  pub Ensures-ok : (a : A) → P a → Ensures P (ok a)
  Ensures-ok a h = record { at = λ b e. subst P (cc) h }

  pub Ensures-raised : (s : ℕ) (t : String) → Ensures P (raise s t)
  Ensures-raised s t = record { at = λ b e. absurd (cc) }

  pub Ensures-bind {μ} :
      {B : Type μ} (m : Result B) (f : B → Result A)
      → ((b : B) → m ≡ ok b → Ensures P (f b))
      → Ensures P (m >>= f)
  Ensures-bind (ok b) f h = h b refl
  Ensures-bind (raised p) f h = record { at = λ b e. absurd (cc) }
  Ensures-bind (crashed x) f h = record { at = λ b e. absurd (cc) }

  pub Ensures-guard :
      (b : Bool) (s : ℕ) (t : String) (f : Unit {0} → Result A)
      → (b ≡ true → Ensures P (f tt))
      → Ensures P (guard b s t >>= f)
  Ensures-guard true s t f h = h refl
  Ensures-guard false s t f h = record { at = λ b e. absurd (cc) }

  pub Ensures-or_crash {μ} :
      {B : Type μ} (x : Fault) (o : Option B) (f : B → Result A)
      → ((b : B) → o ≡ some b → Ensures P (f b))
      → Ensures P (or_crash x o >>= f)
  Ensures-or_crash x none f h = record { at = λ b e. absurd (cc) }
  Ensures-or_crash x (some b) f h = h b refl

  pub Ensures-or_raise {μ} :
      {B : Type μ} (s : ℕ) (t : String) (o : Option B) (f : B → Result A)
      → ((b : B) → o ≡ some b → Ensures P (f b))
      → Ensures P (or_raise s t o >>= f)
  Ensures-or_raise s t none f h = record { at = λ b e. absurd (cc) }
  Ensures-or_raise s t (some b) f h = h b refl

  pub Ensures-if :
      (b : Bool) (m n : Result A)
      → (b ≡ true → Ensures P m)
      → (b ≡ false → Ensures P n)
      → Ensures P (if b then m else n)
  Ensures-if true m n h k = h refl
  Ensures-if false m n h k = k refl

pub Ensures-elim {ℓ κ μ} :
    {A : Type ℓ} {B : Type μ} {P : A → Type κ} (o : Option B) (f : B → Result A) (n : Result A)
    → ((b : B) → Ensures P (f b))
    → Ensures P n
    → Ensures P (elim o [ some b ↦ f b | none ↦ n ])
Ensures-elim (some b) f n h k = h b
Ensures-elim none f n h k = k

pub Ensures-map {ℓ κ μ} :
    {A : Type ℓ} {P : A → Type κ} {Q : A → Type μ} (m : Result A)
    → ((a : A) → P a → Q a)
    → Ensures P m
    → Ensures Q m
Ensures-map m f h = record { at = λ a e. f a (h.at a e) }

pub Ensures-guard_last {κ} :
    {P : Unit {0} → Type κ} (b : Bool) (s : ℕ) (t : String)
    → (b ≡ true → P tt)
    → Ensures P (guard b s t)
Ensures-guard_last true s t h = Ensures-ok tt (h refl)
Ensures-guard_last false s t h = record { at = λ b e. absurd (cc) }
