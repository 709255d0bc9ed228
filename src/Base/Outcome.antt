-- ===== src/Base/Outcome.antt =====
-- How a call ends: with a value, with the program's own `Problem` (identity.py), which handlers
-- catch by its class, or with another Python exception, which none of the modelled handlers catch
-- unless they name it.
use Prim.Native.Nat.{ℕ}
use Prim.Native.String.{String}
use mathlib.Core.Path.{◌≡◌, refl}
use mathlib.Core.Bool.{Bool, true, false}
use mathlib.Core.Option.{Option, none, some}

pub record Problem : Type 0 where
  pub status : ℕ
  pub message : String

pub data Fault : Type 0 where
  index_error key_error value_error integrity_error attribute_error : Fault
  permission_error runtime_error type_error : Fault

pub data Result {ℓ} (V : Type ℓ) : Type ℓ where
  crashed : Fault → Result V
  raised : Problem → Result V
  ok : V → Result V

-- What follows a call goes on with its value, and is passed over by either exception.
infixl 5 ◌>>=◌ ◌>>◌
abbrev pub ◌>>=◌ {ℓ κ} : {V : Type ℓ} {W : Type κ} → Result V → (V → Result W) → Result W
crashed x >>= next = crashed x
raised p >>= next = raised p
ok v >>= next = next v

abbrev pub ◌>>◌ {κ} : {W : Type κ} → Result (Unit {0}) → Result W → Result W
call >> rest = call >>= λ _. rest

-- `raise Problem(status, message)`.
abbrev pub raise {ℓ} : {A : Type ℓ} → ℕ → String → Result A
raise s m = raised (record { status = s; message = m })

-- `if not b: raise Problem(…)`.
abbrev pub guard : Bool → ℕ → String → Result (Unit {0})
guard true s m = ok tt
guard false s m = raise s m

-- A lookup whose failure is a Python exception.
abbrev pub or_crash {ℓ} : {A : Type ℓ} → Fault → Option A → Result A
or_crash x none = crashed x
or_crash x (some a) = ok a

-- A lookup whose failure is a `Problem`.
abbrev pub or_raise {ℓ} : {A : Type ℓ} → ℕ → String → Option A → Result A
or_raise s m none = raise s m
or_raise s m (some a) = ok a

-- A call that is a transaction of its own, or more than one, and what follows it. What the call has
-- committed stays, whatever comes of the rest.
abbrev pub and_then {ℓ κ μ} :
    {A : Type ℓ} {B : Type κ} {S : Type μ} → Result A × S → (A → S → Result B × S) → Result B × S
and_then (ok a, s) next = next a s
and_then (raised p, s) next = (raised p, s)
and_then (crashed x, s) next = (crashed x, s)

-- What follows from the value of a chain of two calls.
pub >>=-eq-ok {ℓ κ} :
    {V : Type ℓ} {W : Type κ} (call : Result V) (next : V → Result W) {w : W}
    → (call >>= next) ≡ ok w
    → (v : V) × (call ≡ ok v) × (next v ≡ ok w)
>>=-eq-ok (crashed x) next h = cc
>>=-eq-ok (raised p) next h = cc
>>=-eq-ok (ok v) next h = (v, refl, h)

pub guard-eq-ok : (b : Bool) (s : ℕ) (m : String) {u : Unit {0}} → guard b s m ≡ ok u → b ≡ true
guard-eq-ok true s m h = refl
guard-eq-ok false s m h = cc

-- What both calls keep of the state is kept.
pub and_then-keeps {ℓ κ μ ν} :
    {A : Type ℓ} {B : Type κ} {S : Type μ} (P : S → Type ν) (m : Result A × S)
    (next : A → S → Result B × S)
    → P m.1
    → ((a : A) (s : S) → P s → P (next a s).1)
    → P (and_then m next).1
and_then-keeps P (ok a, s) next h k = k a s h
and_then-keeps P (raised p, s) next h k = h
and_then-keeps P (crashed x, s) next h k = h

pub and_then-eq-ok {ℓ κ μ} :
    {A : Type ℓ} {B : Type κ} {S : Type μ} (m : Result A × S) (next : A → S → Result B × S) {b : B}
    {t : S}
    → and_then m next ≡ (ok b, t)
    → (a : A) × (s : S) × (m ≡ (ok a, s)) × (next a s ≡ (ok b, t))
and_then-eq-ok (ok a, s) next h = (a, s, refl, h)
and_then-eq-ok (raised p, s) next h = absurd (cc)
and_then-eq-ok (crashed x, s) next h = absurd (cc)

pub ok-inj {ℓ} : {A : Type ℓ} {a b : A} → ok a ≡ ok b → a ≡ b
ok-inj h = cc
