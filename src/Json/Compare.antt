-- ===== src/Json/Compare.antt =====
-- Python's `==` and `<` on these values. Numbers of both kinds compare by their exact value, `True`
-- and `False` equal 1 and 0, and two dicts are equal if they have equal values at the same keys.
use rednexus_ai.Base.{
  ℕ, suc, ◌+◌, ◌*◌, ◌^◌, ◌≡◌, Bool, true, false, not, ◌&&◌, ◌||◌, Option, none, some, arith, eqb,
  ltb, leb, ◌==◌,
}
use rednexus_ai.Json.Int.{ℤ, pos, pos_part, neg_part}
use rednexus_ai.Json.Values.{
  Json, Items, Fields, null, bool, int, float, str, arr, obj, nil, cons, end, field, get_field,
}

-- The number mantissa / 2^shift.
pub record Number : Type 0 where
  pub mantissa : ℤ
  pub shift : ℕ

-- `type(x) in (int, float)`: a `bool` is of neither type.
unfoldable pub number : Json → Option Number
number (int m) = some (record { mantissa = m; shift = 0 })
number (float m k) = some (record { mantissa = m; shift = k })
number _ = none

-- The two sides of m / 2^j against n / 2^k, brought to one denominator and moved to be positive.
abbrev left_side : Number → Number → ℕ
left_side a b = pos_part a.mantissa * 2 ^ b.shift + neg_part b.mantissa * 2 ^ a.shift

abbrev right_side : Number → Number → ℕ
right_side a b = pos_part b.mantissa * 2 ^ a.shift + neg_part a.mantissa * 2 ^ b.shift

unfoldable pub num_lt : Number → Number → Bool
num_lt a b = ltb (left_side a b) (right_side a b)

unfoldable pub num_le : Number → Number → Bool
num_le a b = leb (left_side a b) (right_side a b)

unfoldable pub num_eq : Number → Number → Bool
num_eq a b = eqb (left_side a b) (right_side a b)

-- What a value is as a number for `==`, where a `bool` counts too.
numeric : Json → Option Number
numeric (bool true) = some (record { mantissa = pos 1; shift = 0 })
numeric (bool false) = some (record { mantissa = pos 0; shift = 0 })
numeric v = number v

same_number : Option Number → Option Number → Bool
same_number (some a) (some b) = num_eq a b
same_number _ _ = false

size : Fields → ℕ
size end = 0
size (field k v fs) = suc (size fs)

-- `a == b`.
unfoldable mutual
  unfolding numeric same_number size

  pub py_eq : Json → Json → Bool
  py_eq null null = true
  py_eq (str s) (str t) = s == t
  py_eq (arr xs) (arr ys) = eq_items xs ys
  py_eq (obj fs) (obj gs) = eqb (size fs) (size gs) && eq_fields fs gs
  py_eq a b = same_number (numeric a) (numeric b)

  pub eq_items : Items → Items → Bool
  eq_items nil nil = true
  eq_items (cons x xs) (cons y ys) = py_eq x y && eq_items xs ys
  eq_items _ _ = false

  -- Each key of the first is in the second, with an equal value.
  pub eq_fields : Fields → Fields → Bool
  eq_fields end gs = true
  eq_fields (field k v fs) gs =
      elim (get_field k gs) [ none ↦ false | some w ↦ py_eq v w ] && eq_fields fs gs

-- On numbers exactly one of `<`, `==` and `>` holds, and the other two operators are their unions.
pub num_order :
    (a b : Number)
    → (num_le a b ≡ num_lt a b || num_eq a b)
      × (num_lt b a ≡ not (num_le a b))
      × (num_eq a b ≡ num_le a b && num_le b a)
unfolding num_le num_lt num_eq
num_order a b = (ground arith, ground arith, ground arith)
