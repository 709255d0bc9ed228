-- ===== src/Workflows/Pointer.antt =====
-- `pointer`: JSON Pointers as the program reads them.
use Prim.Native.Char.{code}
use Prim.Native.Nat.{◌*◌}
use rednexus_ai.Base.{
  ℕ, ◌+◌, String, Bool, false, not, ◌||◌, Option, none, some, List, [], ◌∷◌, eqb, ◌==◌,
  if◌then◌else◌,
}
use rednexus_ai.Base.Text.{split_slash, replace_pair, drop_first}
use rednexus_ai.Json.{Json, arr, obj, get_field, get_item}
use rednexus_ai.Env.{Env}

-- `int(token)`, if `token.isdecimal()`: at least one character, and each is a decimal digit.
read_digits : Env → ℕ → String → Option ℕ
read_digits env acc String.[] = some acc
read_digits env acc (String.◌∷◌ c s) = elim (env.decimal c) [
  | none ↦ none
  | some d ↦ read_digits env (acc * 10 + d) s
]

decimal_token : Env → String → Option ℕ
decimal_token env String.[] = none
decimal_token env (String.◌∷◌ c s) = read_digits env 0 (String.◌∷◌ c s)

starts_with_zero : String → Bool
starts_with_zero String.[] = false
starts_with_zero (String.◌∷◌ c s) = eqb (code c) b'0'

-- The index that a token names in a list; other tokens end in a `KeyError`.
pub index_of : Env → String → Option ℕ
unfolding decimal_token read_digits starts_with_zero
index_of env token =
    if token == "0" || not (starts_with_zero token) then decimal_token env token else none

-- `token.replace("~1", "/").replace("~0", "~")`.
unfoldable pub unescape : String → String
unfolding replace_pair
unescape token = replace_pair b'~' b'0' "~" (replace_pair b'~' b'1' "/" token)

-- One round of the loop. `none` is a `KeyError` or an `IndexError`.
pub step_into : Env → Json → String → Option Json
step_into env (obj fs) token = get_field token fs
step_into env (arr xs) token = elim (index_of env token) [ none ↦ none | some i ↦ get_item xs i ]
step_into env _ token = none

pub follow : Env → Json → List String → Option Json
follow env v [] = some v
follow env v (t ∷ ts) = elim (step_into env v (unescape t)) [
  | none ↦ none
  | some w ↦ follow env w ts
]

-- `pointer(value, path)`.
unfoldable pub pointer : Env → Json → String → Option Json
pointer env v path = if path == "" then some v else follow env v (split_slash (drop_first path))
