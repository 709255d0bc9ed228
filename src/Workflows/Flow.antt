-- ===== src/Workflows/Flow.antt =====
-- workflows.py beside `pointer`: reading a bound value, conditions, and the input of a step.
use rednexus_ai.Base.{
  String, Bool, true, false, not, ◌&&◌, ◌||◌, Option, none, some, List, [], ◌∷◌, get_elem?,
  get_last?, elem, if◌then◌else◌, Result, ok, raised, crashed, index_error, raise, guard, or_crash,
  or_raise, ◌>>=◌, ◌>>◌,
}
use rednexus_ai.Json.{
  Json, Items, Fields, bool, str, arr, obj, nil, cons, end, field, get_field, set_field,
}
use rednexus_ai.Json.Compare.{Number, number, num_lt, num_le, py_eq}
use rednexus_ai.Contracts.{
  Format, OutputBinding, Operator, Condition, StepInput, value, json, eq, ne, gt, gte, lt, exists,
}
use rednexus_ai.Env.{Env, validate_payload}
use rednexus_ai.Workflows.Pointer.{pointer}

formatted : Env → Format → Json → Json
formatted env json v = str (env.canonical v)
formatted env value v = v

-- `pointer(outputs[ref.step], ref.pointer)`, with the exceptions that `resolve` catches as `none`.
pub source_value : Env → OutputBinding → List Json → Option Json
source_value env ref outputs = elim (get_elem? outputs ref.step) [
  | none ↦ none
  | some v ↦ pointer env v ref.pointer
]

-- `resolve(ref, outputs)`.
pub resolve : Env → OutputBinding → List Json → Result Json
unfolding formatted
resolve env ref outputs = do
  v ← or_raise 422 "binding_source_missing" (source_value env ref outputs)
  ok (formatted env ref.format v)

is_exists : Operator → Bool
is_exists exists = true
is_exists _ = false

ordered : Operator → Number → Number → Bool
ordered gt a b = num_lt b a
ordered gte a b = num_le b a
ordered lt a b = num_lt a b
ordered _ a b = num_le a b

order_test : Operator → Option Number → Option Number → Result Bool
order_test op (some a) (some b) = ok (ordered op a b)
order_test op _ _ = raise 422 "condition_requires_numbers"

-- The comparison of a value that was found.
pub compare_values : Operator → Json → Json → Result Bool
unfolding order_test ordered
compare_values exists a e = ok true
compare_values eq a e = ok (py_eq a e)
compare_values ne a e = ok (not (py_eq a e))
compare_values op a e = order_test op (number a) (number e)

-- A source that is missing answers `exists` with no, and is an error for every other operator.
on_found : Condition → Result Json → Result Bool
on_found c (ok actual) = compare_values c.op actual c.value
on_found c (raised p) = if is_exists c.op then ok false else raised p
on_found c (crashed x) = crashed x

-- `condition_matches(condition, outputs)`.
unfoldable pub condition_matches : Env → Option Condition → List Json → Result Bool
unfolding on_found is_exists
condition_matches env none outputs = ok true
condition_matches env (some c) outputs = on_found c (resolve env c.ref outputs)

-- `payload["previous"] = outputs[-1]`.
add_previous : Bool → List Json → Fields → Result Fields
add_previous false outputs payload = ok payload
add_previous true outputs payload = do
  last ← or_crash index_error (get_last? outputs)
  ok (set_field "previous" last payload)

add_bindings : Env → List (String × OutputBinding) → List Json → Fields → Result Fields
add_bindings env [] outputs payload = ok payload
add_bindings env ((k, ref) ∷ bs) outputs payload = do
  v ← resolve env ref outputs
  add_bindings env bs outputs (set_field k v payload)

-- `input_for(step, outputs)`.
unfoldable pub input_for : Env → StepInput → List Json → Result Fields
unfolding add_previous add_bindings
input_for env s outputs = do
  payload ← add_previous s.use_previous outputs s.input
  add_bindings env s.bindings outputs payload

-- `d.get(k)` on a value that is a dict; a schema that is no object has no entries.
entry : String → Json → Option Json
entry k (obj fs) = get_field k fs
entry k _ = none

entries : Option Json → Fields
entries (some (obj fs)) = fs
entries _ = end

required_names : Option Json → List String
required_names (some (arr xs)) = names xs
  where
    names : Items → List String
    names nil = []
    names (cons (str s) ys) = s ∷ names ys
    names (cons _ ys) = names ys
required_names _ = []

is_false : Option Json → Bool
is_false (some (bool false)) = true
is_false _ = false

has_field : String → Fields → Bool
has_field k fs = elim (get_field k fs) [ none ↦ false | some v ↦ true ]

-- The names that a step's bindings fill at run time.
dynamic_names : StepInput → List String
dynamic_names s = if s.use_previous then "previous" ∷ keys s.bindings else keys s.bindings
  where
    keys : List (String × OutputBinding) → List String
    keys [] = []
    keys ((k, r) ∷ bs) = k ∷ keys bs

all_known : Fields → List String → Bool
all_known properties [] = true
all_known properties (k ∷ ks) = has_field k properties && all_known properties ks

-- No name is required that is neither bound nor among the constants.
all_given : List String → Fields → List String → Bool
all_given dynamic input [] = true
all_given dynamic input (k ∷ ks) =
    (elem k dynamic || has_field k input) && all_given dynamic input ks

pub check_constants : Env → Bool → Fields → Fields → Result (Unit {0})
check_constants env closed properties end = ok tt
check_constants env closed properties (field k v fs) = do
  check_one (get_field k properties)
  check_constants env closed properties fs
  where
    check_one : Option Json → Result (Unit {0})
    check_one (some schema) = validate_payload env schema v
    check_one none = guard (not closed) 422 "unknown constant input field"

-- Dynamic fields are checked when the step runs; the constants among the rest are checked now.
check_deferred : Env → Json → StepInput → List String → Result (Unit {0})
unfolding entry entries required_names is_false has_field all_known all_given
check_deferred env schema s dynamic = do
  let properties = entries (entry "properties" schema)
  let closed = is_false (entry "additionalProperties" schema)
  guard (not (closed && not (all_known properties dynamic))) 422
      "binding targets unknown input fields"
  guard (all_given dynamic s.input (required_names (entry "required" schema))) 422
      "required constant input field missing"
  check_constants env closed properties s.input

-- `validate_static(schema, step)`.
unfoldable pub validate_static : Env → Json → StepInput → Result (Unit {0})
unfolding check_deferred dynamic_names
validate_static env schema s = elim (dynamic_names s) [
  | [] ↦ validate_payload env schema (obj s.input)
  | k ∷ ks ↦ check_deferred env schema s (k ∷ ks)
]
