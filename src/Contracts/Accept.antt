-- ===== src/Contracts/Accept.antt =====
-- The validators that contracts.py puts on a workflow: the limits of `RunInput`, `StepInput` and
-- `OutputBinding`, and the model validator `RunInput.size`.
use Prim.Native.Char.{code}
use Prim.Native.String
use Prim.Native.String.{len}
use rednexus_ai.Base.{
  Result, ok, crashed, value_error, if◌then◌else◌, ℕ, zero, suc, ◌+◌, ◌≡◌, String, Bool, true,
  false, not, ◌&&◌, ◌||◌, Option, none, some, List, [], ◌∷◌, length, get_elem?, arith, ltb, leb,
  eqb, ◌==◌,
}
use rednexus_ai.Json.{Json, Fields, get_field}
use rednexus_ai.Contracts.Types.{OutputBinding, Condition, StepInput, RunInput}
use rednexus_ai.Contracts.Dump.{dump_run}
use rednexus_ai.Env.{Env, max_bytes}

abbrev pub within : ℕ → ℕ → ℕ → Bool
within lo hi n = leb lo n && leb n hi

no_newline : String → Bool
no_newline String.[] = true
no_newline (String.◌∷◌ c s) = not (eqb (code c) 10) && no_newline s

-- The pattern `^(|/.*)$`.
pub pointer_shape : String → Bool
unfolding no_newline
pointer_shape String.[] = true
pointer_shape (String.◌∷◌ c s) = eqb (code c) b'/' && no_newline s

-- The limits of `OutputBinding`.
accept_ref : OutputBinding → Bool
accept_ref r = leb r.step 19 && leb (String.count r.pointer) 500 && pointer_shape r.pointer

accept_condition : Option Condition → Bool
accept_condition none = true
accept_condition (some c) = accept_ref c.ref

accept_refs : List (String × OutputBinding) → Bool
accept_refs [] = true
accept_refs ((k, r) ∷ bs) = accept_ref r && accept_refs bs

accept_step : StepInput → Bool
accept_step s = leb (length s.bindings) 50 && accept_refs s.bindings && accept_condition s.when

accept_steps : List StepInput → Bool
accept_steps [] = true
accept_steps (s ∷ ss) = accept_step s && accept_steps ss

-- `ref.step >= index` of no reference.
pub earlier_refs : ℕ → List (String × OutputBinding) → Bool
earlier_refs i [] = true
earlier_refs i ((k, r) ∷ bs) = ltb r.step i && earlier_refs i bs

pub earlier_condition : ℕ → Option Condition → Bool
earlier_condition i none = true
earlier_condition i (some c) = ltb c.ref.step i

is_absent : Option Json → Bool
is_absent none = true
is_absent (some v) = false

-- Each binding's target is a nonempty text of at most 100 characters that is no constant field.
fresh_targets : Fields → List (String × OutputBinding) → Bool
fresh_targets fs [] = true
fresh_targets fs ((k, r) ∷ bs) =
    not (k == "") && leb (String.count k) 100 && is_absent (get_field k fs) && fresh_targets fs bs

has_target : String → List (String × OutputBinding) → Bool
has_target t [] = false
has_target t ((k, r) ∷ bs) = k == t || has_target t bs

-- The body of the loop of `RunInput.size`, and the loop.
pub well_bound : ℕ → StepInput → Bool
well_bound i s =
    earlier_refs i s.bindings
    && earlier_condition i s.when
    && fresh_targets s.input s.bindings
    && not (s.use_previous && has_target "previous" s.bindings)

pub well_bound_from : ℕ → List StepInput → Bool
well_bound_from i [] = true
well_bound_from i (s ∷ ss) = well_bound i s && well_bound_from (suc i) ss

-- Whether `RunInput.model_validate` accepts a workflow.
unfoldable pub accept_run : Env → RunInput → Bool
unfolding accept_steps accept_step accept_ref accept_refs accept_condition well_bound_from
    well_bound earlier_refs earlier_condition fresh_targets has_target is_absent pointer_shape
accept_run env w =
    within 1 200 (String.count w.title)
    && within 1 20 (length w.steps)
    && accept_steps w.steps
    && leb w.budget_microunits 1000000000
    && within 1 80 w.max_tool_calls
    && within 10 86400 w.deadline_seconds
    && leb (len (env.canonical (dump_run w))) max_bytes
    && well_bound_from 0 w.steps

-- `RunInput.model_validate(…)` of a workflow that was stored.
unfoldable pub validated : Env → RunInput → Result RunInput
validated env w = if accept_run env w then ok w else crashed value_error

-- The step of an accepted workflow refers to earlier steps only: what the reference reads is there
-- when the step runs.
well_bound_from-at :
    (i j : ℕ) (ss : List StepInput) {s : StepInput}
    → well_bound_from i ss ≡ true
    → get_elem? ss j ≡ some s
    → well_bound (i + j) s ≡ true
unfolding well_bound_from
well_bound_from-at i j [] h e = cc
well_bound_from-at i zero (x ∷ ss) h e = ground arith
well_bound_from-at i (suc j) (x ∷ ss) {s} h e =
    let k : suc i + j ≡ i + suc j = omega arith in
    rw (← k) (well_bound_from-at (suc i) j ss {s = s} (ground arith) e)

pub accept_run-well_bound :
    (env : Env) (w : RunInput) (j : ℕ) {s : StepInput}
    → accept_run env w ≡ true
    → get_elem? w.steps j ≡ some s
    → well_bound j s ≡ true
unfolding accept_run
accept_run-well_bound env w j {s} h e =
    let k : 0 + j ≡ j = omega arith in
    rw (← k) (well_bound_from-at 0 j w.steps {s = s} (ground arith) e)
