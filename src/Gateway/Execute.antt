-- ===== src/Gateway/Execute.antt =====
-- `Gateway.execute` of adapters.py. The store of credentials and the calls over the network are
-- outside.
use Prim.Native.String
use mathlib.Core.Path.{subst}
use rednexus_ai.Base.{
  arith, eq_iff, Bool-cases, inl, inr, sym, Option, none, some, String, Bool, true, false, not,
  ◌&&◌, Option, none, some, List, [], ◌∷◌, ◌==◌, ◌≡◌, refl, if◌then◌else◌, Result, ok, raised,
  crashed, Bool-cases, inl, inr,
}
use rednexus_ai.Json.{Json, Fields, bool, str, arr, obj, nil, cons}
use rednexus_ai.Contracts.{CapabilitySpec, Mode, demo, http, disabled}
use rednexus_ai.Contracts.Dump.{fields}
use rednexus_ai.Env.{Env, validate_payload}
use rednexus_ai.Worker.{Reply, delivered, failure, timed_out, broke}
use rednexus_ai.Worker.Prepare.{Context}
use rednexus_ai.Gateway.Specs.{Outside, given}
use rednexus_ai.Gateway.Catalog.{Settings, check_endpoint, text_or_empty}

pub data Secret : Type 0 where
  unavailable missing : Secret
  secret : String → Secret

pub record Wire : Type 0 where
  pub settings : Settings
  pub outside : Outside
  -- `credential(settings, name)`
  pub credential : String → Secret
  -- the call of `bounded_post`, `execute_native` or `execute_redworld`, with the headers
  pub call : CapabilitySpec → Fields → Context → List (String × String) → Reply

abbrev final_failure : String → Reply
final_failure code = failure (record { code = code; retryable = false; http_status = none })

-- The fixture of the mode "demo".
demo_result : CapabilitySpec → Fields → Json
demo_result c payload = obj (
    fields (
      ("simulated", bool true)
      ∷ ("project", str c.project)
      ∷ ("summary", str (String.◌++◌ "Demonstration response from " c.project))
      ∷ (
        "evidence",
        arr (
            cons (obj (fields (("source", str "demo-fixture") ∷ ("verified", bool false) ∷ [])))
              nil),
      )
      ∷ ("received", obj payload)
      ∷ []))

headers_of : Context → List (String × String)
headers_of x =
    ("X-Nexus-Run", x.run_id)
    ∷ ("X-Nexus-Workspace", x.workspace)
    ∷ ("Idempotency-Key", x.idempotency_key)
    ∷ ("X-Nexus-Actor", x.actor)
    ∷ []

call_with : Wire → CapabilitySpec → Fields → Context → Secret → Reply
unfolding headers_of
call_with k c payload x unavailable = final_failure "credential_store_unavailable"
call_with k c payload x missing = final_failure "missing_service_credential"
call_with k c payload x (secret s) =
    k.call c payload x (("Authorization", String.◌++◌ "Bearer " s) ∷ headers_of x)

call_checked : Wire → CapabilitySpec → Fields → Context → Result (Unit {0}) → Reply
unfolding headers_of
call_checked k c payload x (ok _) =
    if given c.credential_env
    then call_with k c payload x (k.credential (text_or_empty c.credential_env))
    else k.call c payload x (headers_of x)
call_checked k c payload x _ = broke

unfoldable pub dispatch : Wire → CapabilitySpec → Fields → Context → Mode → Reply
unfolding demo_result call_checked call_with headers_of
dispatch k c payload x demo = delivered (demo_result c payload)
dispatch k c payload x http =
    call_checked k c payload x (check_endpoint k.settings k.outside (text_or_empty c.endpoint))
dispatch k c payload x disabled = final_failure "capability_disabled"

unfoldable pub output_checked : Json → Result (Unit {0}) → Reply
output_checked v (ok _) = delivered v
output_checked v (raised p) = final_failure "upstream_contract_violation"
output_checked v (crashed e) = broke

unfoldable pub check_output : Env → CapabilitySpec → Reply → Reply
unfolding output_checked
check_output env c (delivered v) = output_checked v (validate_payload env c.output_schema v)
check_output env c (failure f) = failure f
check_output env c timed_out = timed_out
check_output env c broke = broke

abbrev pub bound_to : Option String → String → Bool
bound_to none w = false
bound_to (some b) w = not (b == "") && not (b == w)

unfoldable pub execute_valid :
    Env → Wire → CapabilitySpec → Fields → Context → Result (Unit {0}) → Reply
execute_valid env k c payload x (ok _) =
    if bound_to c.workspace_binding x.workspace
    then final_failure "capability_workspace_binding_mismatch"
    else check_output env c (dispatch k c payload x c.mode)
execute_valid env k c payload x _ = broke

-- `execute(spec, payload, context)`, as the worker sees its end: any exception but an
-- `AdapterFailure` is `broke`.
unfoldable pub execute : Env → Wire → CapabilitySpec → Fields → Context → Reply
execute env k c payload x =
    execute_valid env k c payload x (validate_payload env c.input_schema (obj payload))

output_checked-delivered :
    (env : Env) (c : CapabilitySpec) (w v : Json) (m : Result (Unit {0}))
    → validate_payload env c.output_schema w ≡ m
    → output_checked w m ≡ delivered v
    → validate_payload env c.output_schema v ≡ ok tt
unfolding output_checked
output_checked-delivered env c w v (ok _) e h =
    let same : w ≡ v = cc in subst (λ x. validate_payload env c.output_schema x ≡ ok tt) same e
output_checked-delivered env c w v (raised p) e h = absurd (cc)
output_checked-delivered env c w v (crashed x) e h = absurd (cc)

check_output-delivered :
    (env : Env) (c : CapabilitySpec) (r : Reply) (v : Json)
    → check_output env c r ≡ delivered v
    → validate_payload env c.output_schema v ≡ ok tt
unfolding check_output
check_output-delivered env c (delivered w) v h =
    output_checked-delivered env c w v (validate_payload env c.output_schema w) refl h
check_output-delivered env c (failure f) v h = cc
check_output-delivered env c timed_out v h = cc
check_output-delivered env c broke v h = cc

execute_valid-delivered :
    (env : Env) (k : Wire) (c : CapabilitySpec) (payload : Fields) (x : Context)
    (m : Result (Unit {0})) (v : Json)
    → execute_valid env k c payload x m ≡ delivered v
    → (m ≡ ok tt)
      × (bound_to c.workspace_binding x.workspace ≡ false)
      × (validate_payload env c.output_schema v ≡ ok tt)
unfolding execute_valid
execute_valid-delivered env k c payload x (raised p) v h = absurd (cc)
execute_valid-delivered env k c payload x (crashed e) v h = absurd (cc)
execute_valid-delivered env k c payload x (ok _) v h =
    elim (Bool-cases (bound_to c.workspace_binding x.workspace)) [
      | inl other ↦ absurd (refused (rw other at h))
      | inr here ↦ (
        refl,
        here,
        check_output-delivered env c (dispatch k c payload x c.mode) v (rw here at h),
      )
    ]
  where
    refused : final_failure "capability_workspace_binding_mismatch" ≡ delivered v → ⊥
    refused e = cc

-- The contract names no workspace, or the run's.
pub data IsOpenTo (w : String) : Option String → Type 0 where
  unnamed : IsOpenTo w none
  emptied : IsOpenTo w (some "")
  named : IsOpenTo w (some w)

bound_to-IsOpenTo : (b : Option String) (w : String) → bound_to b w ≡ false → IsOpenTo w b
bound_to-IsOpenTo none w h = unnamed
bound_to-IsOpenTo (some x) w h = elim (Bool-cases (x == "")) [
  | inl empty ↦ subst (λ y. IsOpenTo w (some y)) (sym ((eq_iff x "").0 empty)) emptied
  | inr other ↦
      let same : (x == w) ≡ true = ground (arith, h, other) in
      subst (λ y. IsOpenTo w (some y)) (sym ((eq_iff x w).0 same)) named
]

-- What the gateway delivers satisfies the contract's output schema, for an input that satisfies its
-- input schema, and the contract is bound to no workspace but the run's.
pub execute-delivered :
    (env : Env) (k : Wire) (c : CapabilitySpec) (payload : Fields) (x : Context) (v : Json)
    → execute env k c payload x ≡ delivered v
    → (validate_payload env c.input_schema (obj payload) ≡ ok tt)
      × (bound_to c.workspace_binding x.workspace ≡ false)
      × IsOpenTo x.workspace c.workspace_binding
      × (validate_payload env c.output_schema v ≡ ok tt)
unfolding execute
execute-delivered env k c payload x v h =
    let (valid, free, good) =
      execute_valid-delivered env k c payload x (validate_payload env c.input_schema (obj payload))
        v h in
    (valid, free, bound_to-IsOpenTo c.workspace_binding x.workspace free, good)
