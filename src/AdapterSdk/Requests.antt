-- ===== src/AdapterSdk/Requests.antt =====
-- `adapter_app` and the checks that `execute` makes before it opens its database.
use Prim.Native.Char.{code}
use Prim.Native.String
use Prim.Native.String.{[], ◌∷◌}
use rednexus_ai.Base.{
  String, Bool, true, false, not, ◌&&◌, ◌||◌, Option, none, some, List, elem, ltb, leb, ◌==◌, map,
  if◌then◌else◌, Result, crashed, ok, guard, or_raise, or_crash, ◌>>=◌, ◌>>◌, type_error, key_error,
  value_error,
}
use rednexus_ai.Json.{Json, Fields, null, str, obj, get_field}
use rednexus_ai.Json.Compare.{Number, number, num_le, py_eq}
use rednexus_ai.Contracts.{CapabilitySpec, Mode, Protocol, http, nexus}
use rednexus_ai.Contracts.Dump.{fields}
use rednexus_ai.Env.{Env, digest, validate_payload}
use rednexus_ai.Registry.{spec_named}

pub record ExecutionEnvelope : Type 0 where
  pub contract_version : String
  pub capability : String
  pub input : Fields
  pub context : Fields

-- The closure that `adapter_app` returns, with `json.loads` for the texts it has stored.
pub record Adapter : Type 0 where
  pub env : Env
  pub loads : String → Json
  pub catalog : List CapabilitySpec
  pub token : String

is_http : Mode → Bool
is_http http = true
is_http _ = false

is_nexus : Protocol → Bool
is_nexus nexus = true
is_nexus _ = false

is_bound : Option String → Bool
is_bound none = false
is_bound (some w) = not (w == "")

unfoldable pub serves : CapabilitySpec → Bool
unfolding is_http is_nexus is_bound
serves c = is_bound c.workspace_binding && is_nexus c.protocol && is_http c.mode

unfoldable pub all_serve : List CapabilitySpec → Bool
all_serve List.[] = true
all_serve (List.◌∷◌ c cs) = serves c && all_serve cs

unfoldable pub within_names : List String → List String → Bool
within_names List.[] names = true
within_names (List.◌∷◌ n ns) names = elem n names && within_names ns names

-- `{s.name: s for s in specs}`: a later contract takes the place of an earlier one of its name.
place : CapabilitySpec → List CapabilitySpec → List CapabilitySpec
place c List.[] = List.◌∷◌ c List.[]
place c (List.◌∷◌ x xs) =
    let rest = place c xs in if x.name == c.name then List.◌∷◌ c xs else List.◌∷◌ x rest

unfoldable pub catalog_of : List CapabilitySpec → List CapabilitySpec → List CapabilitySpec
unfolding place
catalog_of done List.[] = done
catalog_of done (List.◌∷◌ c cs) = catalog_of (place c done) cs

abbrev names_of : List CapabilitySpec → List String
names_of cs = map (λ (c : CapabilitySpec). c.name) cs

-- `adapter_app(specs, handlers, token, receipt_database)`, on contracts that were validated and the
-- names of the handlers.
unfoldable pub adapter_app :
    Env → (String → Json) → List CapabilitySpec → List String → String → Result Adapter
adapter_app env loads specs handlers token =
    let catalog = catalog_of List.[] specs in
    let same =
      within_names (names_of catalog) handlers && within_names handlers (names_of catalog) in
    if ltb (String.count token) 24 || not (all_serve catalog) || not same
    then crashed value_error
    else ok (record { env = env; loads = loads; catalog = catalog; token = token })

-- What is kept of a request that has passed the checks.
pub record Ticket : Type 0 where
  pub spec : CapabilitySpec
  pub input : Fields
  pub context : Fields
  pub key : String
  pub fingerprint : String

ascii : String → Bool
ascii [] = true
ascii (c ∷ s) = ltb (code c) 128 && ascii s

-- `secrets.compare_digest` takes texts of ASCII characters only.
compare_digest : String → String → Result Bool
compare_digest a b = if ascii a && ascii b then ok (a == b) else crashed type_error

-- `context.get(name) == text`, where a key that is missing gives `None`.
same_text : Option Json → Option String → Bool
same_text none none = true
same_text (some null) none = true
same_text (some v) (some w) = py_eq v (str w)
same_text _ _ = false

after : Number → Option Number → Bool
after now none = false
after now (some t) = not (num_le t now)

in_time : Number → Option Json → Bool
in_time now none = false
in_time now (some v) = after now (number v)

value_or_none : Option Json → Json
value_or_none none = null
value_or_none (some v) = v

text_or_none : Option String → Json
text_or_none none = null
text_or_none (some s) = str s

-- What may not differ when a request is sent again.
unfoldable pub fingerprint_of : Env → ExecutionEnvelope → Json → String
unfolding value_or_none
fingerprint_of env d workspace = digest env (
    obj (
      fields (
        List.◌∷◌ ("capability", str d.capability)
          (List.◌∷◌ ("version", str d.contract_version)
            (List.◌∷◌ ("input", obj d.input)
              (List.◌∷◌ ("workspace", workspace)
                (List.◌∷◌ ("actor", value_or_none (get_field "actor" d.context))
                  (List.◌∷◌ ("run_id", value_or_none (get_field "run_id" d.context)) List.[]))))))))

unfoldable pub receipt_key : Env → Option String → String → String
unfolding text_or_none
receipt_key env binding k =
    digest env (
      obj (fields (List.◌∷◌ ("workspace", text_or_none binding) (List.◌∷◌ ("key", str k) List.[]))))

unfoldable pub ticket_of : Adapter → String → ExecutionEnvelope → CapabilitySpec → Json → Ticket
ticket_of a k d spec workspace = record {
  spec = spec;
  input = d.input;
  context = d.context;
  key = receipt_key a.env spec.workspace_binding k;
  fingerprint = fingerprint_of a.env d workspace;
}

-- The part of `execute` before the receipts are read.
unfoldable pub check_request :
    Adapter → String → String → ExecutionEnvelope → Number → Result Ticket
unfolding compare_digest ascii same_text in_time after
check_request a authorization k d now = do
  known ← compare_digest authorization (String.◌++◌ "Bearer " a.token)
  guard known 401 "invalid adapter credential"
  spec ← or_raise 409 "unknown capability or version" (spec_named d.capability a.catalog)
  guard (spec.version == d.contract_version) 409 "unknown capability or version"
  guard (same_text (get_field "workspace" d.context) spec.workspace_binding) 403
      "workspace mismatch"
  guard
      (leb 1 (String.count k)
        && leb (String.count k) 200
        && same_text (get_field "idempotency_key" d.context) (some k))
      422 "invalid idempotency key"
  guard (in_time now (get_field "deadline" d.context)) 422 "expired execution deadline"
  validate_payload a.env spec.input_schema (obj d.input)
  workspace ← or_crash key_error (get_field "workspace" d.context)
  ok (ticket_of a k d spec workspace)
