-- ===== src/Gateway/Catalog.antt =====
-- The class `Registry` of adapters.py: the contracts that are loaded, and the endpoints they name.
use Prim.Native.String
use rednexus_ai.Base.{
  String, Bool, true, false, not, ◌&&◌, ◌||◌, Option, none, some, List, [], ◌∷◌, ◌++◌, ◌==◌, elem,
  if◌then◌else◌, Result, ok, crashed, ◌>>◌, value_error,
}
use rednexus_ai.Contracts.{CapabilitySpec}
use rednexus_ai.Env.{Env}
use rednexus_ai.Registry.{Registry, spec_named}
use rednexus_ai.Extensions.Overview.{CapabilityRegistration}
use rednexus_ai.Gateway.Specs.{Outside, Url, given, is_http, valid_spec}

pub record Settings : Type 0 where
  pub allow_http : Bool
  pub allowed_origins : List String

-- `if not b: raise ValueError(…)`.
abbrev pub demand : Bool → Result (Unit {0})
demand true = ok tt
demand false = crashed value_error

abbrev pub is_clean : Url → Bool
is_clean u = not (given u.username) && not (given u.password) && u.fragment == "" && u.query == ""

abbrev pub origin : Url → String
origin u = String.◌++◌ u.scheme (String.◌++◌ "://" u.netloc)

-- `check_endpoint(endpoint)`.
unfoldable pub check_endpoint : Settings → Outside → String → Result (Unit {0})
check_endpoint g o endpoint = do
  demand (is_clean (o.split endpoint))
  demand
      ((o.split endpoint).scheme == "https" || g.allow_http && (o.split endpoint).scheme == "http")
  demand (elem (origin (o.split endpoint)) g.allowed_origins)

unfoldable pub text_or_empty : Option String → String
text_or_empty none = ""
text_or_empty (some s) = s

unfoldable pub check_if : Bool → Settings → Outside → Option String → Result (Unit {0})
unfolding text_or_empty
check_if false g o endpoint = ok tt
check_if true g o endpoint = check_endpoint g o (text_or_empty endpoint)

-- The checks of the endpoints that a contract names.
unfoldable pub check_endpoints : Settings → Outside → CapabilitySpec → Result (Unit {0})
unfolding check_if
check_endpoints g o c = do
  check_if (is_http c.mode) g o c.endpoint
  check_if (given c.health_endpoint) g o c.health_endpoint

unfoldable pub is_absent : Option CapabilitySpec → Bool
is_absent none = true
is_absent (some c) = false

unfoldable pub load_from :
    Env → Settings → Outside → List CapabilitySpec → Registry → Result Registry
unfolding is_absent check_endpoints check_if text_or_empty
load_from env g o [] specs = ok specs
load_from env g o (c ∷ cs) specs = do
  demand (valid_spec env o c)
  demand (is_absent (spec_named c.name specs))
  check_endpoints g o c
  load_from env g o cs (specs ++ c ∷ [])

-- `Registry(settings, specs)`.
unfoldable pub load : Env → Settings → Outside → List CapabilitySpec → Result Registry
load env g o raw = load_from env g o raw []

-- `merged[item["name"]] = item`.
unfoldable pub overlay : CapabilitySpec → List CapabilitySpec → List CapabilitySpec
overlay c [] = c ∷ []
overlay c (x ∷ xs) = let rest = overlay c xs in if x.name == c.name then c ∷ xs else x ∷ rest

unfoldable pub merge : List CapabilityRegistration → List CapabilitySpec → List CapabilitySpec
merge [] specs = specs
merge (r ∷ rs) specs = merge rs (overlay r.spec specs)

-- `refresh()`: the contracts that are loaded, with those of the table in their place or added.
unfoldable pub refresh :
    Env → Settings → Outside → List CapabilityRegistration → Registry → Result Registry
refresh env g o rows specs = load env g o (merge rows specs)
