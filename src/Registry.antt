-- ===== src/Registry.antt =====
-- adapters.py: the registry of capability contracts.
use rednexus_ai.Base.{
  String, Option, none, some, List, [], ◌∷◌, ◌==◌, if◌then◌else◌, Result, ok, raise, ◌>>=◌,
}
use rednexus_ai.Contracts.{CapabilitySpec, is_disabled}
use rednexus_ai.Contracts.Dump.{dump_spec}
use rednexus_ai.Env.{Env, digest}

-- `Registry.specs`, by name.
abbrev pub Registry : Type 0
Registry = List CapabilitySpec

unfoldable pub spec_named : String → Registry → Option CapabilitySpec
spec_named n [] = none
spec_named n (c ∷ cs) = if c.name == n then some c else spec_named n cs

unfoldable pub enabled_spec : Option CapabilitySpec → Result CapabilitySpec
enabled_spec none = raise 422 "unknown capability"
enabled_spec (some c) = if is_disabled c.mode then raise 409 "capability is disabled" else ok c

-- `registry.get(name)`.
unfoldable pub get : Registry → String → Result CapabilitySpec
unfolding enabled_spec
get reg n = enabled_spec (spec_named n reg)

-- `registry.fingerprint(name)`.
unfoldable pub fingerprint : Env → Registry → String → Result String
fingerprint env reg n = do c ← get reg n; ok (digest env (dump_spec c))
