-- ===== src/Examples/Gateways.antt =====
-- The theorems on the registry and the gateway, applied.
use rednexus_ai.Base.{◌≡◌, refl, true, false, none, some, [], ◌∷◌, ok, elem}
use rednexus_ai.Base.Text.{contains, starts_with}
use rednexus_ai.Base.Table.{find}
use rednexus_ai.Json.{str, end, obj}
use rednexus_ai.Env.{validate_payload}
use rednexus_ai.Registry.{spec_named}
use rednexus_ai.Store.{Run, run_keyed}
use rednexus_ai.Worker.{delivered}
use rednexus_ai.Worker.Prepare.{prepare, action_of}
use rednexus_ai.Worker.Authority.{IsAuthorised, IsCovered}
use rednexus_ai.Gateway.Specs.{Url, Outside, valid_spec}
use rednexus_ai.Gateway.Catalog.{
  Settings, check_endpoint, text_or_empty, load, load_from, check_endpoints, check_if, is_absent,
}
use rednexus_ai.Gateway.Execute.{
  Wire, unavailable, dispatch, check_output, output_checked, execute_valid, execute, bound_to,
  IsOpenTo, execute-delivered,
}
use rednexus_ai.Gateway.Covered.{prepare-IsCovered}
use rednexus_ai.Examples.World.{env0, spec0, reg0, held_db, draws0, handed}
use rednexus_ai.Examples.Leases.{prepared}

abbrev url0 : Url
url0 = record {
  scheme = "http";
  netloc = "ops";
  path = "/execute";
  query = "";
  fragment = "";
  username = none;
  password = none;
}

abbrev outside0 : Outside
outside0 = record { schema_ok = λ _. true; split = λ _. url0 }

abbrev settings0 : Settings
settings0 = record { allow_http = true; allowed_origins = "http://ops" ∷ [] }

loaded0 : load env0 settings0 outside0 (spec0 ∷ []) ≡ ok reg0
unfolding load load_from valid_spec spec_named check_endpoints check_if check_endpoint text_or_empty
    is_absent contains starts_with elem
loaded0 = refl

prepare-IsCovered_example :
    (r : Run) × (find "r1" held_db.runs ≡ some r)
    × (a : IsAuthorised env0 reg0 draws0 r held_db handed) × IsCovered env0 50 held_db r a.contract
        (action_of r a.contract a.step.fingerprint end)
        a.owner
prepare-IsCovered_example =
    prepare-IsCovered env0 settings0 outside0 (spec0 ∷ []) reg0 draws0 "r1" "t1" held_db
      (prepare env0 reg0 draws0 "r1" "t1" held_db).1 handed loaded0 prepared refl

abbrev wire0 : Wire
wire0 = record {
  settings = settings0;
  outside = outside0;
  credential = λ _. unavailable;
  call = λ _ _ _ _. delivered (str "done");
}

executed0 : execute env0 wire0 spec0 end handed.context ≡ delivered (str "done")
unfolding execute execute_valid dispatch check_output output_checked validate_payload check_endpoint
    text_or_empty elem
executed0 = refl

execute-delivered_example :
    (validate_payload env0 spec0.input_schema (obj end) ≡ ok tt)
    × (bound_to none "w" ≡ false)
    × IsOpenTo "w" none
    × (validate_payload env0 spec0.output_schema (str "done") ≡ ok tt)
execute-delivered_example =
    execute-delivered env0 wire0 spec0 end handed.context (str "done") executed0
