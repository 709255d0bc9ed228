-- ===== src/Examples/Adapters.antt =====
-- The theorems on adapter_sdk.py, applied.
use rednexus_ai.Base.{List, ◌≡◌, ◌≤◌, refl, some, [], ◌∷◌, String, Result, ok, count, ◌==◌}
use rednexus_ai.Base.Table.{find}
use rednexus_ai.Json.{get_field, Json, str, int, pos, field, end}
use rednexus_ai.Json.Compare.{py_eq, num_le, number, Number}
use rednexus_ai.Env.{digest, validate_payload}
use rednexus_ai.Registry.{spec_named}
use rednexus_ai.AdapterSdk.{
  Adapter, ExecutionEnvelope, Ticket, Receipt, Service, Runs, check_request, ticket_of, receipt_key,
  fingerprint_of, begin, open_receipt, settle, serve, handled, answered, requested, stop, more,
  new_receipt, Runs-at_most_once, settle-open_receipt,
}
use rednexus_ai.Examples.World.{env0, spec0}

abbrev adapter0 : Adapter
adapter0 = record {
  env = env0;
  loads = λ s. str s;
  catalog = record spec0 { workspace_binding = some "w" } ∷ [];
  token = "012345678901234567890123";
}

abbrev envelope0 : ExecutionEnvelope
envelope0 = record {
  contract_version = "1";
  capability = "deploy";
  input = end;
  context =
      field "workspace" (str "w")
        (field "idempotency_key" (str "r1:0") (field "deadline" (int (pos 60)) end));
}

abbrev now0 : Number
now0 = record { mantissa = pos 50; shift = 0 }

abbrev bearer0 : String
bearer0 = "Bearer 012345678901234567890123"

abbrev ticket0 : Ticket
ticket0 = record {
  spec = record spec0 { workspace_binding = some "w" };
  input = end;
  context = envelope0.context;
  key = "json";
  fingerprint = "json";
}

abbrev idle0 : Service
idle0 = record { receipts = []; calls = [] }

abbrev busy0 : Service
busy0 = serve (begin adapter0 bearer0 "r1:0" envelope0 now0 []) []

called : busy0.calls ≡ "json" ∷ []
unfolding serve begin check_request spec_named validate_payload py_eq num_le number ticket_of
    receipt_key fingerprint_of digest open_receipt find get_field
called = refl

served :
    Runs adapter0 idle0
      (serve (begin adapter0 bearer0 "r1:0" envelope0 now0 busy0.receipts) busy0.calls)
served =
    more (more stop (requested bearer0 "r1:0" envelope0 now0))
      (requested bearer0 "r1:0" envelope0 now0)

Runs-at_most_once_example :
    count
      (λ j. j == "json")
      (serve (begin adapter0 bearer0 "r1:0" envelope0 now0 busy0.receipts) busy0.calls).calls
    ≤ 1
Runs-at_most_once_example = Runs-at_most_once adapter0 "json" _ served

opened0 : open_receipt adapter0 ticket0 [] ≡ (ok (handled ticket0), new_receipt ticket0 ∷ [])
unfolding open_receipt find
opened0 = refl

abbrev closed0 : Result Json × List Receipt
closed0 = settle adapter0 ticket0 (some (str "done")) (new_receipt ticket0 ∷ [])

settled0 : closed0 ≡ (ok (str "done"), closed0.1)
unfolding settle validate_payload
settled0 = refl

settle-open_receipt_example :
    open_receipt adapter0 ticket0 closed0.1 ≡ (ok (answered (str "json")), closed0.1)
settle-open_receipt_example =
    settle-open_receipt adapter0 ticket0 (str "done") (str "done") [] (new_receipt ticket0 ∷ [])
      closed0.1 opened0 settled0
