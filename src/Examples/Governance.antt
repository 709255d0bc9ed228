-- ===== src/Examples/Governance.antt =====
-- The theorems on users and their grants, applied.
use rednexus_ai.Base.Text.{starts_with, starts_with}
use rednexus_ai.Contracts.Dump.{fields}
use rednexus_ai.Json.{str, obj}
use rednexus_ai.Base.{none, ◌≡◌, refl, [], ◌∷◌, ok}
use rednexus_ai.Base.Table.{find}
use rednexus_ai.Identity.{Actor, actor_for, actor_of}
use rednexus_ai.Sessions.{user_named}
use rednexus_ai.Store.{membership, emit, user_keyed}
use rednexus_ai.Extensions.Overview.{Tenancy, create_workspace, add_workspace, workspace_keyed}
use rednexus_ai.Accounts.Plain.{IsLocal}
use rednexus_ai.Accounts.Grants.{
  Governs, started, followed, opened, Governs-IsLocal, Governs-create_workspace,
}
use rednexus_ai.Accounts.Operator.{create_workspace_command, operator_workspace, active_user}
use rednexus_ai.Examples.World.{env0, empty_db, owner0}

abbrev tenancy0 : Tenancy
tenancy0 = record { db = empty_db; workspaces = []; registrations = [] }

local0 : IsLocal tenancy0
unfolding starts_with
local0 = ((refl, tt), ((refl, tt), tt))

abbrev tenancy1 : Tenancy
tenancy1 =
    let t = add_workspace "x" "x" "u1" tenancy0 in
    record t {
      db =
          emit env0 "x" "workspace.created"
            (obj (fields (("actor", str "local-operator-cli") ∷ ("user", str "u1") ∷ []))) none
            t.db;
    }

opened0 : create_workspace_command env0 "x" "ann" tenancy0 ≡ ok tenancy1
unfolding create_workspace_command operator_workspace active_user user_named find
opened0 = refl

governed0 : Governs env0 tenancy0 tenancy1
governed0 = followed started (opened "x" "ann" tenancy1 opened0)

Governs-IsLocal_example : IsLocal tenancy1
Governs-IsLocal_example = Governs-IsLocal env0 tenancy0 tenancy1 governed0 local0

abbrev ann0 : Actor
ann0 = record owner0 { workspace = "x"; role = "admin"; grants = [] }

known0 : actor_for tenancy1.db "u1" "x" ≡ ok ann0
unfolding actor_for actor_of membership find add_workspace emit
known0 = refl

Governs-create_workspace_example : ¬ (create_workspace env0 ann0 "y" "y" tenancy1 ≡ ok tenancy0)
Governs-create_workspace_example =
    Governs-create_workspace env0 tenancy0 tenancy1 tenancy0 "u1" "x" "y" "y" ann0 governed0 local0
      known0
