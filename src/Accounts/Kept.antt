-- ===== src/Accounts/Kept.antt =====
-- What each operation on users, memberships and workspaces keeps of them.
use rednexus_ai.Env.{Env}
use rednexus_ai.Base.Table.{find}
use rednexus_ai.Sessions.{user_named}
use rednexus_ai.Identity.{require_role, Actor, require_role}
use rednexus_ai.Base.Ensures.{
  Ensures, Ensures-ok, Ensures-raised, Ensures-bind, Ensures-guard, Ensures-or_raise, Ensures-elim,
  Ensures-if,
}
use rednexus_ai.Base.{
  arith, ◌==◌, Option, none, some, not, All-append, String, List, [], ◌∷◌, ◌==◌, arith, All,
  All-append,
}
use rednexus_ai.Registry.{Registry, Registry}
use rednexus_ai.Store.{user_keyed, Db, User, emit, membership, Membership}
use rednexus_ai.Extensions.Overview.{Tenancy, add_workspace, workspace_keyed, Tenancy}
use rednexus_ai.Accounts.Users.{
  create_user, add_user, enrol, bootstrap, user_create, user_access, UserInput, AccessInput,
  has_platform,
}
use rednexus_ai.Accounts.Operator.{
  sync_found, synced, is_active_admin, add_membership, create_workspace_command, operator_workspace,
  active_user, added_grants, added_grants,
}
use rednexus_ai.Accounts.Plain.{
  IsPlain, IsLocal, has_platform-IsPlain, added_grants-IsPlain, merged_grants-IsPlain,
  modify_membership-IsPlain,
}

enrol-IsPlain :
    (w u role : String) (grants : List String) (db : Db)
    → IsPlain grants
    → All (λ (m : Membership). IsPlain m.grants) db.memberships
    → All (λ (m : Membership). IsPlain m.grants) (enrol w u role grants db).memberships
unfolding enrol
enrol-IsPlain w u role grants db p h = All-append _ db.memberships _ h (p, tt)

abbrev PlainDb : Db → Type 0
PlainDb db = All (λ (m : Membership). IsPlain m.grants) db.memberships

create_user-IsPlain :
    (hash : String → String) (i w : String) (d : UserInput) (db : Db)
    → IsPlain d.grants
    → PlainDb db
    → Ensures PlainDb (create_user hash i w d db)
unfolding create_user add_user
create_user-IsPlain hash i w d db p h =
    Ensures-elim (user_named d.username db.users) _ _ (λ _. Ensures-raised _ _)
      (Ensures-ok _ (enrol-IsPlain w i d.role d.grants _ p h))

pub bootstrap-IsLocal :
    (hash : String → String) (i w name : String) (d : UserInput) (s : Tenancy)
    → IsPlain d.grants
    → IsLocal s
    → Ensures IsLocal (bootstrap hash i w name d s)
unfolding bootstrap
bootstrap-IsLocal hash i w name d s p h =
    Ensures-elim (find w s.workspaces) _ _ (λ _. Ensures-raised _ _)
      (Ensures-bind (create_user hash i w d s.db) _
        λ db made. Ensures-ok _ ((create_user-IsPlain hash i w d s.db p h).at db made))

pub user_create-IsLocal :
    (env : Env) (hash : String → String) (i : String) (actor : Actor) (d : UserInput) (s : Tenancy)
    → IsLocal s
    → Ensures IsLocal (user_create env hash i actor d s)
unfolding user_create emit
user_create-IsLocal env hash i actor d s h =
    Ensures-bind (require_role actor ("admin" ∷ [])) _ λ _ _.
      Ensures-guard (not (has_platform d.grants)) 403 _ _ λ plain.
        Ensures-bind (create_user hash i actor.workspace d s.db) _ λ db made. Ensures-ok _ (
          (create_user-IsPlain hash i actor.workspace d s.db
              (has_platform-IsPlain d.grants (ground (arith, plain))) h).at
            db made)

pub user_access-IsLocal :
    (env : Env) (actor : Actor) (user : String) (d : AccessInput) (s : Tenancy)
    → IsLocal s
    → Ensures IsLocal (user_access env actor user d s)
unfolding user_access emit
user_access-IsLocal env actor user d s h = Ensures-bind (require_role actor ("admin" ∷ [])) _ λ _ _.
    Ensures-guard (not (has_platform d.grants)) 403 _ _ λ plain.
      Ensures-guard (not (user == actor.id)) 409 _ _ λ _.
        Ensures-or_raise 404 _ (membership actor.workspace user s.db.memberships) _ λ m _.
          Ensures-ok _ (
            modify_membership-IsPlain actor.workspace user _ s.db.memberships
              (λ _ _. has_platform-IsPlain d.grants (ground (arith, plain))) h)

pub sync_found-IsLocal :
    (env : Env) (reg : Registry) (w : String) (o : Option User) (s : Tenancy)
    → IsLocal s
    → Ensures IsLocal (sync_found env reg w o s)
unfolding sync_found synced emit
sync_found-IsLocal env reg w none s h = Ensures-raised _ _
sync_found-IsLocal env reg w (some u) s h =
    Ensures-elim (membership w u.id s.db.memberships) _ _
      (λ m.
        Ensures-if (is_active_admin u m) _ _
          (λ _. Ensures-ok _ (
            modify_membership-IsPlain w u.id _ s.db.memberships
              (λ x k.
                merged_grants-IsPlain x.grants (added_grants reg w m.grants) k
                  (added_grants-IsPlain reg w m.grants))
              h))
          (λ _. Ensures-raised _ _))
      (Ensures-raised _ _)

pub add_membership-IsLocal :
    (w username role : String) (s : Tenancy)
    → IsLocal s
    → Ensures IsLocal (add_membership w username role s)
unfolding add_membership
add_membership-IsLocal w username role s h =
    Ensures-or_raise 404 _ (user_named username s.db.users) _ λ u _.
      Ensures-or_raise 404 _ (find w s.workspaces) _ λ _ _.
        Ensures-elim (membership w u.id s.db.memberships) _ _ (λ _. Ensures-raised _ _)
          (Ensures-ok _ (enrol-IsPlain w u.id role [] s.db tt h))

pub create_workspace_command-IsLocal :
    (env : Env) (w username : String) (s : Tenancy)
    → IsLocal s
    → Ensures IsLocal (create_workspace_command env w username s)
unfolding create_workspace_command operator_workspace add_workspace emit
create_workspace_command-IsLocal env w username s h =
    Ensures-or_raise 404 _ (active_user (user_named username s.db.users)) _ λ u _.
      Ensures-elim (find w s.workspaces) _ _ (λ _. Ensures-raised _ _)
        (Ensures-ok _ (All-append _ s.db.memberships _ h (tt, tt)))
