-- ===== src/Accounts/Grants.antt =====
-- No operation of the program, the operator's commands included, gives anyone a platform grant.
use rednexus_ai.Base.Ensures.{Ensures-or_crash}
use rednexus_ai.Base.Text.{starts_with, starts_with}
use mathlib.Core.Path.{subst}
use rednexus_ai.Env.{Env}
use rednexus_ai.Base.Table.{find}
use rednexus_ai.Sessions.{user_named}
use rednexus_ai.Identity.{
  actor_of, actor_for, require, require-eq-ok, require_role, Actor, require_role,
}
use mathlib.Core.Path.{subst}
use rednexus_ai.Base.{
  value_error, some, none, if◌then◌else◌, >>=-eq-ok, Bool-cases, inl, inr, elem, arith, true, refl,
  ◌==◌, ok, Option, none, some, ◌&&◌, ◌≡◌, refl, String, true, ◌&&◌, List, [], ◌∷◌, ◌==◌, elem,
  arith, All, Bool-cases, inl, inr,
}
use rednexus_ai.Registry.{Registry, Registry}
use rednexus_ai.Store.{user_keyed, User, membership, Membership}
use rednexus_ai.Extensions.Overview.{create_workspace, Tenancy, workspace_keyed, Tenancy}
use rednexus_ai.Accounts.Users.{accept_user, user_create, user_access, UserInput, AccessInput}
use rednexus_ai.Accounts.Operator.{
  first_admin, first_admin, sync_admin_grants, bootstrap_command, add_membership,
  create_workspace_command,
}
use rednexus_ai.Accounts.Plain.{IsPlain, IsLocal, elem-IsPlain, all_grants-IsPlain}
use rednexus_ai.Accounts.Kept.{
  bootstrap-IsLocal, user_create-IsLocal, user_access-IsLocal, sync_found-IsLocal,
  add_membership-IsLocal, create_workspace_command-IsLocal,
}

-- One operation that succeeds: of the operator's command line, or of the API.
pub data Governing (env : Env) (s : Tenancy) : Tenancy → Type 0 where
  bootstrapped :
      (hash : String → String) (reg : Registry) (i w name password : String) (t : Tenancy)
      → bootstrap_command hash reg i w name password s ≡ ok t
      → Governing env s t
  synchronised :
      (reg : Registry) (w name : String) (t : Tenancy)
      → sync_admin_grants env reg w name s ≡ ok t
      → Governing env s t
  joined :
      (w name role : String) (t : Tenancy) → add_membership w name role s ≡ ok t → Governing env s t
  opened :
      (w name : String) (t : Tenancy)
      → create_workspace_command env w name s ≡ ok t
      → Governing env s t
  enrolled :
      (hash : String → String) (i : String) (actor : Actor) (d : UserInput) (t : Tenancy)
      → user_create env hash i actor d s ≡ ok t
      → Governing env s t
  changed :
      (actor : Actor) (user : String) (d : AccessInput) (t : Tenancy)
      → user_access env actor user d s ≡ ok t
      → Governing env s t

pub data Governs (env : Env) (s : Tenancy) : Tenancy → Type 0 where
  started : Governs env s s
  followed : {t u : Tenancy} → Governs env s t → Governing env t u → Governs env s u

Governing-IsLocal : (env : Env) (s t : Tenancy) → Governing env s t → IsLocal s → IsLocal t
unfolding bootstrap_command first_admin sync_admin_grants
Governing-IsLocal env s t (bootstrapped hash reg i w name password u e) h =
    (Ensures-or_crash value_error
        (if accept_user (first_admin reg name password) then some tt else none) _
        λ v met. bootstrap-IsLocal hash i w w _ s (all_grants-IsPlain reg) h).at
      u e
Governing-IsLocal env s t (synchronised reg w name u e) h =
    (sync_found-IsLocal env reg w (user_named name s.db.users) s h).at u e
Governing-IsLocal env s t (joined w name role u e) h =
    (add_membership-IsLocal w name role s h).at u e
Governing-IsLocal env s t (opened w name u e) h =
    (create_workspace_command-IsLocal env w name s h).at u e
Governing-IsLocal env s t (enrolled hash i actor d u e) h =
    (user_create-IsLocal env hash i actor d s h).at u e
Governing-IsLocal env s t (changed actor user d u e) h =
    (user_access-IsLocal env actor user d s h).at u e

-- If no membership has a platform grant at first, none has one after any operations of the API and
-- the command line.
pub Governs-IsLocal : (env : Env) (s t : Tenancy) → Governs env s t → IsLocal s → IsLocal t
Governs-IsLocal env s t started h = h
Governs-IsLocal env s t (followed {t = u} before last) h =
    Governing-IsLocal env u t last (Governs-IsLocal env s u before h)

membership-IsPlain :
    (w u : String) (ms : List Membership) {m : Membership}
    → All (λ (m : Membership). IsPlain m.grants) ms
    → membership w u ms ≡ some m
    → IsPlain m.grants
unfolding membership
membership-IsPlain w u [] h e = cc
membership-IsPlain w u (x ∷ ms) {m} (h, hs) e =
    elim (Bool-cases (x.workspace == w && x.user_id == u)) [
      | inl hit ↦
          let found : some x ≡ some m = rw hit at e in
          let same : x ≡ m = cc in subst (λ y. IsPlain y.grants) same h
      | inr missed ↦
          let rest : membership w u ms ≡ some m = rw missed at e in
          membership-IsPlain w u ms hs rest
    ]

actor_of-IsPlain :
    (w : String) (u : Option User) (m : Option Membership) {a : Actor}
    → ((x : Membership) → m ≡ some x → IsPlain x.grants)
    → actor_of w u m ≡ ok a
    → IsPlain a.grants
unfolding actor_of
actor_of-IsPlain w none m h e = cc
actor_of-IsPlain w (some u) none h e = cc
actor_of-IsPlain w (some u) (some m) {a} h e =
    let same : m.grants ≡ a.grants = ground (arith, e) in subst IsPlain same (h m refl)

-- The right that the endpoint for new workspaces asks for is a platform grant.
create_workspace-granted :
    (env : Env) (a : Actor) (i name : String) (s t : Tenancy)
    → create_workspace env a i name s ≡ ok t
    → elem "platform:workspaces:create" a.grants ≡ true
unfolding create_workspace
create_workspace-granted env a i name s t h =
    let (_, _, rest) = >>=-eq-ok (require_role a ("admin" ∷ [])) _ h in
    let (u, allowed, _) = >>=-eq-ok (require a "platform:workspaces:create") _ rest in
    require-eq-ok a "platform:workspaces:create" {u = u} allowed

is_platform : starts_with "platform:" "platform:workspaces:create" ≡ true
unfolding starts_with
is_platform = refl

-- If no membership has a platform grant at first, then after any operations of the API and the
-- command line the endpoint for new workspaces refuses every user.
pub Governs-create_workspace :
    (env : Env) (s t t' : Tenancy) (user w i name : String) (a : Actor)
    → Governs env s t
    → IsLocal s
    → actor_for t.db user w ≡ ok a
    → ¬ (create_workspace env a i name t ≡ ok t')
unfolding actor_for
Governs-create_workspace env s t t' user w i name a run h e c =
    let local = Governs-IsLocal env s t run h in
    let plain =
      actor_of-IsPlain w (find user t.db.users) (membership w user t.db.memberships)
        (λ m there. membership-IsPlain w user t.db.memberships local there) e in
    let allowed = create_workspace-granted env a i name t t' c in
    let refused = elem-IsPlain "platform:workspaces:create" a.grants plain allowed in
    absurd (ground (arith, refused, is_platform))
