-- ===== src/TenantAccess/Authorization.antt =====
-- api/admin/_shared/tenant-access.ts and api/admin/tenants/_shared/authorization.ts: whether the
-- caller may act in a tenant.
pub mod Allowed
use medusa_multi_tenancy.Prelude.{
  ℕ, suc, String, Bool, true, false, not, ◌&&◌, ◌||◌, Option, none, some, List, [], ◌∷◌, length,
  if◌then◌else◌, str_eq, ltb,
}
use medusa_multi_tenancy.Prelude.Text.{is_truthy}
use medusa_multi_tenancy.Schema.{
  Membership, TenantRole, owner, admin, same_role, is_enabled, TenantStatus,
}
use medusa_multi_tenancy.World.{Env, Exec, ◌>>=◌, ◌>>◌, pure}
use medusa_multi_tenancy.TenantManagement.Lifecycle.{is_tenant_access_blocked}
use medusa_multi_tenancy.TenantManagement.Members.{get_tenant_membership_by_email}
use medusa_multi_tenancy.TenantManagement.Tenants.{
  get_tenant_status, list_active_memberships_by_email,
}
use medusa_multi_tenancy.TenantAccess.Requests.{
  AdminRequest, ◌or◌, get_actor_email, get_active_tenant_id_from_auth_context,
  get_tenant_id_from_request,
}
use medusa_multi_tenancy.TenantAccess.Records.{ProcessEnv, resolve_tenant_user_access}

pub data TenantAction : Type 0 where
  invite manage_members deactivate_tenant suspend_tenant reactivate_tenant : TenantAction
  request_deletion manage_security : TenantAction

-- `ACTION_PERMISSIONS`
abbrev pub action_permissions : TenantAction → List TenantRole
action_permissions invite = owner ∷ admin ∷ []
action_permissions manage_members = owner ∷ admin ∷ []
action_permissions manage_security = owner ∷ admin ∷ []
action_permissions _ = owner ∷ []

-- `allowedRoles.includes(role)`
abbrev pub has_role : TenantRole → List TenantRole → Bool
has_role role [] = false
has_role role (r ∷ rs) = same_role role r || has_role role rs

abbrev pub is_reactivation : TenantAction → Bool
is_reactivation reactivate_tenant = true
is_reactivation _ = false

-- The answers that refuse, in place of their texts, with their status in brackets.
pub data Refusal : Type 0 where
  tenant_id_required : Refusal  -- (400)
  email_required : Refusal  -- (401)
  tenant_not_assigned : Refusal  -- (403)
  tenant_mismatch : Refusal  -- (409)
  not_an_active_member : Refusal  -- (403)
  access_blocked : Option TenantStatus → Refusal  -- (423)
  insufficient_permissions : List TenantRole → Refusal  -- (403)

abbrev pub refusal_status : Refusal → ℕ
refusal_status tenant_id_required = 400
refusal_status email_required = 401
refusal_status tenant_mismatch = 409
refusal_status (access_blocked _) = 423
refusal_status _ = 403

-- the tenant, the address and the role of the caller
pub record Access : Type 0 where
  pub tenant_id : String
  pub actor_email : String
  pub actor_role : TenantRole

pub data Decision : Type 0 where
  refused : Refusal → Decision
  granted : Access → Decision

-- `if (condition) return`, else the next step
abbrev pub guard : Bool → Refusal → Decision → Decision
guard true r next = refused r
guard false r next = next

-- several memberships, and an active tenant in the session that is another one
abbrev pub is_mismatched : List Membership → Option String → String → Bool
is_mismatched memberships none tenant_id = false
is_mismatched memberships (some session) tenant_id =
    ltb 1 (length memberships) && not (str_eq session tenant_id)

abbrev pub with_active : Option Membership → (Membership → Decision) → Decision
with_active none next = refused not_an_active_member
with_active (some m) next = if is_enabled m.status then next m else refused not_an_active_member

-- `hasTenantRole`
abbrev pub has_tenant_role : Option TenantRole → List TenantRole → Bool
has_tenant_role none allowed_roles = false
has_tenant_role (some role) allowed_roles = has_role role allowed_roles

-- `requireTenantRole`: the refusal, if there is one
unfoldable pub require_tenant_role : Option TenantRole → List TenantRole → Option Refusal
require_tenant_role role allowed_roles =
    if has_tenant_role role allowed_roles
    then none
    else some (insufficient_permissions allowed_roles)

module _ (env : Env) where
  -- the questions that both functions ask of the services, in their order
  unfoldable pub member_decision :
      String
      → String
      → Option String
      → (Option TenantStatus → Membership → Decision)
      → Exec env Decision
  member_decision tenant_id email session decide = do
    memberships ← list_active_memberships_by_email env email
    membership ← get_tenant_membership_by_email env tenant_id email
    status ← get_tenant_status env tenant_id
    pure (
        guard (is_mismatched memberships session tenant_id) tenant_mismatch
          (with_active membership (decide status)))

  abbrev pub decide_action :
      TenantAction → String → String → Option TenantStatus → Membership → Decision
  decide_action action tenant_id email status m =
      guard (not (is_reactivation action) && is_tenant_access_blocked status)
        (access_blocked status)
        (guard (not (has_role m.role (action_permissions action)))
          (insufficient_permissions (action_permissions action))
          (granted (record { tenant_id = tenant_id; actor_email = email; actor_role = m.role })))

  -- The services only read here, so that asking them all before the first answer makes no difference.
  unfoldable pub authorize_actor :
      Option String → Option String → AdminRequest → TenantAction → Exec env Decision
  authorize_actor none email req action = pure (refused tenant_id_required)
  authorize_actor (some tenant_id) none req action =
      pure (refused (if is_truthy tenant_id then email_required else tenant_id_required))
  authorize_actor (some tenant_id) (some email) req action =
      let decide =
        member_decision tenant_id email (get_active_tenant_id_from_auth_context req)
          (decide_action action tenant_id email) in
      if is_truthy tenant_id then decide else pure (refused tenant_id_required)

  unfoldable pub authorize_tenant_action : AdminRequest → TenantAction → Exec env Decision
  authorize_tenant_action req = authorize_actor req.tenant_param (get_actor_email req) req

  abbrev pub decide_access : String → String → Option TenantStatus → Membership → Decision
  decide_access tenant_id email status m =
      guard (is_tenant_access_blocked status) (access_blocked status)
        (granted (record { tenant_id = tenant_id; actor_email = email; actor_role = m.role }))

  abbrev access_in : Option String → String → Option String → Exec env Decision
  access_in none email session = pure (refused tenant_not_assigned)
  access_in (some tenant_id) email session =
      member_decision tenant_id email session (decide_access tenant_id email)

  abbrev access_of_actor : ProcessEnv → Option String → AdminRequest → Exec env Decision
  access_of_actor penv none req = pure (refused email_required)
  access_of_actor penv (some email) req = do
    resolved ← resolve_tenant_user_access env penv req
    access_in (resolved.effective_tenant_id or get_tenant_id_from_request req) email
        (get_active_tenant_id_from_auth_context req)

  -- A membership has a role, so the role of the session is never asked for.
  unfoldable pub resolve_authenticated_tenant_access : ProcessEnv → AdminRequest → Exec env Decision
  resolve_authenticated_tenant_access penv req = access_of_actor penv (get_actor_email req) req
