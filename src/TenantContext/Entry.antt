-- ===== src/TenantContext/Entry.antt =====
-- modules/tenant-context/middleware.ts: `tenantContextMiddleware`, which every request enters by.
use medusa_multi_tenancy.Prelude.{
  ℕ, String, not, ◌&&◌, ◌||◌, Option, none, some, if◌then◌else◌, is_some,
}
use medusa_multi_tenancy.Schema.{Membership, TenantRole}
use medusa_multi_tenancy.Sql.Rows.{first}
use medusa_multi_tenancy.World.{
  Env, Exec, text, ServiceError, ◌>>=◌, ◌>>◌, pure, throw, gets, throw_if, access_not_assigned,
  tenant_scope_required, tenant_access_blocked,
}
use medusa_multi_tenancy.TenantManagement.Lifecycle.{is_tenant_access_blocked}
use medusa_multi_tenancy.TenantManagement.Members.{active_member_with_email, role_text}
use medusa_multi_tenancy.TenantManagement.Tenants.{is_tenant, status_of}
use medusa_multi_tenancy.TenantAccess.Requests.{single, Metadata, AdminRequest, get_actor_email}
use medusa_multi_tenancy.TenantAccess.Records.{
  ProcessEnv, ResolvedAccess, is_legacy_tenant_header_enabled, resolve_tenant_user_access,
}
use medusa_multi_tenancy.TenantContext.Routes.{
  is_admin_path, is_store_path, is_tenant_optional_route, allows_lifecycle_override,
  is_platform_operator,
}
use medusa_multi_tenancy.TenantContext.Naming.{resolve_tenant_id}

-- `TenantContext`
pub record TenantContext : Type 0 where
  pub tenant_id : String
  pub actor_email : Option String
  pub actor_tenant_role : Option TenantRole

-- The request as the handlers see it, and the context that they run in.
pub record Admitted : Type 0 where
  pub request : AdminRequest
  pub context : Option TenantContext

-- the status of the response to an error: `error.status || 400`
abbrev pub error_status : ServiceError → ℕ
error_status access_not_assigned = 403
error_status (tenant_access_blocked _) = 423
error_status _ = 400

-- the metadata with the active tenant and, where there is one, the role
abbrev with_tenant : String → Option TenantRole → Metadata → Metadata
with_tenant tenant_id none m = record m { active_tenant_id = text tenant_id }
with_tenant tenant_id (some role) m = record m {
  active_tenant_id = text tenant_id;
  tenant_role = text (role_text role);
}

abbrev mark_auth_context : String → Option TenantRole → AdminRequest → AdminRequest
mark_auth_context tenant_id role req =
    if req.has_auth_context
    then record req {
      auth_context = record (req.auth_context) {
        app_metadata = with_tenant tenant_id role req.auth_context.app_metadata;
        user_metadata = with_tenant tenant_id role req.auth_context.user_metadata;
      };
    }
    else req

abbrev role_of : Option Membership → Option TenantRole
role_of none = none
role_of (some m) = some m.role

-- what the handlers get where a tenant is resolved
abbrev pub admitted_to : String → Option String → Option Membership → AdminRequest → Admitted
admitted_to tenant_id email membership req = record {
  request = record (mark_auth_context tenant_id (role_of membership) req) {
    x_tenant_id = single tenant_id;
  };
  context = some (record {
    tenant_id = tenant_id;
    actor_email = email;
    actor_tenant_role = role_of membership;
  });
}

module _ (env : Env) (penv : ProcessEnv) (req : AdminRequest) where
  abbrev named_tenant : Exec env (Option String)
  named_tenant = gets λ w. resolve_tenant_id env w penv req

  abbrev legacy_tenant : Exec env (Option String)
  legacy_tenant = if is_legacy_tenant_header_enabled penv then named_tenant else pure none

  abbrev admins_tenant : Option String → Exec env (Option String)
  admins_tenant (some active) = pure (some active)
  admins_tenant none = legacy_tenant

  abbrev users_tenant : Option String → Exec env (Option String)
  users_tenant (some assigned) = pure (some assigned)
  users_tenant none = throw access_not_assigned

  -- of the answer of `resolveTenantUserAccess`
  unfoldable pub effective_tenant : ResolvedAccess → Exec env (Option String)
  effective_tenant access =
      let own =
        if access.is_platform_admin
        then admins_tenant access.active_tenant_id
        else users_tenant access.assigned_tenant_id in
      if is_some access.actor_email then own else pure none

  unfoldable pub resolve_effective_tenant_for_authenticated_user : Exec env (Option String)
  resolve_effective_tenant_for_authenticated_user =
      resolve_tenant_user_access env penv req >>= effective_tenant

  -- a request without a tenant: platform admins and operators may go on in the admin area
  abbrev enforce_admin : Exec env Unit
  enforce_admin = do
    access ← resolve_tenant_user_access env penv req
    throw_if (not (access.is_platform_admin || is_platform_operator req)) tenant_scope_required

  unfoldable pub enforce_tenant_scope : Option String → Exec env Unit
  enforce_tenant_scope (some tenant_id) = pure tt
  enforce_tenant_scope none =
      let check = if is_admin_path req then enforce_admin else throw tenant_scope_required in
      if (not (is_admin_path req) && not (is_store_path req)) || is_tenant_optional_route req
      then pure tt
      else check

  unfoldable pub enforce_tenant_lifecycle_state : Option String → Exec env Unit
  enforce_tenant_lifecycle_state none = pure tt
  enforce_tenant_lifecycle_state (some tenant_id) =
      let check =
        gets (λ w. status_of env (first env.sql (is_tenant tenant_id) w.tenants)) >>= λ status.
        throw_if (is_tenant_access_blocked status) (tenant_access_blocked status) in
      if is_tenant_optional_route req || allows_lifecycle_override req then pure tt else check

  -- `getMembershipForTenant`, for a tenant and an address
  unfoldable pub get_membership_for_tenant : String → Option String → Exec env (Option Membership)
  get_membership_for_tenant tenant_id none = pure none
  get_membership_for_tenant tenant_id (some email) =
      gets λ w. first env.sql (active_member_with_email tenant_id email) w.memberships

  abbrev run_inside : Option String → Option String → Exec env Admitted
  run_inside none email = pure (record { request = req; context = none })
  run_inside (some tenant_id) email = do
    membership ← get_membership_for_tenant tenant_id email
    pure (admitted_to tenant_id email membership req)

  -- what the request names, where it gives no address or the old header is still allowed
  abbrev fallback : Exec env (Option String)
  fallback =
      if not (is_some (get_actor_email req)) || is_legacy_tenant_header_enabled penv
      then named_tenant
      else pure none

  abbrev pub tenant_or_fallback : Option String → Exec env (Option String)
  tenant_or_fallback none = fallback
  tenant_or_fallback (some tenant_id) = pure (some tenant_id)

  -- the checks of a resolved tenant, and the context
  unfoldable pub enter : Option String → Exec env Admitted
  enter tenant_id = do
    enforce_tenant_scope tenant_id
    enforce_tenant_lifecycle_state tenant_id
    run_inside tenant_id (get_actor_email req)

  -- An error is answered with `error_status`, and the handlers do not run.
  unfoldable pub tenant_context_middleware : Exec env Admitted
  tenant_context_middleware = do
    resolved ← resolve_effective_tenant_for_authenticated_user
    tenant_id ← tenant_or_fallback resolved
    enter tenant_id
