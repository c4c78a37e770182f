-- ===== src/Tests/Access.antt =====
-- Requests of Ann, the owner of the tenant of `Fixtures`.
use medusa_multi_tenancy.Prelude.{
  ◌≡◌, ◌⊎◌, ◌↔◌, refl, ap, ◌∙◌, Option, String, true, false, none, some, [], ◌∷◌, arith,
}
use medusa_multi_tenancy.Prelude.Text.{
  normalize_email, trim, to_lower_case, includes, split, before,
}
use medusa_multi_tenancy.Schema.{
  TenantStatus, TenantUserAccess, TenantRole, tenant_admin, platform_admin,
}
use medusa_multi_tenancy.World.{World, text, null, ok, thrown, access_scope_violated, ◌>>=◌}
use medusa_multi_tenancy.World.Runs.{bind-ok}
use medusa_multi_tenancy.TenantManagement.Lifecycle.{is_tenant_access_blocked}
use medusa_multi_tenancy.TenantAccess.Requests.{
  absent, single, Metadata, AdminRequest, first_email, get_actor_email,
  get_active_tenant_id_from_auth_context, normalize_uuid,
}
use medusa_multi_tenancy.TenantAccess.Records.{
  ProcessEnv, is_platform_admin_email, resolved_of, access_of, resolve_tenant_user_access,
  resolve_account, settle_access, sync_access,
}
use medusa_multi_tenancy.TenantAccess.Records.Resolving.{
  HasUniqueAccess, Resolved, Refused, resolve_account_cases,
}
use medusa_multi_tenancy.TenantAccess.Authorization.{
  invite, Access, granted, authorize_tenant_action,
}
use medusa_multi_tenancy.TenantAccess.Authorization.Allowed.{Permitted, authorize_tenant_action_iff}
use medusa_multi_tenancy.TenantContext.Routes.{
  get_pathname, is_tenant_optional_route, allows_lifecycle_override,
}
use medusa_multi_tenancy.TenantContext.Entry.{
  Admitted, error_status, tenant_context_middleware, tenant_or_fallback, enter, effective_tenant,
  resolve_effective_tenant_for_authenticated_user,
}
use medusa_multi_tenancy.TenantContext.Isolation.{
  inside, blocked, passed, enters, is_guarded, context_is_active,
}
use medusa_multi_tenancy.TenantContext.Confinement.{outcome, removed_admin_is_locked_out}
use medusa_multi_tenancy.Tests.Fixtures.{env, office}

abbrev no_metadata : Metadata
no_metadata = record {
  email = null;
  active_tenant_id = null;
  tenant_role = null;
  platform_operator = null;
  is_platform_operator = null;
  is_admin = null;
  admin = null;
}

-- Ann lists her products, and names another tenant in the header.
abbrev request : AdminRequest
request = record {
  path = "/admin/products";
  original_url = "/admin/products";
  tenant_param = some "acme";
  has_auth_context = true;
  auth_context = record {
    actor_email = text " Ann@acme.io";
    email = null;
    actor_id = null;
    email_of_actor = null;
    app_metadata = no_metadata;
    identity_metadata = no_metadata;
    user_metadata = no_metadata;
  };
  authorization = absent;
  host = single "shop.acme.io";
  x_forwarded_host = absent;
  x_platform_operator = absent;
  x_tenant_id = single "other";
  x_tenant_slug = absent;
  x_user_email = absent;
  query_tenant_slug = none;
  query_tenant = none;
  query_tenant_id = none;
}

abbrev penv : ProcessEnv
penv = record {
  platform_admin_emails = some "root@acme.io";
  auto_create_tenant_on_first_login = none;
  allow_legacy_tenant_header = some "true";
  node_env = none;
}

abbrev access : TenantUserAccess
access = record {
  id = "a1";
  user_id = none;
  user_email = "ann@acme.io";
  tenant_id = some "acme";
  role = tenant_admin;
  is_platform_admin = false;
  active_tenant_id = some "acme";
  is_auto_provisioned = false;
  updated_at = 0;
}

abbrev staffed : World env
staffed = record (office TenantStatus.active false) { user_access = access ∷ [] }

-- Ann's record as it was when she was a platform admin.
abbrev former : TenantUserAccess
former = record access {
  tenant_id = none;
  role = platform_admin;
  is_platform_admin = true;
  active_tenant_id = none;
}

abbrev formerly_staffed : World env
formerly_staffed = record (office TenantStatus.active false) { user_access = former ∷ [] }

staffed-HasUniqueAccess : HasUniqueAccess env staffed
staffed-HasUniqueAccess = (λ id. ground arith, λ email. ground arith)

called : get_actor_email request ≡ some "ann@acme.io"
unfolding get_actor_email first_email normalize_email trim to_lower_case includes
called = refl

unlisted : is_platform_admin_email penv "ann@acme.io" ≡ false
unfolding is_platform_admin_email normalize_email trim to_lower_case split
unlisted = refl

resolve_account_cases_example :
    Resolved env penv "ann@acme.io" staffed (resolve_account env penv "ann@acme.io" staffed)
    ⊎ Refused env penv "ann@acme.io" staffed (resolve_account env penv "ann@acme.io" staffed)
resolve_account_cases_example =
    resolve_account_cases env penv "ann@acme.io" staffed staffed-HasUniqueAccess

removed_admin_is_locked_out_example :
    ((outcome env penv request "ann@acme.io" formerly_staffed).0 ≡ thrown access_scope_violated)
    × (error_status access_scope_violated ≡ 400)
    × (access_of env "ann@acme.io" (outcome env penv request "ann@acme.io" formerly_staffed).1
        ≡ some former)
removed_admin_is_locked_out_example =
    removed_admin_is_locked_out env penv request "ann@acme.io" formerly_staffed former called
      unlisted refl refl refl

guarded : is_guarded env penv request ≡ true
unfolding is_tenant_optional_route allows_lifecycle_override get_pathname to_lower_case before split
guarded = refl

abbrev seen : Admitted
seen = inside env penv request "acme" staffed

resolves_staffed :
    resolve_tenant_user_access env penv request staffed
    ≡ (ok (resolved_of "ann@acme.io" access false), staffed)
unfolding resolve_tenant_user_access resolve_account settle_access sync_access
resolves_staffed = rw (called, unlisted) refl

effective_staffed :
    resolve_effective_tenant_for_authenticated_user env penv request staffed
    ≡ (ok (some "acme"), staffed)
unfolding resolve_effective_tenant_for_authenticated_user effective_tenant
effective_staffed =
    bind-ok (effective_tenant env penv request) (resolve_tenant_user_access env penv request)
      staffed resolves_staffed

unblocked : passed env penv request "acme" staffed ≡ false
unfolding is_tenant_optional_route allows_lifecycle_override get_pathname to_lower_case before split
    is_tenant_access_blocked
unblocked = refl

enters_staffed : (tenant_context_middleware env penv request staffed).0 ≡ ok seen
unfolding tenant_context_middleware
enters_staffed =
    ap (λ r. r.0)
      (bind-ok
          (λ (t : Option String). tenant_or_fallback env penv request t >>= enter env penv request)
          (resolve_effective_tenant_for_authenticated_user env penv request) staffed
          effective_staffed
        ∙ enters env penv request "acme" staffed unblocked)

context_is_active_example :
    (blocked env penv request "acme" (tenant_context_middleware env penv request staffed).1 ≡ false)
    × (seen.request.x_tenant_id ≡ single "acme")
context_is_active_example =
    context_is_active env penv request staffed {m = seen} guarded enters_staffed refl

no_session : get_active_tenant_id_from_auth_context request ≡ none
unfolding get_active_tenant_id_from_auth_context normalize_uuid
no_session = refl

abbrev as_owner : Access
as_owner = record { tenant_id = "acme"; actor_email = "ann@acme.io"; actor_role = TenantRole.owner }

authorize_tenant_action_iff_example :
    ((authorize_tenant_action env request invite staffed).0 ≡ ok (granted as_owner))
    ↔ Permitted env request invite staffed as_owner
authorize_tenant_action_iff_example =
    authorize_tenant_action_iff env request invite staffed as_owner
