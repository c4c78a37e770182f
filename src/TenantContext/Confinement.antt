-- ===== src/TenantContext/Confinement.antt =====
-- What `tenantContextMiddleware` does with the request of an account that is no platform admin's.
use medusa_multi_tenancy.Prelude.{◌≡◌, ◌∙◌, refl, ap, ◌⊎◌, String, true, false, Option, none, some}
use medusa_multi_tenancy.Schema.{TenantUserAccess}
use medusa_multi_tenancy.World.{
  Env, World, Result, ok, thrown, ServiceError, access_scope_violated, tenant_access_blocked, ◌>>=◌,
}
use medusa_multi_tenancy.World.Runs.{bind-thrown}
use medusa_multi_tenancy.TenantManagement.Tenants.{is_tenant, status_of}
use medusa_multi_tenancy.Sql.Rows.{first}
use medusa_multi_tenancy.TenantAccess.Requests.{AdminRequest, get_actor_email}
use medusa_multi_tenancy.TenantAccess.Records.{
  ProcessEnv, is_platform_admin_email, has_email, access_of, resolve_account,
  resolve_tenant_user_access,
}
use medusa_multi_tenancy.TenantAccess.Records.Resolving.{demotion-Refused}
use medusa_multi_tenancy.TenantContext.Entry.{
  Admitted, error_status, effective_tenant, resolve_effective_tenant_for_authenticated_user,
  tenant_or_fallback, enter, tenant_context_middleware,
}
use medusa_multi_tenancy.TenantContext.Isolation.{blocked, is_guarded, inside}

module _ (env : Env) (penv : ProcessEnv) (req : AdminRequest) (email : String) (w : World env) where
  abbrev pub outcome : Result Admitted × World env
  outcome = tenant_context_middleware env penv req w

  abbrev pub status_in : String → World env → ServiceError
  status_in t w' = tenant_access_blocked (status_of env (first env.sql (is_tenant t) w'.tenants))

  -- The outcome where the record of the account names a tenant: the handlers run inside it, or the
  -- route needs it to be active and it is not.
  abbrev pub Confined : String → Type 0
  Confined t =
      (outcome.0 ≡ ok (inside env penv req t outcome.1))
      ⊎ ((outcome.0 ≡ thrown (status_in t outcome.1))
          × (blocked env penv req t outcome.1 ≡ true)
          × (is_guarded env penv req ≡ true))

  abbrev after : World env
  after = (resolve_account env penv email w).1

  abbrev rest : Option String → World env → Result Admitted × World env
  rest resolved = tenant_or_fallback env penv req resolved >>= enter env penv req

  module _ (called : get_actor_email req ≡ some email)
      (refused : (resolve_account env penv email w).0 ≡ thrown access_scope_violated) where
    access_fails : resolve_tenant_user_access env penv req w ≡ (thrown access_scope_violated, after)
    unfolding resolve_tenant_user_access
    access_fails = rw called (ap (λ r. (r, after)) refused)

    effective_fails :
        resolve_effective_tenant_for_authenticated_user env penv req w
        ≡ (thrown access_scope_violated, after)
    unfolding resolve_effective_tenant_for_authenticated_user
    effective_fails =
        bind-thrown (effective_tenant env penv req) (resolve_tenant_user_access env penv req) w
          access_fails

    entry_fails : tenant_context_middleware env penv req w ≡ (thrown access_scope_violated, after)
    unfolding tenant_context_middleware
    entry_fails =
        bind-thrown rest (resolve_effective_tenant_for_authenticated_user env penv req) w
          effective_fails

  -- An account whose record is a platform admin's, without a tenant, and which
  -- `PLATFORM_ADMIN_EMAILS` no longer lists: every request of it fails with the violation of the
  -- table's check, on whatever route, and its record stays a platform admin's.
  pub removed_admin_is_locked_out :
      (a : TenantUserAccess)
      → get_actor_email req ≡ some email
      → is_platform_admin_email penv email ≡ false
      → access_of env email w ≡ some a
      → a.is_platform_admin ≡ true
      → a.tenant_id ≡ none
      → (outcome.0 ≡ thrown access_scope_violated)
        × (error_status access_scope_violated ≡ 400)
        × (access_of env email outcome.1 ≡ some a)
  removed_admin_is_locked_out a called unlisted found was nowhere =
      let (refused, same) = demotion-Refused env penv email w a unlisted found was nowhere in
      let e = entry_fails called refused in
      (
        ap (λ r. r.0) e,
        refl,
        ap (λ r. access_of env email r.1) e ∙ (ap (first env.sql (has_email email)) same ∙ found),
      )
