-- ===== src/TenantManagement/Tenants.antt =====
-- tenant-management/service.ts: creating and reading tenants, and their access configuration.
pub mod Creation
use medusa_multi_tenancy.Prelude.{
  ℕ, String, Bool, true, false, ◌&&◌, ◌||◌, Option, none, some, List, [], ◌∷◌, map, length, count,
  filter, if◌then◌else◌, str_eq, ltb, or_default, is_some,
}
use medusa_multi_tenancy.Prelude.Text.{unique, trim, is_truthy, or_null, normalize_email}
use medusa_multi_tenancy.Schema.{
  Tenant, TenantStatus, active, owner, Membership, enabled, is_enabled, AccessControl,
  IdentityProvider, Settings, Protocol, ScimAuthMode,
}
use medusa_multi_tenancy.Sql.Rows.{first}
use medusa_multi_tenancy.World.{
  Env, World, Exec, PayloadValue, ◌>>=◌, ◌>>◌, pure, gets, or_throw, throw_if, modify, draw_uuid,
  slug_taken, tenant_not_found, session_duration_out_of_range,
}
use medusa_multi_tenancy.AuditLog.{record_event}
use medusa_multi_tenancy.Billing.Lifecycle.{ensure_tenant_billing}
use medusa_multi_tenancy.TenantManagement.Lifecycle.{retention_days, actor_or_system}

-- `where({ slug })`
abbrev pub has_slug : String → Tenant → Bool
has_slug slug t = str_eq t.slug slug

-- `where({ tenant_id })`
abbrev pub is_tenant : String → Tenant → Bool
is_tenant tenant_id t = str_eq t.tenant_id tenant_id

abbrev pub default_settings : Settings
default_settings = record {
  base = record {
    locale = "en-US";
    timezone = "UTC";
    currency_code = "usd";
    billing_mode = "preserve_on_suspension";
    retention_days = retention_days;
  };
  access_control = none;
}

-- the row that `createTenant` inserts
abbrev pub new_tenant : String → String → String → String → ℕ → Tenant
new_tenant id name slug owner_email now = record {
  id = id;
  tenant_id = id;
  slug = slug;
  name = name;
  owner_email = owner_email;
  status = active;
  settings_json = default_settings;
  legal_hold = false;
  suspended_at = none;
  deactivated_at = none;
  deletion_requested_at = none;
  scheduled_purge_at = none;
  deleted_at = none;
  created_at = now;
  updated_at = now;
}

abbrev pub owner_membership : String → String → String → ℕ → Membership
owner_membership id tenant_id email now = record {
  id = id;
  tenant_id = tenant_id;
  user_email = email;
  role = owner;
  status = enabled;
  created_at = now;
  updated_at = now;
}

abbrev pub is_active : TenantStatus → Bool
is_active active = true
is_active _ = false

-- A session duration is given, and lies out of range.
abbrev pub is_out_of_range : Option ℕ → Bool
is_out_of_range none = false
is_out_of_range (some minutes) = ltb minutes 15 || ltb 43200 minutes

-- `Array.from(new Set(list.map((entry) => entry.trim()).filter(Boolean)))`
unfoldable pub normalize_ip_allowlist : List String → List String
unfolding unique
normalize_ip_allowlist entries = unique (filter is_truthy (map trim entries))

-- `TenantIdentityProviderInput`
pub record IdentityProviderInput : Type 0 where
  pub protocol : Protocol
  pub provider_name : String
  pub sign_in_url : Option String
  pub issuer : Option String
  pub metadata_url : Option String
  pub client_id : Option String
  pub domain_hint : Option String
  pub x509_certificate : Option String
  pub scim_enabled : Option Bool
  pub scim_base_url : Option String
  pub scim_auth_mode : Option ScimAuthMode

-- `value?.trim() || null`
abbrev pub trim_or_null : Option String → Option String
trim_or_null none = none
trim_or_null (some s) = or_null (trim s)

unfoldable pub normalize_identity_provider : IdentityProviderInput → IdentityProvider
normalize_identity_provider p = record {
  protocol = p.protocol;
  provider_name = trim p.provider_name;
  sign_in_url = trim_or_null p.sign_in_url;
  issuer = trim_or_null p.issuer;
  metadata_url = trim_or_null p.metadata_url;
  client_id = trim_or_null p.client_id;
  domain_hint = trim_or_null p.domain_hint;
  x509_certificate = trim_or_null p.x509_certificate;
  scim_enabled = or_default p.scim_enabled false;
  scim_base_url = trim_or_null p.scim_base_url;
  scim_auth_mode = p.scim_auth_mode;
}

-- `TenantAccessConfigurationInput`, its session policy spread out
pub record AccessConfigurationInput : Type 0 where
  pub sso_required_for_admins : Option Bool
  pub identity_providers : Option (List IdentityProviderInput)
  pub max_session_duration_minutes : Option ℕ
  pub mfa_enforced : Option Bool
  pub ip_allowlist : Option (List String)

-- the `accessControl` that is stored
unfoldable pub access_control_of : AccessConfigurationInput → ℕ → AccessControl
unfolding normalize_ip_allowlist normalize_identity_provider
access_control_of config now = record {
  sso_required_for_admins = or_default config.sso_required_for_admins false;
  identity_providers = map normalize_identity_provider (or_default config.identity_providers []);
  session_policy = record {
    max_session_duration_minutes = or_default config.max_session_duration_minutes 480;
    mfa_enforced = or_default config.mfa_enforced false;
    ip_allowlist = normalize_ip_allowlist (or_default config.ip_allowlist []);
  };
  updated_at = now;
}

-- what `getTenantAccessConfiguration` shows where nothing is stored
abbrev pub default_access_control : ℕ → AccessControl
default_access_control updated_at = record {
  sso_required_for_admins = false;
  identity_providers = [];
  session_policy = record {
    max_session_duration_minutes = 480;
    mfa_enforced = false;
    ip_allowlist = [];
  };
  updated_at = updated_at;
}

module _ (env : Env) where
  unfoldable pub retrieve_tenant : String → Exec env (Option Tenant)
  retrieve_tenant tenant_id = gets λ w. first env.sql (is_tenant tenant_id) w.tenants

  abbrev pub status_of : Option Tenant → Option TenantStatus
  status_of none = none
  status_of (some t) = some t.status

  unfoldable pub get_tenant_status : String → Exec env (Option TenantStatus)
  get_tenant_status tenant_id = gets λ w. status_of (first env.sql (is_tenant tenant_id) w.tenants)

  unfoldable pub create_tenant : String → String → String → Exec env Tenant
  create_tenant name slug owner_email = do
    existing ← gets (λ w. first env.sql (has_slug slug) w.tenants)
    throw_if (is_some existing) (slug_taken slug)
    tenant_id ← draw_uuid
    modify λ w. record w {
      tenants = env.sql.insert (new_tenant tenant_id name slug owner_email w.now) w.tenants;
    }
    membership_id ← draw_uuid
    modify λ w. record w {
      memberships =
          env.sql.insert (owner_membership membership_id tenant_id owner_email w.now) w.memberships;
    }
    ensure_tenant_billing env tenant_id
    now ← gets (λ w. w.now)
    pure (new_tenant tenant_id name slug owner_email now)

  -- The active memberships of an address in active tenants, whose `tenant_id` is a unique key. The
  -- order of the rows is not modelled.
  abbrev pub active_memberships : String → World env → List Membership
  active_memberships user_email w =
      filter
        (λ m.
          is_some (first env.sql (λ t. is_tenant m.tenant_id t && is_active t.status) w.tenants))
        (env.sql.select
          (λ m. str_eq m.user_email (normalize_email user_email) && is_enabled m.status)
          w.memberships)

  unfoldable pub list_active_memberships_by_email : String → Exec env (List Membership)
  list_active_memberships_by_email user_email = gets (active_memberships user_email)

  unfoldable pub get_tenant_access_configuration : String → Exec env AccessControl
  unfolding retrieve_tenant
  get_tenant_access_configuration tenant_id = do
    found ← retrieve_tenant tenant_id
    tenant ← or_throw found tenant_not_found
    pure (or_default tenant.settings_json.access_control (default_access_control tenant.updated_at))

  unfoldable pub update_tenant_access_configuration :
      String → Option String → AccessConfigurationInput → Exec env AccessControl
  unfolding retrieve_tenant access_control_of
  update_tenant_access_configuration tenant_id actor config = do
    found ← retrieve_tenant tenant_id
    tenant ← or_throw found tenant_not_found
    throw_if (is_out_of_range config.max_session_duration_minutes) session_duration_out_of_range
    now ← gets (λ w. w.now)
    let control = access_control_of config now
    modify λ w. record w {
      tenants =
          env.sql.update (is_tenant tenant_id)
            (λ t. record t {
              settings_json = record {
                base = tenant.settings_json.base;
                access_control = some control;
              };
              updated_at = w.now;
            })
            w.tenants;
    }
    record_event env (actor_or_system actor) tenant_id "tenant_access_policy_updated" tenant_id (
        ("sso_required_for_admins", PayloadValue.flag control.sso_required_for_admins)
        ∷ ("idp_count", PayloadValue.number (length control.identity_providers))
        ∷ (
          "scim_enabled_provider_count",
          PayloadValue.number (count (λ p. p.scim_enabled) control.identity_providers),
        )
        ∷ ("mfa_enforced", PayloadValue.flag control.session_policy.mfa_enforced)
        ∷ (
          "max_session_duration_minutes",
          PayloadValue.number control.session_policy.max_session_duration_minutes,
        )
        ∷ ("ip_allowlist_count", PayloadValue.number (length control.session_policy.ip_allowlist))
        ∷ [])
    pure control
