-- ===== src/Schema.antt =====
-- The rows of the database: the models under src/modules/*/models, and the columns that the
-- migrations add. Times are milliseconds since 1970. A text column with a CHECK constraint is an
-- enumeration.
use medusa_multi_tenancy.Prelude.{ℕ, Bool, true, false, Option, String, List}

-- `TenantStatus` of tenant-management/lifecycle.ts
pub data TenantStatus : Type 0 where
  active suspended inactive pending_deletion deleted : TenantStatus

-- `TenantRole` of tenant-management/service.ts
pub data TenantRole : Type 0 where
  owner admin member viewer : TenantRole

abbrev pub same_role : TenantRole → TenantRole → Bool
same_role owner owner = true
same_role admin admin = true
same_role member member = true
same_role viewer viewer = true
same_role _ _ = false

pub data MemberStatus : Type 0 where
  enabled disabled : MemberStatus

-- `status = 'active'`
abbrev pub is_enabled : MemberStatus → Bool
is_enabled enabled = true
is_enabled disabled = false

pub data InvitationStatus : Type 0 where
  pending accepted revoked : InvitationStatus

abbrev pub is_pending : InvitationStatus → Bool
is_pending pending = true
is_pending _ = false

pub data Protocol : Type 0 where
  saml oidc : Protocol

pub data ScimAuthMode : Type 0 where
  bearer_token oauth2_client_credentials : ScimAuthMode

-- an entry of `identity_providers`, as it is stored
pub record IdentityProvider : Type 0 where
  pub protocol : Protocol
  pub provider_name : String
  pub sign_in_url : Option String
  pub issuer : Option String
  pub metadata_url : Option String
  pub client_id : Option String
  pub domain_hint : Option String
  pub x509_certificate : Option String
  pub scim_enabled : Bool
  pub scim_base_url : Option String
  pub scim_auth_mode : Option ScimAuthMode

pub record SessionPolicy : Type 0 where
  pub max_session_duration_minutes : ℕ
  pub mfa_enforced : Bool
  pub ip_allowlist : List String

pub record AccessControl : Type 0 where
  pub sso_required_for_admins : Bool
  pub identity_providers : List IdentityProvider
  pub session_policy : SessionPolicy
  pub updated_at : ℕ

-- the `settings_json` that `createTenant` writes, less `access_control`
pub record BaseSettings : Type 0 where
  pub locale : String
  pub timezone : String
  pub currency_code : String
  pub billing_mode : String
  pub retention_days : ℕ

pub record Settings : Type 0 where
  pub base : BaseSettings
  pub access_control : Option AccessControl

-- the table `tenant`
pub record Tenant : Type 0 where
  pub id : String
  pub tenant_id : String
  pub slug : String
  pub name : String
  pub owner_email : String
  pub status : TenantStatus
  pub settings_json : Settings
  pub legal_hold : Bool
  pub suspended_at : Option ℕ
  pub deactivated_at : Option ℕ
  pub deletion_requested_at : Option ℕ
  pub scheduled_purge_at : Option ℕ
  pub deleted_at : Option ℕ
  pub created_at : ℕ
  pub updated_at : ℕ

-- the table `tenant_membership`
pub record Membership : Type 0 where
  pub id : String
  pub tenant_id : String
  pub user_email : String
  pub role : TenantRole
  pub status : MemberStatus
  pub created_at : ℕ
  pub updated_at : ℕ

-- the table `tenant_invitation`
pub record Invitation : Type 0 where
  pub id : String
  pub tenant_id : String
  pub email : String
  pub role : TenantRole
  pub invitation_token : String
  pub status : InvitationStatus
  pub invited_by : Option String
  pub accepted_at : Option ℕ
  pub expires_at : ℕ
  pub updated_at : ℕ

-- the table `audit_log`
pub record AuditEntry : Type 0 where
  pub id : String
  pub actor : String
  pub tenant_id : String
  pub action : String
  pub resource_id : String
  pub payload_hash : String
  pub event_timestamp : ℕ

-- `TenantBillingStatus` of billing/service.ts
pub data BillingStatus : Type 0 where
  trialing active past_due grace_period suspended : BillingStatus

-- the table `tenant_billing_account`
pub record BillingAccount : Type 0 where
  pub id : String
  pub tenant_id : String
  pub plan_code : String
  pub status : BillingStatus
  pub trial_starts_at : Option ℕ
  pub trial_ends_at : Option ℕ
  pub current_period_start : ℕ
  pub current_period_end : ℕ
  pub grace_ends_at : Option ℕ
  pub last_payment_failed_at : Option ℕ
  pub failed_payment_count : ℕ
  pub updated_at : ℕ

-- the table `tenant_billing_entitlement`
pub record Entitlement : Type 0 where
  pub id : String
  pub tenant_id : String
  pub feature_key : String
  pub is_enabled : Bool
  pub limit_value : Option ℕ
  pub meter_key : Option String
  pub period : String

-- the table `tenant_billing_usage`
pub record UsageRow : Type 0 where
  pub id : String
  pub tenant_id : String
  pub meter_key : String
  pub period_start : ℕ
  pub period_end : ℕ
  pub used_quantity : ℕ
  pub updated_at : ℕ

-- the table `tenant_billing_meter_event`
pub record MeterEvent : Type 0 where
  pub id : String
  pub tenant_id : String
  pub meter_key : String
  pub quantity : ℕ
  pub metadata_json : Option String
  pub occurred_at : ℕ

pub data InstallationStatus : Type 0 where
  installed uninstalled : InstallationStatus

-- `status = 'installed'`
abbrev pub is_installed : InstallationStatus → Bool
is_installed installed = true
is_installed uninstalled = false

-- the table `app_installation`
pub record AppInstallation : Type 0 where
  pub id : String
  pub tenant_id : String
  pub app_name : String
  pub app_identifier : String
  pub app_url : Option String
  pub status : InstallationStatus
  pub installed_at : ℕ
  pub uninstalled_at : Option ℕ
  pub updated_at : ℕ

-- the table `app_scope`
pub record AppScope : Type 0 where
  pub id : String
  pub tenant_id : String
  pub app_id : String
  pub scope : String

-- the table `app_webhook`
pub record AppWebhook : Type 0 where
  pub id : String
  pub tenant_id : String
  pub app_id : String
  pub event_name : String
  pub target_url : String
  pub is_active : Bool

-- the table `app_credential`
pub record AppCredential : Type 0 where
  pub id : String
  pub tenant_id : String
  pub app_id : String
  pub key_id : String
  pub secret : String
  pub is_active : Bool
  pub rotated_at : Option ℕ
  pub created_at : ℕ
  pub updated_at : ℕ

pub data DeliveryStatus : Type 0 where
  delivered failed dead_letter : DeliveryStatus

-- the table `app_webhook_delivery_log`
pub record AppWebhookDeliveryLog : Type 0 where
  pub id : String
  pub tenant_id : String
  pub app_id : String
  pub event_name : String
  pub target_url : String
  pub delivery_status : DeliveryStatus
  pub attempt_number : ℕ
  pub response_status : Option ℕ
  pub error_message : Option String
  pub delivered_at : ℕ

-- `TenantAccessRole` of api/admin/_shared/tenant-user-access.ts
pub data TenantAccessRole : Type 0 where
  platform_admin tenant_admin : TenantAccessRole

-- the table `tenant_user_access`
pub record TenantUserAccess : Type 0 where
  pub id : String
  pub user_id : Option String
  pub user_email : String
  pub tenant_id : Option String
  pub role : TenantAccessRole
  pub is_platform_admin : Bool
  pub active_tenant_id : Option String
  pub is_auto_provisioned : Bool
  pub updated_at : ℕ

-- the table `theme_metadata`
pub record ThemeMetadata : Type 0 where
  pub id : String
  pub tenant_id : String
  pub name : String
  pub slug : String
  pub version : String
  pub author : Option String
  pub description : Option String
  pub is_active : Bool
  pub created_at : ℕ
  pub updated_at : ℕ

-- the table `theme_config`; the settings are JSON that nothing reads into
pub record ThemeConfig : Type 0 where
  pub id : String
  pub tenant_id : String
  pub theme_id : String
  pub config_json : String
  pub updated_at : ℕ

pub data PublishStatus : Type 0 where
  published unpublished : PublishStatus

-- the table `theme_publish_status`
pub record ThemePublishStatus : Type 0 where
  pub id : String
  pub tenant_id : String
  pub theme_id : String
  pub status : PublishStatus
  pub published_at : Option ℕ
  pub unpublished_at : Option ℕ
  pub updated_at : ℕ
