-- ===== src/World.antt =====
-- The state that the services share, and how a service method runs on it.
--
-- A method is an action on `World`: it returns the new state beside its result, and beside an
-- error too, since what was written before a `throw` stays written. `randomUUID()` draws the next
-- of a stream of identifiers, and `randomBytes` and `fetch` are streams too; the clock stands still while a method runs. Failures of
-- the database are not modelled, but for the refusals that a method names.
pub mod Runs
use medusa_multi_tenancy.Prelude.{
  ℕ, suc, Bool, String, Option, none, some, List, ◌∷◌, if◌then◌else◌,
}
use medusa_multi_tenancy.Sql.{Sql}
use medusa_multi_tenancy.Schema.{
  Tenant, Membership, Invitation, AuditEntry, BillingAccount, Entitlement, UsageRow, MeterEvent,
  AppInstallation, AppScope, AppWebhook, AppCredential, AppWebhookDeliveryLog, TenantUserAccess,
  ThemeMetadata, ThemeConfig, ThemePublishStatus, TenantStatus,
}

-- A field of an audit payload.
pub data PayloadValue : Type 0 where
  null : PayloadValue
  text : String → PayloadValue
  number : ℕ → PayloadValue
  flag : Bool → PayloadValue

abbrev pub Payload : Type 0
Payload = List (String × PayloadValue)

-- The `POST` of an event to a webhook: what `fetch` is called with.
pub record WebhookRequest : Type 0 where
  pub target_url : String
  pub app_id : String
  pub app_key : String
  pub app_signature : String
  pub tenant_id : String
  pub body : String

-- What `fetch` comes to: a response with its status, or an error with its message.
pub data FetchOutcome : Type 0 where
  responded : ℕ → FetchOutcome
  rejected : Option String → FetchOutcome

-- What the services take from outside: the database, the identifiers that `randomUUID` returns
-- one after another, the SHA-256 digest of a payload's JSON, the hexadecimal texts of the draws of
-- `randomBytes` (each with its number of bytes), the hexadecimal HMAC of a payload under a secret,
-- whether the column `invitation_token` takes a text (any text, where it is made as the model declares
-- it; UUIDs alone, where the migration makes it), and what the calls of `fetch` come to one after
-- another.
pub record Env : Type 1 where
  pub sql : Sql
  pub random_uuid : ℕ → String
  pub payload_digest : Payload → String
  pub random_bytes : ℕ → ℕ → String
  pub takes_token : String → Bool
  pub hmac : String → String → String
  pub fetch : ℕ → WebhookRequest → FetchOutcome

pub record World (env : Env) : Type 0 where
  pub tenants : env.sql.Table Tenant
  pub memberships : env.sql.Table Membership
  pub invitations : env.sql.Table Invitation
  pub audit_log : env.sql.Table AuditEntry
  pub billing_accounts : env.sql.Table BillingAccount
  pub entitlements : env.sql.Table Entitlement
  pub usage : env.sql.Table UsageRow
  pub meter_events : env.sql.Table MeterEvent
  pub app_installations : env.sql.Table AppInstallation
  pub app_scopes : env.sql.Table AppScope
  pub app_webhooks : env.sql.Table AppWebhook
  pub app_credentials : env.sql.Table AppCredential
  pub webhook_deliveries : env.sql.Table AppWebhookDeliveryLog
  pub user_access : env.sql.Table TenantUserAccess
  pub themes : env.sql.Table ThemeMetadata
  pub theme_configs : env.sql.Table ThemeConfig
  pub theme_publish_statuses : env.sql.Table ThemePublishStatus
  pub drawn : ℕ  -- how many identifiers have been drawn
  pub random_drawn : ℕ  -- how many times `randomBytes` has been called
  pub fetched : ℕ  -- how many times `fetch` has been called
  pub now : ℕ  -- `Date.now()` and `NOW()`
  pub invalidated : List String  -- the calls of `invalidateTenantRuntimeState`, the last one first

-- The messages of the errors that the services throw.
pub data ServiceError : Type 0 where
  slug_taken : String → ServiceError
  invitation_not_found invitation_not_pending invitation_token_invalid : ServiceError
  invitation_expired : ServiceError
  member_not_found use_ownership_transfer last_owner_downgrade last_owner_removal : ServiceError
  not_an_owner target_not_found same_member : ServiceError
  tenant_not_found deletion_in_progress under_legal_hold : ServiceError
  session_duration_out_of_range : ServiceError
  billing_suspended metering_suspended : ServiceError
  feature_not_enabled meter_not_enabled : String → ServiceError
  plan_limit_reached : String → ℕ → ℕ → ServiceError
  app_already_installed : String → ServiceError
  no_store_found framework_error : ServiceError
  installed_app_not_found active_theme_not_found : ServiceError
  access_scope_violated : ServiceError  -- the database's, of `tenant_user_access_scope_check`
  theme_slug_taken : ServiceError  -- the database's, of `idx_theme_metadata_tenant_slug_unique`
  invitation_token_syntax : ServiceError  -- the database's, of the type of `invitation_token`
  access_record_unresolved user_email_required platform_admins_only : ServiceError
  active_tenant_not_persisted access_not_assigned tenant_scope_required : ServiceError
  tenant_access_blocked : Option TenantStatus → ServiceError

pub data Result (A : Type 0) : Type 0 where
  ok : A → Result A
  thrown : ServiceError → Result A

abbrev pub Exec : Env → Type 0 → Type 0
Exec env A = World env → Result A × World env

module _ {env : Env} {A : Type 0} where
  abbrev pub pure : A → Exec env A
  pure a w = (ok a, w)

  abbrev pub throw : ServiceError → Exec env A
  throw e w = (thrown e, w)

  -- a read of the state
  abbrev pub gets : (World env → A) → Exec env A
  gets f w = (ok (f w), w)

  -- `if (!value) throw`
  abbrev pub or_throw : Option A → ServiceError → Exec env A
  or_throw none e = throw e
  or_throw (some a) e = pure a

  -- A transaction that throws is rolled back; the identifiers that it drew stay drawn. (No
  -- transaction calls `randomBytes` or `fetch`.)
  abbrev pub transaction : Exec env A → Exec env A
  transaction m w =
      let (r, w') = m w in
      elim r [ ok a ↦ (ok a, w') | thrown e ↦ (thrown e, record w { drawn = w'.drawn }) ]

infixl 5 ◌>>=◌ ◌>>◌
abbrev pub ◌>>=◌ : {env : Env} {A B : Type 0} → Exec env A → (A → Exec env B) → Exec env B
◌>>=◌ m f w = let (r, w') = m w in elim r [ ok a ↦ f a w' | thrown e ↦ (thrown e, w') ]

abbrev pub ◌>>◌ : {env : Env} {A B : Type 0} → Exec env A → Exec env B → Exec env B
m >> k = m >>= λ _. k

module _ {env : Env} where
  -- `if (condition) throw`
  abbrev pub throw_if : Bool → ServiceError → Exec env Unit
  throw_if b e w = if b then (thrown e, w) else (ok tt, w)

  abbrev pub modify : (World env → World env) → Exec env Unit
  modify f w = (ok tt, f w)

  -- `randomUUID()`
  abbrev pub draw_uuid : Exec env String
  draw_uuid w = (ok (env.random_uuid w.drawn), record w { drawn = suc w.drawn })

  -- `randomBytes(n).toString('hex')`
  abbrev pub draw_bytes : ℕ → Exec env String
  draw_bytes n w =
      (ok (env.random_bytes w.random_drawn n), record w { random_drawn = suc w.random_drawn })

  -- `fetch(url, init)`
  abbrev pub fetch : WebhookRequest → Exec env FetchOutcome
  fetch request w = (ok (env.fetch w.fetched request), record w { fetched = suc w.fetched })

  -- `invalidateTenantRuntimeState(tenantId)`
  abbrev pub invalidate_tenant_runtime_state : String → Exec env Unit
  invalidate_tenant_runtime_state tenant_id w =
      (ok tt, record w { invalidated = tenant_id ∷ w.invalidated })
