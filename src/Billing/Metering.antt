-- ===== src/Billing/Metering.antt =====
-- billing/service.ts: `assertEntitlement` and `recordMeteredEvent`.
use medusa_multi_tenancy.Prelude.{
  ℕ, zero, suc, ◌+◌, String, Bool, true, false, not, ◌&&◌, Option, none, some, if◌then◌else◌,
  str_eq, ltb, ◌==◌,
}
use medusa_multi_tenancy.Schema.{
  BillingStatus, suspended, BillingAccount, Entitlement, UsageRow, AppInstallation, is_installed,
}
use medusa_multi_tenancy.Sql.Rows.{first, rows}
use medusa_multi_tenancy.World.{
  Env, World, Exec, ServiceError, ◌>>=◌, ◌>>◌, pure, throw, gets, throw_if, modify, draw_uuid,
  transaction, billing_suspended, metering_suspended, feature_not_enabled, meter_not_enabled,
  plan_limit_reached,
}
use medusa_multi_tenancy.Billing.Lifecycle.{apply_lifecycle_transitions}

-- `quantity && quantity > 0 ? quantity : 1`
abbrev pub quantity_or_one : Option ℕ → ℕ
quantity_or_one none = 1
quantity_or_one (some zero) = 1
quantity_or_one (some (suc n)) = suc n

abbrev pub is_suspended : BillingStatus → Bool
is_suspended suspended = true
is_suspended _ = false

abbrev pub has_meter : Option String → String → Bool
has_meter none key = false
has_meter (some meter) key = str_eq meter key

abbrev pub used_of : Option UsageRow → ℕ
used_of none = 0
used_of (some u) = u.used_quantity

-- `limitValue != null && used + quantity > limitValue`
abbrev pub exceeds : Option ℕ → ℕ → Bool
exceeds none total = false
exceeds (some limit) total = ltb limit total

abbrev pub limit_or_zero : Option ℕ → ℕ
limit_or_zero none = 0
limit_or_zero (some limit) = limit

-- `where({ tenant_id, meter_key, period_start, period_end })`
abbrev pub usage_in : String → String → BillingAccount → UsageRow → Bool
usage_in tenant_id meter_key account u =
    str_eq u.tenant_id tenant_id
    && str_eq u.meter_key meter_key
    && u.period_start == account.current_period_start
    && u.period_end == account.current_period_end

-- the result of `assertEntitlement`, which is always allowed
pub record Allowance : Type 0 where
  pub limit : Option ℕ
  pub used : Option ℕ

module _ (env : Env) where
  -- `!account || account.status === 'suspended'`
  require_account : Option BillingAccount → ServiceError → Exec env BillingAccount
  require_account none e = throw e
  require_account (some a) e = do throw_if (is_suspended a.status) e; pure a

  -- `!entitlement || !entitlement.is_enabled`
  require_enabled : Option Entitlement → ServiceError → Exec env Entitlement
  require_enabled none e = throw e
  require_enabled (some x) e = do throw_if (not x.is_enabled) e; pure x

  -- What the tenant has used of an entitlement: of its meter, or the apps that it has installed.
  used_quantity : String → String → BillingAccount → Option String → World env → ℕ
  used_quantity tenant_id feature_key account (some meter) w =
      used_of (first env.sql (usage_in tenant_id meter account) w.usage)
  used_quantity tenant_id feature_key account none w =
      if str_eq feature_key "apps.installations"
      then rows env.sql
          (λ (a : AppInstallation). str_eq a.tenant_id tenant_id && is_installed a.status)
          w.app_installations
      else 0

  check_limit : String → String → ℕ → BillingAccount → Entitlement → Exec env Allowance
  unfolding used_quantity
  check_limit tenant_id feature_key quantity account x = elim x.limit_value [
    | none ↦ pure (record { limit = none; used = none })
    | some limit ↦ do
      used ← gets (used_quantity tenant_id feature_key account x.meter_key)
      throw_if (ltb limit (used + quantity)) (plan_limit_reached feature_key used limit)
      pure (record { limit = some limit; used = some used })
  ]

  unfoldable pub assert_entitlement : String → String → Option ℕ → Exec env Allowance
  unfolding require_account require_enabled check_limit
  assert_entitlement tenant_id feature_key quantity = do
    found ← apply_lifecycle_transitions env tenant_id
    account ← require_account found billing_suspended
    entitlement ← gets λ w.
        first env.sql
          (λ (e : Entitlement). str_eq e.tenant_id tenant_id && str_eq e.feature_key feature_key)
          w.entitlements
    x ← require_enabled entitlement (feature_not_enabled feature_key)
    check_limit tenant_id feature_key (quantity_or_one quantity) account x

  -- The usage row of the period is raised, or begun.
  write_usage : String → String → BillingAccount → ℕ → Option UsageRow → Exec env Unit
  write_usage tenant_id meter_key account quantity (some u) = modify λ w. record w {
    usage =
        env.sql.update (λ (r : UsageRow). str_eq r.id u.id)
          (λ r. record r { used_quantity = u.used_quantity + quantity; updated_at = w.now })
          w.usage;
  }
  write_usage tenant_id meter_key account quantity none = do
    id ← draw_uuid
    modify λ w. record w {
      usage =
          env.sql.insert
            (record {
              id = id;
              tenant_id = tenant_id;
              meter_key = meter_key;
              period_start = account.current_period_start;
              period_end = account.current_period_end;
              used_quantity = quantity;
              updated_at = w.now;
            })
            w.usage;
    }

  -- The two writes of `recordMeteredEvent`.
  unfoldable pub write_metered :
      String → String → ℕ → Option String → BillingAccount → Option UsageRow → Exec env Unit
  unfolding write_usage
  write_metered tenant_id meter_key quantity metadata account usage_row = do
    write_usage tenant_id meter_key account quantity usage_row
    id ← draw_uuid
    modify λ w. record w {
      meter_events =
          env.sql.insert
            (record {
              id = id;
              tenant_id = tenant_id;
              meter_key = meter_key;
              quantity = quantity;
              metadata_json = metadata;
              occurred_at = w.now;
            })
            w.meter_events;
    }

  -- The transaction of `recordMeteredEvent`.
  unfoldable pub meter :
      String → String → ℕ → Option String → BillingAccount → Entitlement → Exec env Unit
  meter tenant_id meter_key quantity metadata account x = do
    usage_row ← gets (λ w. first env.sql (usage_in tenant_id meter_key account) w.usage)
    throw_if (exceeds x.limit_value (used_of usage_row + quantity))
        (plan_limit_reached meter_key (used_of usage_row) (limit_or_zero x.limit_value))
    write_metered tenant_id meter_key quantity metadata account usage_row

  unfoldable pub record_metered_event : String → String → Option ℕ → Option String → Exec env Unit
  unfolding require_account require_enabled
  record_metered_event tenant_id meter_key quantity metadata = do
    found ← apply_lifecycle_transitions env tenant_id
    account ← require_account found metering_suspended
    entitlement ← gets λ w.
        first env.sql
          (λ (e : Entitlement). str_eq e.tenant_id tenant_id && has_meter e.meter_key meter_key)
          w.entitlements
    x ← require_enabled entitlement (meter_not_enabled meter_key)
    transaction (meter tenant_id meter_key (quantity_or_one quantity) metadata account x)
