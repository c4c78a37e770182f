-- ===== src/Billing/Payments.antt =====
-- billing/service.ts: `getBillingOverview`, `processRenewal`, `markPaymentFailed` and
-- `recordAdminBillingAction`.
use medusa_multi_tenancy.Prelude.{
  ◌+◌, String, ◌&&◌, Option, none, some, List, [], ◌∷◌, if◌then◌else◌, str_eq, ◌==◌,
}
use medusa_multi_tenancy.Schema.{
  BillingStatus, trialing, active, past_due, grace_period, suspended, BillingAccount, Entitlement,
  UsageRow,
}
use medusa_multi_tenancy.World.{Env, World, Exec, PayloadValue, ◌>>=◌, ◌>>◌, pure, gets, modify}
use medusa_multi_tenancy.AuditLog.{record_event}
use medusa_multi_tenancy.Prelude.Text.{is_truthy}
use medusa_multi_tenancy.Billing.Calendar.{compute_period_start, compute_period_end}
use medusa_multi_tenancy.Billing.Lifecycle.{
  account_of, entitlement_of, grace_ms, ensure_tenant_billing, apply_lifecycle_transitions,
}

module _ (env : Env) where
  -- The account with its entitlements and the usage of its period.
  unfoldable pub get_billing_overview :
      String → Exec env (Option (BillingAccount × List Entitlement × List UsageRow))
  get_billing_overview tenant_id = do
    account ← apply_lifecycle_transitions env tenant_id
    elim account [
      | none ↦ pure none
      | some a ↦ do
        entitlements ← gets (λ w. env.sql.select (entitlement_of tenant_id) w.entitlements)
        usage ← gets λ w.
            env.sql.select
              (λ (u : UsageRow).
                str_eq u.tenant_id tenant_id
                && u.period_start == a.current_period_start
                && u.period_end == a.current_period_end)
              w.usage
        pure (some (a, entitlements, usage))
    ]

  abbrev renewed : World env → BillingAccount → BillingAccount
  renewed w a = record a {
    status = active;
    current_period_start = compute_period_start w.now;
    current_period_end = compute_period_end w.now;
    grace_ends_at = none;
    last_payment_failed_at = none;
    updated_at = w.now;
  }

  unfoldable pub process_renewal :
      String → Exec env (Option (BillingAccount × List Entitlement × List UsageRow))
  process_renewal tenant_id = do
    ensure_tenant_billing env tenant_id
    modify λ w. record w {
      billing_accounts = env.sql.update (account_of tenant_id) (renewed w) w.billing_accounts;
    }
    get_billing_overview tenant_id

  abbrev payment_failed : World env → BillingAccount → BillingAccount
  payment_failed w a = record a {
    status = grace_period;
    last_payment_failed_at = some w.now;
    grace_ends_at = some (w.now + grace_ms);
    failed_payment_count = a.failed_payment_count + 1;
    updated_at = w.now;
  }

  unfoldable pub mark_payment_failed :
      String → Exec env (Option (BillingAccount × List Entitlement × List UsageRow))
  mark_payment_failed tenant_id = do
    ensure_tenant_billing env tenant_id
    modify λ w. record w {
      billing_accounts =
          env.sql.update (account_of tenant_id) (payment_failed w) w.billing_accounts;
    }
    get_billing_overview tenant_id

  -- `value || null` in the payload
  abbrev text_or_null : Option String → PayloadValue
  text_or_null none = PayloadValue.null
  text_or_null (some s) = if is_truthy s then PayloadValue.text s else PayloadValue.null

  abbrev pub billing_status_text : BillingStatus → String
  billing_status_text trialing = "trialing"
  billing_status_text active = "active"
  billing_status_text past_due = "past_due"
  billing_status_text grace_period = "grace_period"
  billing_status_text suspended = "suspended"

  abbrev status_or_null : Option BillingStatus → PayloadValue
  status_or_null none = PayloadValue.null
  status_or_null (some s) = PayloadValue.text (billing_status_text s)

  -- `recordEvent` reads an actor that is not given, or empty, as the system.
  unfoldable pub record_admin_billing_action :
      String
      → Option String
      → String
      → Option BillingStatus
      → Option BillingStatus
      → Option String
      → Exec env Unit
  record_admin_billing_action tenant_id actor action before_status after_status plan_code =
      record_event env actor tenant_id "billing_status_changed" tenant_id (
        ("billing_action", PayloadValue.text action)
        ∷ ("before_status", status_or_null before_status)
        ∷ ("after_status", status_or_null after_status)
        ∷ ("plan_code", text_or_null plan_code)
        ∷ [])
