-- ===== src/Tests/Meters.antt =====
-- Metering in a small database.
use medusa_multi_tenancy.Prelude.{◌≤◌, ◌⊎◌, refl, true, false, none, some, [], ◌∷◌, arith}
use medusa_multi_tenancy.Schema.{BillingAccount, BillingStatus, TenantStatus}
use medusa_multi_tenancy.World.{World}
use medusa_multi_tenancy.Billing.Metering.{record_metered_event}
use medusa_multi_tenancy.Billing.Recording.{
  HasUniqueUsage, NotMetered, Metered, record_metered_event_cases,
}
use medusa_multi_tenancy.Sql.Rows.{Replaces}
use medusa_multi_tenancy.Billing.Lifecycle.{apply_lifecycle_transitions}
use medusa_multi_tenancy.Billing.Transitions.{settled, transitions_settle}
use medusa_multi_tenancy.Tests.Fixtures.{env, office}

abbrev trial : BillingAccount
trial = record {
  id = "b2";
  tenant_id = "acme";
  plan_code = "starter";
  status = BillingStatus.trialing;
  trial_starts_at = some 0;
  trial_ends_at = some 400;
  current_period_start = 0;
  current_period_end = 1000;
  grace_ends_at = none;
  last_payment_failed_at = none;
  failed_payment_count = 0;
  updated_at = 0;
}

one_row : 1 ≤ 1
one_row = omega arith

abbrev trial_office : World env
trial_office = record (office TenantStatus.active false) { billing_accounts = trial ∷ [] }

transitions_settle_example :
    Replaces env.sql trial_office.billing_accounts
      (apply_lifecycle_transitions env "acme" trial_office).1.billing_accounts
      trial
      (settled 500 trial)
transitions_settle_example = transitions_settle env "acme" trial_office {a = trial} refl one_row

abbrev metered_office : World env
metered_office = record (office TenantStatus.active false) {
  billing_accounts =
      record {
        id = "b1";
        tenant_id = "acme";
        plan_code = "starter";
        status = BillingStatus.active;
        trial_starts_at = none;
        trial_ends_at = none;
        current_period_start = 0;
        current_period_end = 1000;
        grace_ends_at = none;
        last_payment_failed_at = none;
        failed_payment_count = 0;
        updated_at = 0;
      }
      ∷ [];
  entitlements =
      record {
        id = "e1";
        tenant_id = "acme";
        feature_key = "analytics.events";
        is_enabled = true;
        limit_value = some 10;
        meter_key = some "analytics.events";
        period = "monthly";
      }
      ∷ [];
  usage =
      record {
        id = "s1";
        tenant_id = "acme";
        meter_key = "analytics.events";
        period_start = 0;
        period_end = 1000;
        used_quantity = 7;
        updated_at = 0;
      }
      ∷ [];
}

metered_office-HasUniqueUsage : HasUniqueUsage env metered_office
metered_office-HasUniqueUsage = record { ids = λ id. ground arith; periods = λ t k a. ground arith }

record_metered_event_cases_example :
    NotMetered env "acme" "analytics.events"
      (some 3)
      none
      metered_office
      (record_metered_event env "acme" "analytics.events" (some 3) none metered_office)
    ⊎ Metered env "acme" "analytics.events"
        (some 3)
        none
        metered_office
        (record_metered_event env "acme" "analytics.events" (some 3) none metered_office)
record_metered_event_cases_example =
    record_metered_event_cases env "acme" "analytics.events" (some 3) none metered_office
      metered_office-HasUniqueUsage
