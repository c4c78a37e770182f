-- ===== src/Billing/Plans.antt =====
-- billing/plans.ts
use medusa_multi_tenancy.Prelude.{
  ℕ, String, Bool, true, Option, none, some, List, [], ◌∷◌, if◌then◌else◌, str_eq, or_default,
}

pub record PlanEntitlement : Type 0 where
  pub feature_key : String
  pub is_enabled : Bool
  pub limit_value : Option ℕ
  pub meter_key : Option String

-- `BillingPlanDefinition`
pub record BillingPlan : Type 0 where
  pub code : String
  pub trial_days : ℕ
  pub entitlements : List PlanEntitlement

abbrev pub default_billing_plan_code : String
default_billing_plan_code = "starter"

abbrev pub starter_plan : BillingPlan
starter_plan = record {
  code = "starter";
  trial_days = 14;
  entitlements =
      record {
        feature_key = "apps.installations";
        is_enabled = true;
        limit_value = some 5;
        meter_key = none;
      }
      ∷ record {
        feature_key = "analytics.events";
        is_enabled = true;
        limit_value = some 10000;
        meter_key = some "analytics.events";
      }
      ∷ [];
}

-- `BILLING_PLAN_DEFINITIONS[code]`
abbrev pub billing_plan_definitions : String → Option BillingPlan
billing_plan_definitions code = if str_eq code "starter" then some starter_plan else none

-- `BILLING_PLAN_DEFINITIONS[planCode] || BILLING_PLAN_DEFINITIONS[DEFAULT_BILLING_PLAN_CODE]`
abbrev pub plan_or_default : String → BillingPlan
plan_or_default code = or_default (billing_plan_definitions code) starter_plan
