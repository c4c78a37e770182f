-- ===== src/Billing/Lifecycle.antt =====
-- billing/service.ts: the billing account of a tenant and its states.
use medusa_multi_tenancy.Prelude.{
  ℕ, ◌+◌, ◌*◌, String, Bool, true, false, ◌&&◌, Option, none, some, List, [], ◌∷◌, if◌then◌else◌,
  str_eq, leb, or_default,
}
use medusa_multi_tenancy.Schema.{
  BillingStatus, trialing, past_due, grace_period, suspended, BillingAccount, Entitlement,
}
use medusa_multi_tenancy.Sql.Rows.{first}
use medusa_multi_tenancy.World.{
  Env, World, Exec, ◌>>=◌, ◌>>◌, pure, gets, modify, draw_uuid, transaction,
}
use medusa_multi_tenancy.Billing.Calendar.{day_ms, compute_period_start, compute_period_end}
use medusa_multi_tenancy.Billing.Plans.{PlanEntitlement, starter_plan, plan_or_default}

-- `where({ tenant_id })`
abbrev pub account_of : String → BillingAccount → Bool
account_of tenant_id a = str_eq a.tenant_id tenant_id

abbrev pub entitlement_of : String → Entitlement → Bool
entitlement_of tenant_id e = str_eq e.tenant_id tenant_id

abbrev pub grace_ms : ℕ
grace_ms = 3 * day_ms

-- the `updates` of `applyLifecycleTransitions`: the columns that it sets
pub record AccountUpdates : Type 0 where
  pub status : Option BillingStatus
  pub last_payment_failed_at : Option ℕ
  pub grace_ends_at : Option ℕ
  pub failed_payment_count : Option ℕ

-- `time && time <= now`
abbrev pub has_passed : ℕ → Option ℕ → Bool
has_passed now none = false
has_passed now (some time) = leb time now

abbrev pub is_trialing : BillingStatus → Bool
is_trialing trialing = true
is_trialing _ = false

abbrev pub owes_payment : BillingStatus → Bool
owes_payment past_due = true
owes_payment grace_period = true
owes_payment _ = false

-- The two tests of `applyLifecycleTransitions`, both on the account as it was read.
unfoldable pub lifecycle_updates : ℕ → BillingAccount → Option AccountUpdates
lifecycle_updates now account =
    let trial_over = is_trialing account.status && has_passed now account.trial_ends_at in
    let grace_over = owes_payment account.status && has_passed now account.grace_ends_at in
    if trial_over
    then some (record {
      status = if grace_over then some suspended else some past_due;
      last_payment_failed_at = some now;
      grace_ends_at = some (now + grace_ms);
      failed_payment_count = some (account.failed_payment_count + 1);
    })
    else if grace_over
    then some (record {
      status = some suspended;
      last_payment_failed_at = none;
      grace_ends_at = none;
      failed_payment_count = none;
    })
    else none

abbrev pub keep_or : {A : Type 0} → Option A → Option A → Option A
keep_or none old = old
keep_or (some a) old = some a

abbrev pub apply_updates : ℕ → AccountUpdates → BillingAccount → BillingAccount
apply_updates now u a = record a {
  status = or_default u.status a.status;
  last_payment_failed_at = keep_or u.last_payment_failed_at a.last_payment_failed_at;
  grace_ends_at = keep_or u.grace_ends_at a.grace_ends_at;
  failed_payment_count = or_default u.failed_payment_count a.failed_payment_count;
  updated_at = now;
}

module _ (env : Env) where
  insert_entitlements : String → List PlanEntitlement → Exec env Unit
  insert_entitlements tenant_id [] = pure tt
  insert_entitlements tenant_id (e ∷ es) = do
    id ← draw_uuid
    modify λ w. record w {
      entitlements =
          env.sql.insert
            (record {
              id = id;
              tenant_id = tenant_id;
              feature_key = e.feature_key;
              is_enabled = e.is_enabled;
              limit_value = e.limit_value;
              meter_key = e.meter_key;
              period = "monthly";
            })
            w.entitlements;
    }
    insert_entitlements tenant_id es

  sync_entitlements_for_plan : String → String → Exec env Unit
  unfolding insert_entitlements
  sync_entitlements_for_plan tenant_id plan_code = do
    modify λ w. record w { entitlements = env.sql.delete (entitlement_of tenant_id) w.entitlements }
    insert_entitlements tenant_id (plan_or_default plan_code).entitlements

  -- the account that `ensureTenantBilling` inserts
  abbrev pub new_account : String → String → World env → BillingAccount
  new_account id tenant_id w = record {
    id = id;
    tenant_id = tenant_id;
    plan_code = starter_plan.code;
    status = trialing;
    trial_starts_at = some w.now;
    trial_ends_at = some (w.now + starter_plan.trial_days * day_ms);
    current_period_start = compute_period_start w.now;
    current_period_end = compute_period_end w.now;
    grace_ends_at = none;
    last_payment_failed_at = none;
    failed_payment_count = 0;
    updated_at = w.now;
  }

  read_account : String → Exec env (Option BillingAccount)
  read_account tenant_id = gets λ w. first env.sql (account_of tenant_id) w.billing_accounts

  create_account : String → Exec env (Option BillingAccount)
  unfolding sync_entitlements_for_plan read_account
  create_account tenant_id = do
    transaction (do
      id ← draw_uuid
      modify λ w. record w {
        billing_accounts = env.sql.insert (new_account id tenant_id w) w.billing_accounts;
      }
      sync_entitlements_for_plan tenant_id starter_plan.code)
    read_account tenant_id

  unfoldable pub ensure_tenant_billing : String → Exec env (Option BillingAccount)
  unfolding read_account create_account
  ensure_tenant_billing tenant_id = do
    existing ← read_account tenant_id
    elim existing [ some a ↦ pure (some a) | none ↦ create_account tenant_id ]

  write_updates : String → Option AccountUpdates → Exec env Unit
  write_updates tenant_id none = pure tt
  write_updates tenant_id (some u) = modify λ w. record w {
    billing_accounts =
        env.sql.update (account_of tenant_id) (apply_updates w.now u) w.billing_accounts;
  }

  transition : String → Option BillingAccount → Exec env (Option BillingAccount)
  unfolding read_account write_updates lifecycle_updates
  transition tenant_id none = pure none
  transition tenant_id (some account) = do
    now ← gets (λ w. w.now)
    write_updates tenant_id (lifecycle_updates now account)
    read_account tenant_id

  unfoldable pub apply_lifecycle_transitions : String → Exec env (Option BillingAccount)
  unfolding ensure_tenant_billing read_account transition
  apply_lifecycle_transitions tenant_id = do
    ensure_tenant_billing tenant_id
    account ← read_account tenant_id
    transition tenant_id account
