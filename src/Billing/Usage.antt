-- ===== src/Billing/Usage.antt =====
-- What `recordMeteredEvent` does to the usage and to the events of the meter.
use medusa_multi_tenancy.Prelude.{
  ℕ, suc, ◌+◌, ◌≤◌, ◌≡◌, refl, String, Bool, true, false, ◌&&◌, Option, none, some, arith, str_eq,
  eq_refl, ◌==◌,
}
use medusa_multi_tenancy.Schema.{BillingAccount, Entitlement, UsageRow, MeterEvent}
use medusa_multi_tenancy.Sql.Rows.{
  rows, first, first_meets, first_pos, first-none, rows_mono, rows_of_key, update-Replaces,
}
use medusa_multi_tenancy.World.{Env, World, Result, ok, thrown, transaction, plan_limit_reached}
use medusa_multi_tenancy.Billing.Lifecycle.{ensure_tenant_billing, apply_lifecycle_transitions}
use medusa_multi_tenancy.Billing.Metering.{
  used_of, exceeds, usage_in, meter, write_metered, limit_or_zero,
}

module _ (env : Env) (tenant_id : String) (w : World env) where
  -- The account as the transitions leave it, and the state after them.
  abbrev pub account_then : Option BillingAccount
  account_then = elim (apply_lifecycle_transitions env tenant_id w).0 [ ok a ↦ a | thrown e ↦ none ]

  abbrev pub state_then : World env
  state_then = (apply_lifecycle_transitions env tenant_id w).1

  pub transitions_return :
      apply_lifecycle_transitions env tenant_id w ≡ (ok account_then, state_then)
  unfolding apply_lifecycle_transitions ensure_tenant_billing
  transitions_return = ground arith

  pub transitions_keep_usage :
      (state_then.usage ≡ w.usage) × (state_then.meter_events ≡ w.meter_events)
  unfolding apply_lifecycle_transitions ensure_tenant_billing
  transitions_keep_usage = ground arith

module _ (env : Env) (tenant_id meter_key : String) (quantity : ℕ) (metadata : Option String)
    (a : BillingAccount) (x : Entitlement) (w : World env) where
  abbrev total_of : ℕ
  total_of = used_of (first env.sql (usage_in tenant_id meter_key a) w.usage) + quantity

  abbrev metered : Result Unit × World env
  metered = transaction (meter env tenant_id meter_key quantity metadata a x) w

  pub limit_throws :
      exceeds x.limit_value total_of ≡ true
      → meter env tenant_id meter_key quantity metadata a x w ≡ (
        thrown (
            plan_limit_reached meter_key
              (used_of (first env.sql (usage_in tenant_id meter_key a) w.usage))
              (limit_or_zero x.limit_value)),
        w,
      )
  unfolding meter
  limit_throws h = rw h refl

  pub passes :
      exceeds x.limit_value total_of ≡ false
      → meter env tenant_id meter_key quantity metadata a x w
        ≡ write_metered env tenant_id meter_key quantity metadata a
            (first env.sql (usage_in tenant_id meter_key a) w.usage)
            w
  unfolding meter
  passes h = rw h refl

-- What the two writes leave: one more event, and the usage row raised or begun.
module _ (env : Env) (tenant_id meter_key : String) (quantity : ℕ) (metadata : Option String)
    (a : BillingAccount) (w : World env) where
  abbrev pub event : ℕ → MeterEvent
  event drawn = record {
    id = env.random_uuid drawn;
    tenant_id = tenant_id;
    meter_key = meter_key;
    quantity = quantity;
    metadata_json = metadata;
    occurred_at = w.now;
  }

  pub raised :
      (u : UsageRow)
      → let p = write_metered env tenant_id meter_key quantity metadata a (some u) w in
        (p.0 ≡ ok tt)
        × (p.1.usage
            ≡ env.sql.update
                (λ (r : UsageRow). str_eq r.id u.id)
                (λ r. record r { used_quantity = u.used_quantity + quantity; updated_at = w.now })
                w.usage)
        × (p.1.meter_events ≡ env.sql.insert (event w.drawn) w.meter_events)
  unfolding write_metered
  raised u = (refl, refl, refl)

  pub begun :
      let p = write_metered env tenant_id meter_key quantity metadata a none w in
      (p.0 ≡ ok tt)
      × (p.1.usage
          ≡ env.sql.insert
              (record {
                id = env.random_uuid w.drawn;
                tenant_id = tenant_id;
                meter_key = meter_key;
                period_start = a.current_period_start;
                period_end = a.current_period_end;
                used_quantity = quantity;
                updated_at = w.now;
              })
              w.usage)
      × (p.1.meter_events ≡ env.sql.insert (event (suc w.drawn)) w.meter_events)
  unfolding write_metered
  begun = (refl, refl, refl)

pub same : (n : ℕ) → (n == n) ≡ true
same n = ground arith

module _ (env : Env) (tenant_id meter_key : String) (a : BillingAccount) where
  -- The period of the account has one usage row of the meter, with this quantity.
  abbrev pub Spent : ℕ → env.sql.Table UsageRow → Type 0
  Spent n usage =
      (rows env.sql (usage_in tenant_id meter_key a) usage ≡ 1)
      × (rows env.sql (λ u. usage_in tenant_id meter_key a u && u.used_quantity == n) usage ≡ 1)

  module _ (usage : env.sql.Table UsageRow)
      (one : rows env.sql (usage_in tenant_id meter_key a) usage ≤ 1) (n now : ℕ) where
    pub raised-Spent :
        {u : UsageRow}
        → first env.sql (usage_in tenant_id meter_key a) usage ≡ some u
        → rows env.sql (λ (r : UsageRow). str_eq r.id u.id) usage ≤ 1
        → Spent n (
            env.sql.update
              (λ (r : UsageRow). str_eq r.id u.id)
              (λ r. record r { used_quantity = n; updated_at = now })
              usage)
    raised-Spent {u} h id =
        let is_in = usage_in tenant_id meter_key a in
        let replaces =
          update-Replaces env.sql is_in (λ (r : UsageRow). str_eq r.id u.id)
            (λ r. record r { used_quantity = n; updated_at = now }) usage h (eq_refl u.id) id in
        let meets = first_meets env.sql is_in usage h in
        (
          ground (arith, replaces is_in, meets, first_pos env.sql is_in usage h),
          ground (
            arith,
            replaces (λ u. is_in u && u.used_quantity == n),
            meets,
            same n,
            rows_of_key env.sql is_in is_in (λ r. r.used_quantity == n) usage h meets one,
          ),
        )

    pub begun-Spent :
        (r : UsageRow)
        → first env.sql (usage_in tenant_id meter_key a) usage ≡ none
        → usage_in tenant_id meter_key a r ≡ true
        → (r.used_quantity == n) ≡ true
        → Spent n (env.sql.insert r usage)
    begun-Spent r h i e =
        let is_in = usage_in tenant_id meter_key a in
        (
          ground (arith, env.sql.rows-insert is_in r usage, first-none env.sql is_in usage h, i),
          ground (
            arith,
            env.sql.rows-insert (λ u. is_in u && u.used_quantity == n) r usage,
            first-none env.sql is_in usage h,
            i,
            e,
            rows_mono env.sql (λ u. is_in u && u.used_quantity == n) is_in usage
                (λ u. left (is_in u) (u.used_quantity == n)),
          ),
        )
      where
        left : (b c : Bool) → (b && c) ≡ true → b ≡ true
        left true c e = refl
        left false c e = e
