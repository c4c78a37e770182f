-- ===== src/Billing/Recording.antt =====
-- Every outcome of `recordMeteredEvent`.
use medusa_multi_tenancy.Prelude.{
  ℕ, ◌+◌, ◌≤◌, ◌≡◌, refl, ap, ◌∙◌, ◌⊎◌, String, Bool, true, false, not, ◌&&◌, Option, none, some,
  arith, str_eq, eq_refl, Bool-cases, Option-cases, inl, inr,
}
use medusa_multi_tenancy.Schema.{BillingAccount, Entitlement, UsageRow}
use medusa_multi_tenancy.Sql.Rows.{rows, first}
use medusa_multi_tenancy.World.{
  Env, World, Exec, Result, ServiceError, ok, thrown, metering_suspended, meter_not_enabled,
  transaction, plan_limit_reached,
}
use medusa_multi_tenancy.Billing.Metering.{
  is_suspended, has_meter, used_of, exceeds, usage_in, meter, write_metered, quantity_or_one,
  record_metered_event,
}
use medusa_multi_tenancy.Billing.Usage.{
  account_then, state_then, transitions_return, transitions_keep_usage, limit_throws, passes, event,
  raised, begun, same, Spent, raised-Spent, begun-Spent,
}

abbrev pub is_open : Option BillingAccount → Bool
is_open none = false
is_open (some a) = not (is_suspended a.status)

abbrev pub is_on : Option Entitlement → Bool
is_on none = false
is_on (some x) = x.is_enabled

module _ (env : Env) where
  -- The keys of `tenant_billing_usage`: its ids, and the tenant, the meter and the period.
  pub record HasUniqueUsage (w : World env) : Type 0 where
    pub ids : (id : String) → rows env.sql (λ (r : UsageRow). str_eq r.id id) w.usage ≤ 1
    pub periods : (t k : String) (a : BillingAccount) → rows env.sql (usage_in t k a) w.usage ≤ 1

module _ {env : Env} (m : Exec env Unit) {s : World env} where
  rolled_back : {e : ServiceError} → m s ≡ (thrown e, s) → transaction m s ≡ (thrown e, s)
  rolled_back h = rw (transaction, ap (λ p. p.0) h, ap (λ p. p.1.drawn) h) refl

  committed : {s' : World env} → m s ≡ (ok tt, s') → transaction m s ≡ (ok tt, s')
  committed h = rw (transaction, ap (λ p. p.0) h, ap (λ p. p.1) h) refl

module _ (env : Env) (tenant_id meter_key : String) (quantity : Option ℕ) (metadata : Option String)
    (w : World env) where
  -- `where({ tenant_id, meter_key })` on the entitlements
  abbrev pub meter_entitlement : Option Entitlement
  meter_entitlement =
      first env.sql
        (λ (e : Entitlement). str_eq e.tenant_id tenant_id && has_meter e.meter_key meter_key)
        (state_then env tenant_id w).entitlements

  -- What the period of the account has used with the event.
  abbrev pub total : BillingAccount → ℕ
  total a =
      used_of (first env.sql (usage_in tenant_id meter_key a) w.usage) + quantity_or_one quantity

  -- Why a call is refused.
  abbrev pub Blocked : ServiceError → Type 0
  Blocked metering_suspended = is_open (account_then env tenant_id w) ≡ false
  Blocked (meter_not_enabled _) = is_on meter_entitlement ≡ false
  Blocked (plan_limit_reached _ _ _) =
      (a : BillingAccount) × (x : Entitlement) × (account_then env tenant_id w ≡ some a)
      × (meter_entitlement ≡ some x)
      × (exceeds x.limit_value (total a) ≡ true)
  Blocked _ = ⊥

  -- A refused call leaves the usage and the events as they were.
  abbrev pub NotMetered : Result Unit × World env → Type 0
  NotMetered (r, w') =
      (e : ServiceError) × (r ≡ thrown e)
      × (w'.usage ≡ w.usage)
      × (w'.meter_events ≡ w.meter_events)
      × Blocked e

  -- The period's usage is the total, within the limit, and there is one more event.
  abbrev pub Metered : Result Unit × World env → Type 0
  Metered (r, w') =
      (a : BillingAccount) × (x : Entitlement) × (r ≡ ok tt)
      × (account_then env tenant_id w ≡ some a)
      × (is_suspended a.status ≡ false)
      × (meter_entitlement ≡ some x)
      × (x.is_enabled ≡ true)
      × (exceeds x.limit_value (total a) ≡ false)
      × Spent env tenant_id meter_key a (total a) w'.usage
      × (n : ℕ) × (w'.meter_events
          ≡ env.sql.insert
              (event env tenant_id meter_key (quantity_or_one quantity) metadata a
                (state_then env tenant_id w) n)
              w.meter_events)

  abbrev call : Result Unit × World env
  call = record_metered_event env tenant_id meter_key quantity metadata w

  refusal :
      {e : ServiceError}
      → call ≡ (thrown e, state_then env tenant_id w)
      → Blocked e
      → NotMetered call
  refusal {e} h b =
      let (u, v) = transitions_keep_usage env tenant_id w in
      (e, ap (λ p. p.0) h, ap (λ p. p.1.usage) h ∙ u, ap (λ p. p.1.meter_events) h ∙ v, b)

  missing_refuses :
      account_then env tenant_id w ≡ none
      → call ≡ (thrown metering_suspended, state_then env tenant_id w)
  unfolding record_metered_event
  missing_refuses h = ground (arith, transitions_return env tenant_id w)

  module _ {a : BillingAccount} (ha : account_then env tenant_id w ≡ some a) where
    suspended_refuses :
        is_suspended a.status ≡ true
        → call ≡ (thrown metering_suspended, state_then env tenant_id w)
    unfolding record_metered_event
    suspended_refuses h = ground (arith, transitions_return env tenant_id w)

    module _ (runs : is_suspended a.status ≡ false) where
      unknown_refuses :
          meter_entitlement ≡ none
          → call ≡ (thrown (meter_not_enabled meter_key), state_then env tenant_id w)
      unfolding record_metered_event
      unknown_refuses h = ground (arith, transitions_return env tenant_id w)

      module _ {x : Entitlement} (hx : meter_entitlement ≡ some x) where
        disabled_refuses :
            x.is_enabled ≡ false
            → call ≡ (thrown (meter_not_enabled meter_key), state_then env tenant_id w)
        unfolding record_metered_event
        disabled_refuses h = ground (arith, transitions_return env tenant_id w)

        module _ (on : x.is_enabled ≡ true) where
          reaches_meter :
              call
              ≡ transaction
                  (meter env tenant_id meter_key (quantity_or_one quantity) metadata a x)
                  (state_then env tenant_id w)
          unfolding record_metered_event
          reaches_meter = ground (arith, transitions_return env tenant_id w)

          stopped : exceeds x.limit_value (total a) ≡ true → NotMetered call
          stopped h =
              refusal
                (reaches_meter
                  ∙ rolled_back
                      (meter env tenant_id meter_key (quantity_or_one quantity) metadata a x)
                      (limit_throws env tenant_id meter_key (quantity_or_one quantity) metadata a x
                        (state_then env tenant_id w)
                        (rw (transitions_keep_usage env tenant_id w).0 h)))
                (a, x, ha, hx, h)

          module _ (u : HasUniqueUsage env w) (h : exceeds x.limit_value (total a) ≡ false) where
            written :
                {o : Option UsageRow} {s' : World env}
                → first env.sql (usage_in tenant_id meter_key a) w.usage ≡ o
                → write_metered env tenant_id meter_key
                    (quantity_or_one quantity)
                    metadata
                    a
                    o
                    (state_then env tenant_id w)
                  ≡ (ok tt, s')
                → call ≡ (ok tt, s')
            written {o} found writes =
                reaches_meter
                ∙ committed (meter env tenant_id meter_key (quantity_or_one quantity) metadata a x)
                    {s = state_then env tenant_id w}
                    (passes env tenant_id meter_key (quantity_or_one quantity) metadata a x
                        (state_then env tenant_id w)
                        (rw (transitions_keep_usage env tenant_id w).0 h)
                      ∙ ap
                          (λ o.
                            write_metered env tenant_id meter_key (quantity_or_one quantity)
                              metadata a o (state_then env tenant_id w))
                          (ap (first env.sql (usage_in tenant_id meter_key a))
                              (transitions_keep_usage env tenant_id w).0
                            ∙ found)
                      ∙ writes)

            built :
                {s' : World env}
                → call ≡ (ok tt, s')
                → Spent env tenant_id meter_key a (total a) s'.usage
                → (n : ℕ)
                → s'.meter_events
                  ≡ env.sql.insert
                      (event env tenant_id meter_key
                        (quantity_or_one quantity)
                        metadata
                        a
                        (state_then env tenant_id w)
                        n)
                      (state_then env tenant_id w).meter_events
                → Metered call
            built c spent n e = (
              a,
              x,
              ap (λ p. p.0) c,
              ha,
              runs,
              hx,
              on,
              h,
              rw (ap (λ p. p.1.usage) c) spent,
              n,
              ap (λ p. p.1.meter_events) c
                  ∙ e
                  ∙ ap
                      (env.sql.insert (
                        event env tenant_id meter_key (quantity_or_one quantity) metadata a
                          (state_then env tenant_id w) n))
                      (transitions_keep_usage env tenant_id w).1,
            )

            metered : Metered call
            metered = elim (Option-cases (first env.sql (usage_in tenant_id meter_key a) w.usage)) [
              | inl absent ↦
                  let (done, new, one_more) =
                    begun env tenant_id meter_key (quantity_or_one quantity) metadata a
                      (state_then env tenant_id w) in
                  built
                    (written absent (
                      ap
                        (λ r. (
                          r,
                          (write_metered env tenant_id meter_key (quantity_or_one quantity) metadata
                              a none (state_then env tenant_id w)).1,
                        ))
                        done))
                    (rw (new, (transitions_keep_usage env tenant_id w).0)
                      (begun-Spent env tenant_id meter_key a w.usage
                        (u.periods tenant_id meter_key a) (total a) 0 _ absent
                        (ground (
                          arith,
                          eq_refl tenant_id,
                          eq_refl meter_key,
                          same a.current_period_start,
                          same a.current_period_end,
                        ))
                        (rw absent (ground (arith, same (quantity_or_one quantity))))))
                    _ one_more
              | inr (row, found) ↦
                  let (done, new, one_more) =
                    raised env tenant_id meter_key (quantity_or_one quantity) metadata a
                      (state_then env tenant_id w) row in
                  built
                    (written found (
                      ap
                        (λ r. (
                          r,
                          (write_metered env tenant_id meter_key (quantity_or_one quantity) metadata
                              a (some row) (state_then env tenant_id w)).1,
                        ))
                        done))
                    (rw (new, (transitions_keep_usage env tenant_id w).0, found)
                      (raised-Spent env tenant_id meter_key a w.usage
                        (u.periods tenant_id meter_key a)
                        (row.used_quantity + quantity_or_one quantity) _ found (u.ids row.id)))
                    _ one_more
            ]

  -- Where the keys of the usage table hold, a metered event is either refused, which leaves the usage
  -- and the events as they were, because no account is open, the meter is not enabled, or the limit is
  -- passed; or recorded: the account is not suspended, the entitlement enabled, the period then has
  -- one usage row, which has grown by the quantity and is within the limit, and there is one more event.
  pub record_metered_event_cases : HasUniqueUsage env w → NotMetered call ⊎ Metered call
  record_metered_event_cases u = elim (Option-cases (account_then env tenant_id w)) [
    | inl absent ↦ inl (refusal (missing_refuses absent) (ap is_open absent))
    | inr (a, ha) ↦ elim (Bool-cases (is_suspended a.status)) [
      | inl stopped ↦ inl (refusal (suspended_refuses ha stopped) (ap is_open ha ∙ ap not stopped))
      | inr runs ↦ elim (Option-cases meter_entitlement) [
        | inl unknown ↦ inl (refusal (unknown_refuses ha runs unknown) (ap is_on unknown))
        | inr (x, hx) ↦ elim (Bool-cases x.is_enabled) [
          | inr off ↦ inl (refusal (disabled_refuses ha runs hx off) (ap is_on hx ∙ off))
          | inl on ↦ elim (Bool-cases (exceeds x.limit_value (total a))) [
            | inl beyond ↦ inl (stopped ha runs hx on beyond)
            | inr within ↦ inr (metered ha runs hx on u within)
          ]
        ]
      ]
    ]
  ]
