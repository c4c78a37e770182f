-- ===== src/Billing/Transitions.antt =====
-- The transitions of a billing account that are due at a time.
use medusa_multi_tenancy.Prelude.{
  ℕ, ◌+◌, if◌then◌else◌, ◌≤◌, ◌≡◌, inl, inr, refl, Bool, true, false, not, ◌&&◌, ◌||◌, Option, none,
  some, arith, leb, String, Option-cases,
}
use medusa_multi_tenancy.Schema.{
  BillingStatus, trialing, past_due, grace_period, suspended, BillingAccount,
}
use medusa_multi_tenancy.Sql.Rows.{rows, first, first_meets, Replaces, update-Replaces}
use medusa_multi_tenancy.World.{Env, World}
use medusa_multi_tenancy.Billing.Lifecycle.{
  account_of, ensure_tenant_billing, apply_lifecycle_transitions, AccountUpdates, lifecycle_updates,
  apply_updates, has_passed, is_trialing, owes_payment,
}

-- The account after the transitions that are due, status by status: the end of the trial makes it past
-- due with three days of grace, and the end of the grace suspends it.
abbrev pub end_trial : ℕ → BillingAccount → BillingAccount
end_trial now a = record a {
  status = past_due;
  last_payment_failed_at = some now;
  grace_ends_at = some (now + 259200000);
  failed_payment_count = a.failed_payment_count + 1;
  updated_at = now;
}

abbrev pub end_grace : ℕ → BillingAccount → BillingAccount
end_grace now a = record a { status = suspended; updated_at = now }

-- The change, from the time on, or never if there is no time.
abbrev pub from_on : ℕ → Option ℕ → BillingAccount → BillingAccount → BillingAccount
from_on now none changed a = a
from_on now (some time) changed a = if leb time now then changed else a

abbrev pub settle_from : ℕ → BillingStatus → BillingAccount → BillingAccount
settle_from now trialing a = from_on now a.trial_ends_at (end_trial now a) a
settle_from now past_due a = from_on now a.grace_ends_at (end_grace now a) a
settle_from now grace_period a = from_on now a.grace_ends_at (end_grace now a) a
settle_from now _ a = a

abbrev pub settled : ℕ → BillingAccount → BillingAccount
settled now a = settle_from now a.status a

-- what the code's updates make of the account
abbrev settle_by : ℕ → Option AccountUpdates → BillingAccount → BillingAccount
settle_by now none a = a
settle_by now (some u) a = apply_updates now u a

settle_by-settled :
    (now : ℕ) (a : BillingAccount) → settle_by now (lifecycle_updates now a) a ≡ settled now a
unfolding lifecycle_updates
settle_by-settled now a = ground arith

abbrev pub is_past_due : BillingStatus → Bool
is_past_due past_due = true
is_past_due _ = false

abbrev pub is_blocked : BillingStatus → Bool
is_blocked suspended = true
is_blocked _ = false

-- Transitions settle: once those that are due have been written, none is due at the same time.
pub settled_once : (now : ℕ) (a : BillingAccount) → lifecycle_updates now (settled now a) ≡ none
unfolding lifecycle_updates
settled_once now a = ground arith

-- Where a trial has a deadline, the transitions make the account past due just if the deadline has
-- come, and leave it on trial just if it has not.
pub trial_ends :
    (now deadline : ℕ) (a : BillingAccount)
    → a.status ≡ trialing
    → a.trial_ends_at ≡ some deadline
    → ((is_past_due (settled now a).status ≡ leb deadline now)
        × (is_trialing (settled now a).status ≡ not (leb deadline now)))
unfolding lifecycle_updates
trial_ends now deadline a h d = ground arith

-- An account becomes suspended by the transitions just if it owes a payment and its grace has passed;
-- a suspended one stays so.
pub suspends_after_grace :
    (now : ℕ) (a : BillingAccount)
    → is_blocked (settled now a).status
      ≡ (is_blocked a.status || (owes_payment a.status && has_passed now a.grace_ends_at))
unfolding lifecycle_updates
suspends_after_grace now a = ground arith

module _ (env : Env) (tenant_id : String) (w : World env) {a : BillingAccount}
    (found : first env.sql (account_of tenant_id) w.billing_accounts ≡ some a) where
  nothing_due :
      lifecycle_updates w.now a ≡ none
      → (apply_lifecycle_transitions env tenant_id w).1.billing_accounts ≡ w.billing_accounts
  unfolding apply_lifecycle_transitions ensure_tenant_billing
  nothing_due h = ground arith

  writes_updates :
      {u : AccountUpdates}
      → lifecycle_updates w.now a ≡ some u
      → (apply_lifecycle_transitions env tenant_id w).1.billing_accounts
        ≡ env.sql.update (account_of tenant_id) (apply_updates w.now u) w.billing_accounts
  unfolding apply_lifecycle_transitions ensure_tenant_billing
  writes_updates h = ground arith

  -- Where the tenant has one billing account, `applyLifecycleTransitions` replaces its row by the
  -- settled one and leaves every other row: each count of rows changes by these two alone. Settled, an
  -- account on trial whose end has come is past due, with one more failed payment, failed now, and three
  -- days of grace; one that is past due or in its grace period, and whose grace has ended, is suspended;
  -- any other account is as it was.
  pub transitions_settle :
      rows env.sql (account_of tenant_id) w.billing_accounts ≤ 1
      → Replaces env.sql w.billing_accounts
          (apply_lifecycle_transitions env tenant_id w).1.billing_accounts
          a
          (settled w.now a)
  transitions_settle one q = elim (Option-cases (lifecycle_updates w.now a)) [
    | inl idle ↦ rw (nothing_due idle, ← settle_by-settled w.now a, idle) refl
    | inr (u, due) ↦
        rw (writes_updates due, ← settle_by-settled w.now a, due)
          (update-Replaces env.sql (account_of tenant_id) (account_of tenant_id)
            (apply_updates w.now u) w.billing_accounts found
            (first_meets env.sql (account_of tenant_id) w.billing_accounts found) one q)
  ]
