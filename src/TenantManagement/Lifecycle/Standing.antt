-- ===== src/TenantManagement/Lifecycle/Standing.antt =====
-- The states of a tenant as an abstract machine, and what the four service methods do to its view of
-- the table `tenant`.
use medusa_multi_tenancy.Prelude.{
  ℕ, ◌+◌, ◌*◌, ◌≤◌, ◌≡◌, refl, ap, sym, ◌∙◌, String, Bool, true, false, not, ◌&&◌, Option, none,
  some, if◌then◌else◌, arith, str_eq, eq_iff, Option-cases, inl, inr,
}
use medusa_multi_tenancy.Schema.{
  Tenant, TenantStatus, active, suspended, inactive, pending_deletion, deleted,
}
use medusa_multi_tenancy.Sql.Rows.{
  rows, first, first_meets, first-none, first_pos, first_of_pos, first_of_none, rows_of_key,
  rows_congr,
}
use medusa_multi_tenancy.World.{Env, World}
use medusa_multi_tenancy.TenantManagement.Lifecycle.{
  has_id, is_deleting, retention_days, day_ms, deactivate_tenant, suspend_tenant, reactivate_tenant,
  request_tenant_deletion,
}

pub data LifecycleOp : Type 0 where
  deactivate suspend reactivate request_deletion : LifecycleOp

-- What the rules of the lifecycle read of a tenant.
pub record Standing : Type 0 where
  pub status : TenantStatus
  pub legal_hold : Bool

-- Whether the operation is allowed.
abbrev pub allows : LifecycleOp → Standing → Bool
allows deactivate s = true
allows suspend s = true
allows reactivate s = not (is_deleting s.status)
allows request_deletion s = not s.legal_hold

abbrev pub target : LifecycleOp → TenantStatus
target deactivate = inactive
target suspend = suspended
target reactivate = active
target request_deletion = pending_deletion

abbrev pub next : LifecycleOp → Standing → Standing
next op s = if allows op s then record s { status = target op } else s

abbrev pub standing : Tenant → Standing
standing t = record { status = t.status; legal_hold = t.legal_hold }

abbrev pub map_standing : (Standing → Standing) → Option Standing → Option Standing
map_standing f none = none
map_standing f (some s) = some (f s)

abbrev pub standing_of : Option Tenant → Option Standing
standing_of none = none
standing_of (some t) = some (standing t)

-- the change that an allowed operation makes to the tenant's row
abbrev pub change : LifecycleOp → ℕ → Tenant → Tenant
change deactivate now t = record t {
  status = inactive;
  deactivated_at = some now;
  updated_at = now;
}
change suspend now t = record t { status = suspended; suspended_at = some now; updated_at = now }
change reactivate now t = record t { status = active; updated_at = now }
change request_deletion now t = record t {
  status = pending_deletion;
  deletion_requested_at = some now;
  scheduled_purge_at = some (now + retention_days * day_ms);
  updated_at = now;
}

module _ (env : Env) where
  -- The state after a call, whether it returns or throws.
  unfoldable pub apply : LifecycleOp → String → Option String → World env → World env
  apply deactivate id actor w = (deactivate_tenant env id actor w).1
  apply suspend id actor w = (suspend_tenant env id actor w).1
  apply reactivate id actor w = (reactivate_tenant env id actor w).1
  apply request_deletion id actor w = (request_tenant_deletion env id actor w).1

  -- The primary key of `tenant`.
  abbrev pub HasUniqueTenants : World env → Type 0
  HasUniqueTenants w = (id : String) → rows env.sql (has_id id) w.tenants ≤ 1

  -- The abstract view of the table.
  unfoldable pub view : String → World env → Option Standing
  view id w = standing_of (first env.sql (has_id id) w.tenants)

  pub apply_missing :
      (op : LifecycleOp) (id : String) (actor : Option String) (w : World env)
      → first env.sql (has_id id) w.tenants ≡ none
      → apply op id actor w ≡ w
  unfolding apply deactivate_tenant suspend_tenant reactivate_tenant request_tenant_deletion
  apply_missing deactivate id actor w h = ground arith
  apply_missing _ id actor w h = ground arith

  pub apply_refused :
      (op : LifecycleOp) (id : String) (actor : Option String) (w : World env) {t : Tenant}
      → first env.sql (has_id id) w.tenants ≡ some t
      → allows op (standing t) ≡ false
      → apply op id actor w ≡ w
  unfolding apply deactivate_tenant suspend_tenant reactivate_tenant request_tenant_deletion
  apply_refused deactivate id actor w h a = ground arith
  apply_refused _ id actor w h a = ground arith

  pub apply_allowed :
      (op : LifecycleOp) (id : String) (actor : Option String) (w : World env) {t : Tenant}
      → first env.sql (has_id id) w.tenants ≡ some t
      → allows op (standing t) ≡ true
      → (apply op id actor w).tenants ≡ env.sql.update (has_id id) (change op w.now) w.tenants
  unfolding apply deactivate_tenant suspend_tenant reactivate_tenant request_tenant_deletion
  apply_allowed deactivate id actor w h a = ground arith
  apply_allowed _ id actor w h a = ground arith

same_status : TenantStatus → TenantStatus → Bool
same_status active active = true
same_status suspended suspended = true
same_status inactive inactive = true
same_status pending_deletion pending_deletion = true
same_status deleted deleted = true
same_status _ _ = false

same_flag : Bool → Bool → Bool
same_flag true b = b
same_flag false b = not b

same_standing : Standing → Standing → Bool
unfolding same_status same_flag
same_standing a b = same_status a.status b.status && same_flag a.legal_hold b.legal_hold

same_standing_refl : (a : Standing) → same_standing a a ≡ true
unfolding same_standing
same_standing_refl a = ground arith

eq_of_same_standing : (a b : Standing) → same_standing a b ≡ true → b ≡ a
unfolding same_standing
eq_of_same_standing a b h = ground arith

module _ (env : Env) where
  -- Two tables with unique keys agree on a standing if they agree on every count.
  pub standing_of_counts :
      (j : String) (f : Standing → Standing) (w w' : World env)
      → rows env.sql (has_id j) w.tenants ≤ 1
      → rows env.sql (has_id j) w'.tenants ≤ 1
      → ((p : Standing → Bool)
          → rows env.sql (λ r. has_id j r && p (standing r)) w'.tenants
            ≡ rows env.sql (λ r. has_id j r && p (f (standing r))) w.tenants)
      → view env j w' ≡ map_standing f (view env j w)
  unfolding view
  standing_of_counts j f w w' u u' agree =
      elim (Option-cases (first env.sql (has_id j) w.tenants)) [
        | inl missing ↦
            rw
              (
                missing,
                first_of_none env.sql (has_id j) w'.tenants
                    (omega (arith, same_total, first-none env.sql (has_id j) w.tenants missing)),
              )
              refl
        | inr (m, found) ↦
            let (m', found') =
              first_of_pos env.sql (has_id j) w'.tenants
                (omega (arith, same_total, first_pos env.sql (has_id j) w.tenants found)) in
            rw (found, found')
              (ap some (
                eq_of_same_standing (f (standing m)) (standing m') (
                  ground (
                    arith,
                    agree (same_standing (f (standing m))),
                    rows_of_key env.sql (has_id j) (has_id j)
                        (λ r. same_standing (f (standing m)) (f (standing r))) w.tenants found
                        (first_meets env.sql (has_id j) w.tenants found) u,
                    rows_of_key env.sql (has_id j) (has_id j)
                        (λ r. same_standing (f (standing m)) (standing r)) w'.tenants found'
                        (first_meets env.sql (has_id j) w'.tenants found') u',
                    same_standing_refl (f (standing m)),
                  ))))
      ]
    where
      and_true_right : (b : Bool) → (b && true) ≡ b
      and_true_right true = refl
      and_true_right false = refl

      same_total : rows env.sql (has_id j) w'.tenants ≡ rows env.sql (has_id j) w.tenants
      same_total =
          sym (rows_congr env.sql _ (has_id j) w'.tenants (λ r. and_true_right (has_id j r)))
          ∙ agree (λ _. true)
          ∙ rows_congr env.sql _ (has_id j) w.tenants (λ r. and_true_right (has_id j r))

  -- An update of a row's standing by its key.
  pub counts_after_change :
      (op : LifecycleOp) (id j : String) (w : World env) (p : Standing → Bool)
      → rows env.sql
          (λ r. has_id j r && p (standing r))
          (env.sql.update (has_id id) (change op w.now) w.tenants)
        ≡ rows env.sql
            (λ r.
              has_id j r
              && p (
                  if str_eq j id
                  then record { status = target op; legal_hold = r.legal_hold }
                  else standing r))
            w.tenants
  counts_after_change op id j w p =
      env.sql.rows-update (λ r. has_id j r && p (standing r)) (has_id id) (change op w.now)
        w.tenants
      ∙ rows_congr env.sql _ _ w.tenants (λ r. pointwise op r)
    where
      pointwise :
          (op : LifecycleOp) (r : Tenant)
          → (has_id j (if has_id id r then change op w.now r else r)
              && p (standing (if has_id id r then change op w.now r else r)))
            ≡ (has_id j r
                && p (
                    if str_eq j id
                    then record { status = target op; legal_hold = r.legal_hold }
                    else standing r))
      pointwise deactivate r = ground (arith, eq_iff r.id id, eq_iff r.id j, eq_iff j id)
      pointwise suspend r = ground (arith, eq_iff r.id id, eq_iff r.id j, eq_iff j id)
      pointwise reactivate r = ground (arith, eq_iff r.id id, eq_iff r.id j, eq_iff j id)
      pointwise request_deletion r = ground (arith, eq_iff r.id id, eq_iff r.id j, eq_iff j id)
