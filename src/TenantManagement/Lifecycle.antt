-- ===== src/TenantManagement/Lifecycle.antt =====
-- tenant-management/lifecycle.ts, and the service methods that move a tenant between its states:
-- `deactivateTenant`, `suspendTenant`, `reactivateTenant`, `requestTenantDeletion`.
pub mod Standing
pub mod Refinement
pub mod Sequences
pub mod Memberships
use medusa_multi_tenancy.Prelude.{
  ℕ, ◌+◌, ◌*◌, String, Bool, true, false, Option, none, some, [], ◌∷◌, if◌then◌else◌, str_eq,
}
use medusa_multi_tenancy.Schema.{
  Tenant, TenantStatus, active, suspended, inactive, pending_deletion, deleted, enabled, disabled,
}
use medusa_multi_tenancy.Sql.Rows.{first}
use medusa_multi_tenancy.World.{
  Env, World, Exec, PayloadValue, ◌>>=◌, ◌>>◌, pure, gets, or_throw, throw_if, modify,
  invalidate_tenant_runtime_state, tenant_not_found, deletion_in_progress, under_legal_hold,
}
use medusa_multi_tenancy.AuditLog.{record_event}

-- `TENANT_DELETION_RETENTION_DAYS`
abbrev pub retention_days : ℕ
retention_days = 90

abbrev pub day_ms : ℕ
day_ms = 86400000

-- `BLOCKED_TENANT_STATUSES.includes(status)`
abbrev pub is_blocked_status : TenantStatus → Bool
is_blocked_status active = false
is_blocked_status _ = true

unfoldable pub is_tenant_access_blocked : Option TenantStatus → Bool
is_tenant_access_blocked none = true
is_tenant_access_blocked (some status) = is_blocked_status status

abbrev pub is_deleting : TenantStatus → Bool
is_deleting pending_deletion = true
is_deleting deleted = true
is_deleting _ = false

abbrev pub status_text : TenantStatus → String
status_text active = "active"
status_text suspended = "suspended"
status_text inactive = "inactive"
status_text pending_deletion = "pending_deletion"
status_text deleted = "deleted"

-- `where({ id: tenantId })` on `tenant`
abbrev pub has_id : String → Tenant → Bool
has_id tenant_id t = str_eq t.id tenant_id

abbrev pub actor_or_system : Option String → Option String
actor_or_system none = some "system"
actor_or_system (some actor) = if str_eq actor "" then some "system" else some actor

module _ (env : Env) (tenant_id : String) (actor : Option String) where
  find_tenant : Exec env Tenant
  find_tenant = do
    found ← gets (λ w. first env.sql (has_id tenant_id) w.tenants)
    or_throw found tenant_not_found

  update_tenant : (World env → Tenant → Tenant) → Exec env Unit
  update_tenant change =
      modify λ w. record w { tenants = env.sql.update (has_id tenant_id) (change w) w.tenants }

  status_change_event : String → TenantStatus → TenantStatus → Exec env Unit
  status_change_event action before after =
      record_event env (actor_or_system actor) tenant_id action tenant_id (
        ("previous_status", PayloadValue.text (status_text before))
        ∷ ("new_status", PayloadValue.text (status_text after))
        ∷ [])

  unfoldable pub deactivate_tenant : Exec env Tenant
  unfolding find_tenant update_tenant status_change_event
  deactivate_tenant = do
    tenant ← find_tenant
    update_tenant
        λ w t. record t { status = inactive; deactivated_at = some w.now; updated_at = w.now }
    modify λ w. record w {
      memberships =
          env.sql.update (λ m. str_eq m.tenant_id tenant_id)
            (λ m. record m { status = disabled; updated_at = w.now }) w.memberships;
    }
    status_change_event "tenant_deactivated" tenant.status inactive
    invalidate_tenant_runtime_state tenant_id
    pure (record tenant { status = inactive })

  unfoldable pub suspend_tenant : Exec env Tenant
  unfolding find_tenant update_tenant
  suspend_tenant = do
    tenant ← find_tenant
    update_tenant
        λ w t. record t { status = suspended; suspended_at = some w.now; updated_at = w.now }
    record_event env (actor_or_system actor) tenant_id "tenant_suspended" tenant_id (
        ("previous_status", PayloadValue.text (status_text tenant.status))
        ∷ ("new_status", PayloadValue.text "suspended")
        ∷ ("access_blocked", PayloadValue.flag true)
        ∷ ("billing_preserved", PayloadValue.flag true)
        ∷ [])
    invalidate_tenant_runtime_state tenant_id
    pure (record tenant { status = suspended })

  unfoldable pub reactivate_tenant : Exec env Tenant
  unfolding find_tenant update_tenant status_change_event
  reactivate_tenant = do
    tenant ← find_tenant
    throw_if (is_deleting tenant.status) deletion_in_progress
    update_tenant λ w t. record t { status = active; updated_at = w.now }
    modify λ w. record w {
      memberships =
          env.sql.update (λ m. str_eq m.tenant_id tenant_id)
            (λ m. record m { status = enabled; updated_at = w.now }) w.memberships;
    }
    status_change_event "tenant_reactivated" tenant.status active
    invalidate_tenant_runtime_state tenant_id
    pure (record tenant { status = active })

  unfoldable pub request_tenant_deletion : Exec env Tenant
  unfolding find_tenant update_tenant
  request_tenant_deletion = do
    tenant ← find_tenant
    throw_if tenant.legal_hold under_legal_hold
    update_tenant λ w t. record t {
      status = pending_deletion;
      deletion_requested_at = some w.now;
      scheduled_purge_at = some (w.now + retention_days * day_ms);
      updated_at = w.now;
    }
    record_event env (actor_or_system actor) tenant_id "tenant_deletion_requested" tenant_id (
        ("previous_status", PayloadValue.text (status_text tenant.status))
        ∷ ("new_status", PayloadValue.text "pending_deletion")
        ∷ ("retention_days", PayloadValue.number retention_days)
        ∷ [])
    invalidate_tenant_runtime_state tenant_id
    pure (record tenant { status = pending_deletion })
