-- ===== src/TenantManagement/Lifecycle/Memberships.antt =====
-- What the lifecycle methods do to the members of the tenant, and to those of the others.
use medusa_multi_tenancy.Prelude.{
  ◌≡◌, refl, ◌∙◌, String, Bool, true, false, not, ◌&&◌, Option, some, arith, str_eq, Bool-cases,
  Option-cases, inl, inr,
}
use medusa_multi_tenancy.Schema.{Tenant, Membership, MemberStatus, enabled, disabled, is_enabled}
use medusa_multi_tenancy.Sql.Rows.{rows, first, rows_congr, rows_none}
use medusa_multi_tenancy.World.{Env, World}
use medusa_multi_tenancy.TenantManagement.Lifecycle.{
  has_id, deactivate_tenant, suspend_tenant, reactivate_tenant, request_tenant_deletion,
}
use medusa_multi_tenancy.TenantManagement.Lifecycle.Standing.{
  LifecycleOp, deactivate, suspend, reactivate, request_deletion, standing, allows, apply,
  apply_missing, apply_refused,
}

abbrev pub in_tenant : String → Membership → Bool
in_tenant id m = str_eq m.tenant_id id

module _ (env : Env) (id : String) (actor : Option String) (w : World env) where
  with_status : MemberStatus → Membership → Membership
  with_status s m = record m { status = s; updated_at = w.now }

  module _ {t : Tenant} (found : first env.sql (has_id id) w.tenants ≡ some t) where
    after_deactivate :
        (apply env deactivate id actor w).memberships
        ≡ env.sql.update (in_tenant id) (with_status disabled) w.memberships
    unfolding apply deactivate_tenant with_status
    after_deactivate = ground arith

    after_reactivate :
        allows reactivate (standing t) ≡ true
        → (apply env reactivate id actor w).memberships
          ≡ env.sql.update (in_tenant id) (with_status enabled) w.memberships
    unfolding apply reactivate_tenant with_status
    after_reactivate a = ground arith

  after_suspend : (apply env suspend id actor w).memberships ≡ w.memberships
  unfolding apply suspend_tenant
  after_suspend = ground arith

  after_request : (apply env request_deletion id actor w).memberships ≡ w.memberships
  unfolding apply request_tenant_deletion
  after_request = ground arith

  none_left :
      (s : MemberStatus) (q : MemberStatus → Bool)
      → q s ≡ false
      → rows env.sql
          (λ m. in_tenant id m && q m.status)
          (env.sql.update (in_tenant id) (with_status s) w.memberships)
        ≡ 0
  unfolding with_status
  none_left s q h =
      env.sql.rows-update (λ m. in_tenant id m && q m.status) (in_tenant id) (with_status s)
        w.memberships
      ∙ rows_none env.sql _ w.memberships (λ m. ground (arith, h))

  -- After the deactivation of a tenant that is found it has no active member.
  pub deactivation_disables_all :
      {t : Tenant}
      → first env.sql (has_id id) w.tenants ≡ some t
      → rows env.sql
          (λ m. in_tenant id m && is_enabled m.status)
          (apply env deactivate id actor w).memberships
        ≡ 0
  deactivation_disables_all found = rw (after_deactivate found) (none_left disabled is_enabled refl)

  -- After the reactivation of a tenant that is found, and is not being deleted, it has no inactive
  -- member, whichever members were inactive before.
  pub reactivation_enables_all :
      {t : Tenant}
      → first env.sql (has_id id) w.tenants ≡ some t
      → allows reactivate (standing t) ≡ true
      → rows env.sql
          (λ m. in_tenant id m && not (is_enabled m.status))
          (apply env reactivate id actor w).memberships
        ≡ 0
  reactivation_enables_all found a =
      rw (after_reactivate found a) (none_left enabled (λ s. not (is_enabled s)) refl)

  others_stay :
      (s : MemberStatus) (q : Membership → Bool)
      → rows env.sql
          (λ m. not (in_tenant id m) && q m)
          (env.sql.update (in_tenant id) (with_status s) w.memberships)
        ≡ rows env.sql (λ m. not (in_tenant id m) && q m) w.memberships
  unfolding with_status
  others_stay s q =
      env.sql.rows-update (λ m. not (in_tenant id m) && q m) (in_tenant id) (with_status s)
        w.memberships
      ∙ rows_congr env.sql _ _ w.memberships (λ m. ground (arith, Bool-cases (in_tenant id m)))

  -- No lifecycle call on one tenant changes the membership rows of the others: every count of such
  -- rows stays.
  pub other_tenants_members_stay :
      (op : LifecycleOp) (q : Membership → Bool)
      → rows env.sql (λ m. not (in_tenant id m) && q m) (apply env op id actor w).memberships
        ≡ rows env.sql (λ m. not (in_tenant id m) && q m) w.memberships
  other_tenants_members_stay deactivate q =
      elim (Option-cases (first env.sql (has_id id) w.tenants)) [
        | inl missing ↦ rw (apply_missing env deactivate id actor w missing) refl
        | inr (t, found) ↦ rw (after_deactivate found) (others_stay disabled q)
      ]
  other_tenants_members_stay suspend q = rw after_suspend refl
  other_tenants_members_stay reactivate q =
      elim (Option-cases (first env.sql (has_id id) w.tenants)) [
        | inl missing ↦ rw (apply_missing env reactivate id actor w missing) refl
        | inr (t, found) ↦ elim (Bool-cases (allows reactivate (standing t))) [
          | inl yes' ↦ rw (after_reactivate found yes') (others_stay enabled q)
          | inr no' ↦ rw (apply_refused env reactivate id actor w found no') refl
        ]
      ]
  other_tenants_members_stay request_deletion q = rw after_request refl
