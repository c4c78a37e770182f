-- ===== src/TenantManagement/Tenants/Creation.antt =====
-- What `createTenant` writes.
use medusa_multi_tenancy.Prelude.{
  suc, ◌≤◌, ◌<◌, ◌≡◌, ap, String, ◌&&◌, none, some, arith, str_eq, eq_iff, eq_refl, Option-cases,
  inl, inr,
}
use medusa_multi_tenancy.Schema.{Tenant, Membership}
use medusa_multi_tenancy.Sql.Rows.{rows, first, first-none, first_pos}
use medusa_multi_tenancy.World.{Env, World, ok, thrown, slug_taken}
use medusa_multi_tenancy.Billing.Lifecycle.{ensure_tenant_billing}
use medusa_multi_tenancy.TenantManagement.Members.{active_owner_of}
use medusa_multi_tenancy.TenantManagement.Tenants.{
  has_slug, is_tenant, is_active, new_tenant, owner_membership, create_tenant,
}

module _ (env : Env) where
  -- The unique key of `tenant` on the slug.
  abbrev pub HasUniqueSlugs : World env → Type 0
  HasUniqueSlugs w = (slug : String) → rows env.sql (has_slug slug) w.tenants ≤ 1

module _ (env : Env) (name slug owner_email : String) (w : World env) where
  abbrev pub created : Tenant
  created = new_tenant (env.random_uuid w.drawn) name slug owner_email w.now

  abbrev pub first_member : Membership
  first_member =
      owner_membership (env.random_uuid (suc w.drawn)) (env.random_uuid w.drawn) owner_email w.now

  refuses_taken :
      {t : Tenant}
      → first env.sql (has_slug slug) w.tenants ≡ some t
      → create_tenant env name slug owner_email w ≡ (thrown (slug_taken slug), w)
  unfolding create_tenant
  refuses_taken h = ground arith

  creates :
      first env.sql (has_slug slug) w.tenants ≡ none
      → ((create_tenant env name slug owner_email w).0 ≡ ok created)
        × ((create_tenant env name slug owner_email w).1.tenants ≡ env.sql.insert created w.tenants)
        × ((create_tenant env name slug owner_email w).1.memberships
            ≡ env.sql.insert first_member w.memberships)
  unfolding create_tenant ensure_tenant_billing
  creates h = ground arith

  -- Creating a tenant keeps slugs unique, whether it returns or throws.
  pub create_tenant-HasUniqueSlugs :
      HasUniqueSlugs env w → HasUniqueSlugs env (create_tenant env name slug owner_email w).1
  create_tenant-HasUniqueSlugs u s = elim (Option-cases (first env.sql (has_slug slug) w.tenants)) [
    | inr (t, taken) ↦ rw (ap (λ p. p.1) (refuses_taken taken)) (u s)
    | inl absent ↦ rw (creates absent).1 (
        ground (
          arith,
          env.sql.rows-insert (has_slug s) created w.tenants,
          u s,
          first-none env.sql (has_slug slug) w.tenants absent,
          eq_iff slug s,
        ))
  ]

  -- Where the slug is free, `createTenant` returns a tenant, which is stored as active under its slug,
  -- and of which the owner's address has an active membership with the role of owner.
  pub create_tenant_gives_owner :
      rows env.sql (has_slug slug) w.tenants ≡ 0
      → (t : Tenant) × ((create_tenant env name slug owner_email w).0 ≡ ok t)
        × (0
            < rows env.sql
                (λ r. is_tenant t.tenant_id r && (has_slug slug r && is_active r.status))
                (create_tenant env name slug owner_email w).1.tenants)
        × (0
            < rows env.sql
                (λ m. active_owner_of t.tenant_id m && str_eq m.user_email owner_email)
                (create_tenant env name slug owner_email w).1.memberships)
  create_tenant_gives_owner free = elim (Option-cases (first env.sql (has_slug slug) w.tenants)) [
    | inr (_, taken) ↦
        absurd (omega (arith, free, first_pos env.sql (has_slug slug) w.tenants taken))
    | inl absent ↦
        let (returns, stored, joined) = creates absent in
        (
          created,
          returns,
          rw stored (
              ground (
                arith,
                env.sql.rows-insert
                    (λ r. is_tenant created.tenant_id r && (has_slug slug r && is_active r.status))
                    created w.tenants,
                eq_refl created.tenant_id,
                eq_refl slug,
              )),
          rw joined (
              ground (
                arith,
                env.sql.rows-insert
                    (λ m. active_owner_of created.tenant_id m && str_eq m.user_email owner_email)
                    first_member w.memberships,
                eq_refl created.tenant_id,
                eq_refl owner_email,
              )),
        )
  ]
