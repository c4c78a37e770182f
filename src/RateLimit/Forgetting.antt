-- ===== src/RateLimit/Forgetting.antt =====
-- What the limiters forget of a tenant when its runtime state is invalidated.
use medusa_multi_tenancy.Prelude.{◌≡◌, refl, String, false, none, List}
use medusa_multi_tenancy.RuntimeState.{
  build_tenant_scoped_key, purge_tenant_entries_from_map, purge_tenant_entries_from_set,
}
use medusa_multi_tenancy.RuntimeState.Keys.{is_tenant_scoped_key-build}
use medusa_multi_tenancy.RateLimit.{Limits, invalidate_tenant}

-- The key is in none of the buckets and deduplication sets.
pub record IsForgotten (key : String) (s : Limits) : Type 0 where
  pub rate_limit : s.rate_limit_buckets key ≡ none
  pub mutation : s.mutation_buckets key ≡ none
  pub class : s.class_buckets key ≡ none
  pub quota : s.quota_buckets key ≡ none
  pub abuse : s.abuse_buckets key ≡ none
  pub error_rate : s.error_rate_buckets key ≡ none
  pub quota_alert : s.quota_alerts key ≡ false
  pub abuse_alert : s.abuse_alerts key ≡ false
  pub leakage_alert : s.leakage_alerts key ≡ false

-- After the invalidation of a tenant, no bucket and no deduplication set holds a key that is built for
-- the tenant, whatever its parts.
pub invalidate_tenant-IsForgotten :
    (tenant_id : String) (parts : List String) (s : Limits)
    → IsForgotten (build_tenant_scoped_key tenant_id parts) (invalidate_tenant tenant_id s)
unfolding invalidate_tenant purge_tenant_entries_from_map purge_tenant_entries_from_set
invalidate_tenant-IsForgotten tenant_id parts s =
    let e = is_tenant_scoped_key-build tenant_id parts in
    record {
      rate_limit = rw e refl;
      mutation = rw e refl;
      class = rw e refl;
      quota = rw e refl;
      abuse = rw e refl;
      error_rate = rw e refl;
      quota_alert = rw e refl;
      abuse_alert = rw e refl;
      leakage_alert = rw e refl;
    }
