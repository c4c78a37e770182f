-- ===== src/RateLimit.antt =====
-- The limits of src/api/middlewares.ts: the buckets that the middlewares share, their purging, and
-- (in the modules below) the endpoint classes, the three limiters and the error rate.
pub mod Endpoints
pub mod Limiters
pub mod Chain
pub mod Window
pub mod Abuse
pub mod Alerts
pub mod Forgetting
pub mod Responses
pub mod Leakage
pub mod Events
use medusa_multi_tenancy.Prelude.{
  ℕ, ◌+◌, ◌-◌, ◌/◌, ◌*◌, max, String, Bool, true, false, not, ◌&&◌, ◌||◌, Option, none, some,
  if◌then◌else◌, leb,
}
use medusa_multi_tenancy.Prelude.Maps.{Map, KeySet, retain, empty_map, empty_set}
use medusa_multi_tenancy.RuntimeState.{purge_tenant_entries_from_map, purge_tenant_entries_from_set}

-- `RateLimitBucket` and `RollingUsageBucket`
pub record Bucket : Type 0 where
  pub count : ℕ
  pub reset_at : ℕ

-- `AbuseSpikeBucket`
pub record AbuseBucket : Type 0 where
  pub count : ℕ
  pub previous_count : ℕ
  pub reset_at : ℕ

-- `ErrorRateBucket`
pub record ErrorBucket : Type 0 where
  pub total : ℕ
  pub errors : ℕ
  pub reset_at : ℕ

-- the value of `actorTenantPatternWindow`
pub record Pattern : Type 0 where
  pub tenant_id : String
  pub updated_at : ℕ

-- The maps and sets of the module.
pub record Limits : Type 0 where
  pub rate_limit_buckets : Map Bucket
  pub mutation_buckets : Map Bucket
  pub class_buckets : Map Bucket
  pub quota_buckets : Map Bucket
  pub abuse_buckets : Map AbuseBucket
  pub error_rate_buckets : Map ErrorBucket
  pub quota_alerts : KeySet
  pub abuse_alerts : KeySet
  pub leakage_alerts : KeySet
  pub actor_patterns : Map Pattern

abbrev pub no_limits : Limits
no_limits = record {
  rate_limit_buckets = empty_map;
  mutation_buckets = empty_map;
  class_buckets = empty_map;
  quota_buckets = empty_map;
  abuse_buckets = empty_map;
  error_rate_buckets = empty_map;
  quota_alerts = empty_set;
  abuse_alerts = empty_set;
  leakage_alerts = empty_set;
  actor_patterns = empty_map;
}

abbrev pub rate_limit_window_ms : ℕ
rate_limit_window_ms = 60000

abbrev pub rate_limit_max_requests : ℕ
rate_limit_max_requests = 120

abbrev pub mutation_rate_limit_window_ms : ℕ
mutation_rate_limit_window_ms = 60000

abbrev pub quota_window_ms : ℕ
quota_window_ms = 3600000

abbrev pub abuse_window_ms : ℕ
abuse_window_ms = 60000

abbrev pub abuse_error_window_ms : ℕ
abuse_error_window_ms = 300000

abbrev pub leakage_pattern_window_ms : ℕ
leakage_pattern_window_ms = 120000

-- `bucket.resetAt <= now`
abbrev pub is_expired : ℕ → Bucket → Bool
is_expired now b = leb b.reset_at now

abbrev pub is_abuse_expired : ℕ → AbuseBucket → Bool
is_abuse_expired now b = leb b.reset_at now

-- The key has an entry whose value meets the test.
abbrev pub entry_meets {ℓ} : {V : Type ℓ} → (V → Bool) → Option V → Bool
entry_meets p none = false
entry_meets p (some v) = p v

-- The two deduplication sets lose the very keys of the buckets that are deleted.
unfoldable pub rate_limit_cleanup : ℕ → Limits → Limits
rate_limit_cleanup now s = record {
  rate_limit_buckets = retain (λ b. not (is_expired now b)) s.rate_limit_buckets;
  mutation_buckets = retain (λ b. not (is_expired now b)) s.mutation_buckets;
  class_buckets = retain (λ b. not (is_expired now b)) s.class_buckets;
  quota_buckets = retain (λ b. not (is_expired now b)) s.quota_buckets;
  abuse_buckets = retain (λ b. not (is_abuse_expired now b)) s.abuse_buckets;
  error_rate_buckets = retain (λ b. not (leb b.reset_at now)) s.error_rate_buckets;
  quota_alerts = λ k. not (entry_meets (is_expired now) (s.quota_buckets k)) && s.quota_alerts k;
  abuse_alerts =
      λ k. not (entry_meets (is_abuse_expired now) (s.abuse_buckets k)) && s.abuse_alerts k;
  leakage_alerts = s.leakage_alerts;
  actor_patterns =
      retain (λ v. not (leb (v.updated_at + leakage_pattern_window_ms) now)) s.actor_patterns;
}

-- the callback that is registered with `registerTenantRuntimeInvalidator`
unfoldable pub invalidate_tenant : String → Limits → Limits
invalidate_tenant tenant_id s = record {
  rate_limit_buckets = purge_tenant_entries_from_map s.rate_limit_buckets tenant_id;
  mutation_buckets = purge_tenant_entries_from_map s.mutation_buckets tenant_id;
  class_buckets = purge_tenant_entries_from_map s.class_buckets tenant_id;
  quota_buckets = purge_tenant_entries_from_map s.quota_buckets tenant_id;
  abuse_buckets = purge_tenant_entries_from_map s.abuse_buckets tenant_id;
  error_rate_buckets = purge_tenant_entries_from_map s.error_rate_buckets tenant_id;
  quota_alerts = purge_tenant_entries_from_set s.quota_alerts tenant_id;
  abuse_alerts = purge_tenant_entries_from_set s.abuse_alerts tenant_id;
  leakage_alerts = purge_tenant_entries_from_set s.leakage_alerts tenant_id;
  actor_patterns = s.actor_patterns;
}

-- `Math.max(1, Math.ceil((resetAt - now) / 1000))`, where the bucket has not expired
abbrev pub retry_after_seconds : ℕ → ℕ → ℕ
retry_after_seconds reset_at now = max 1 ((reset_at - now + 999) / 1000)
