-- ===== src/RateLimit/Abuse.antt =====
-- src/api/middlewares.ts: what the spike detection remembers of the window before.
use medusa_multi_tenancy.Prelude.{
  ℕ, String, ◌≡◌, refl, Option, none, some, List, arith, or_default, eq_iff,
}
use medusa_multi_tenancy.RateLimit.{AbuseBucket, Limits, no_limits, invalidate_tenant}
use medusa_multi_tenancy.RuntimeState.{purge_tenant_entries_from_map}
use medusa_multi_tenancy.RateLimit.Endpoints.{LimitedRequest, Overrides}
use medusa_multi_tenancy.RateLimit.Limiters.{
  class_key, count_abuse, tenant_ip_rate_limit, tenant_mutation_rate_limit,
  tenant_endpoint_class_rate_limit_and_quota,
}
use medusa_multi_tenancy.RateLimit.Responses.{Response, finish_response}
use medusa_multi_tenancy.RateLimit.Events.{
  Event, handle_all, Unrestricted, invalidates_any, events_keep,
}

-- The count of the previous window that a bucket holds, or 0 if there is none.
abbrev pub history : Option AbuseBucket → ℕ
history none = 0
history (some b) = b.previous_count

abbrev pub HasNoHistory : Limits → Type 0
HasNoHistory s = (k : String) → history (s.abuse_buckets k) ≡ 0

module _ (now : ℕ) (req : LimitedRequest) (s : Limits) (k : String)
    (h : history (s.abuse_buckets k) ≡ 0) where
  ip-history : history ((tenant_ip_rate_limit now req s).1.abuse_buckets k) ≡ 0
  unfolding tenant_ip_rate_limit
  ip-history = ground arith

  mutation-history : history ((tenant_mutation_rate_limit now req s).1.abuse_buckets k) ≡ 0
  unfolding tenant_mutation_rate_limit
  mutation-history = ground arith

  class-history :
      (overrides : Overrides)
      → history ((tenant_endpoint_class_rate_limit_and_quota overrides now req s).1.abuse_buckets k)
        ≡ 0
  unfolding tenant_endpoint_class_rate_limit_and_quota
  class-history overrides = ground (arith, eq_iff (class_key req "abuse") k)

module _ (s : Limits) (k : String) (h : history (s.abuse_buckets k) ≡ 0) where
  finish-history :
      (now : ℕ) (r : Response) → history ((finish_response now r s).1.abuse_buckets k) ≡ 0
  unfolding finish_response
  finish-history now r = ground arith

  forget-history :
      (tenant_id : String) → history ((invalidate_tenant tenant_id s).abuse_buckets k) ≡ 0
  unfolding invalidate_tenant purge_tenant_entries_from_map
  forget-history tenant_id = ground arith

events-HasNoHistory :
    (overrides : Overrides) (events : List Event) (s : Limits)
    → HasNoHistory s
    → HasNoHistory (handle_all overrides events s)
events-HasNoHistory overrides events s =
    events_keep overrides Unrestricted HasNoHistory (λ now req s h k. ip-history now req s k (h k))
      (λ now req s h k. mutation-history now req s k (h k))
      (λ now req s h k. class-history now req s k (h k) overrides)
      (λ now r s h k. finish-history s k (h k) now r)
      (λ tenant_id s _ h k. forget-history s k (h k) tenant_id) events s (invalidates_any events)

-- After any events from the empty state, at any times, every abuse bucket has 0 as the count of its
-- previous window, and so every spike threshold that is computed is 25: purging the expired buckets
-- at the start of each request loses the count that the next window should compare with.
pub spike_threshold_is_constant :
    (overrides : Overrides) (events : List Event) (k : String) (now : ℕ)
    → let s = handle_all overrides events no_limits in
      (history (s.abuse_buckets k) ≡ 0)
      × (or_default (count_abuse now (s.abuse_buckets k)).1 25 ≡ 25)
spike_threshold_is_constant overrides events k now =
    let h = events-HasNoHistory overrides events no_limits (λ _. refl) k in (h, ground (arith, h))
