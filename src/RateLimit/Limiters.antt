-- ===== src/RateLimit/Limiters.antt =====
-- src/api/middlewares.ts: `tenantIpRateLimitMiddleware`, `tenantMutationRateLimitMiddleware` and
-- `tenantEndpointClassRateLimitAndQuotaMiddleware`. Each takes the time of the request.
use medusa_multi_tenancy.Prelude.{
  ℕ, ◌+◌, ◌*◌, ◌/◌, max, String, Bool, false, not, ◌&&◌, Option, none, some, [], ◌∷◌, if◌then◌else◌,
  leb, ltb, or_default,
}
use medusa_multi_tenancy.Prelude.Text.{to_upper_case}
use medusa_multi_tenancy.Prelude.Maps.{set, add}
use medusa_multi_tenancy.RuntimeState.{build_tenant_scoped_key}
use medusa_multi_tenancy.RateLimit.{
  Bucket, AbuseBucket, Limits, rate_limit_cleanup, is_expired, is_abuse_expired,
  retry_after_seconds, rate_limit_window_ms, rate_limit_max_requests, mutation_rate_limit_window_ms,
  quota_window_ms, abuse_window_ms,
}
use medusa_multi_tenancy.RateLimit.Endpoints.{
  LimitedRequest, ClassConfig, MutationLimit, Overrides, class_text, get_limit_config,
  classify_endpoint, get_tenant_rate_limit_identity, get_client_ip, mutation_limit,
}

-- `next()`, or status 429 with its `retry-after`
pub data Reply : Type 0 where
  next : Reply
  too_many_requests : ℕ → Reply

-- One more request in a window: the bucket as it is written back, or `none` if there is no room.
abbrev pub admit : ℕ → ℕ → ℕ → Option Bucket → Option Bucket
admit window limit now none = some (record { count = 1; reset_at = now + window })
admit window limit now (some b) =
    if is_expired now b
    then some (record { count = 1; reset_at = now + window })
    else if leb limit b.count
    then none
    else some (record b { count = b.count + 1 })

-- the `retry-after` of a bucket without room
abbrev pub retry_after : ℕ → Option Bucket → ℕ
retry_after now none = 1
retry_after now (some b) = retry_after_seconds b.reset_at now

abbrev pub ip_rate_limit_key : LimitedRequest → String
ip_rate_limit_key req =
    build_tenant_scoped_key (or_default req.context_tenant "system")
      ("ip-rate-limit" ∷ get_client_ip req ∷ [])

unfoldable pub tenant_ip_rate_limit : ℕ → LimitedRequest → Limits → Reply × Limits
unfolding rate_limit_cleanup
tenant_ip_rate_limit now req s₀ =
    let s = rate_limit_cleanup now s₀ in
    let key = ip_rate_limit_key req in
    let bucket = s.rate_limit_buckets key in
    elim (admit rate_limit_window_ms rate_limit_max_requests now bucket) [
      | none ↦ (too_many_requests (retry_after now bucket), s)
      | some b ↦ (next, record s { rate_limit_buckets = set key b s.rate_limit_buckets })
    ]

abbrev pub mutation_key : LimitedRequest → MutationLimit → String
mutation_key req limit =
    build_tenant_scoped_key (get_tenant_rate_limit_identity req)
      ("mutation-rate-limit" ∷ limit.scope ∷ to_upper_case req.method ∷ [])

-- the middleware, behind the search for a limit
limit_mutation : ℕ → LimitedRequest → Option MutationLimit → Limits → Reply × Limits
unfolding rate_limit_cleanup
limit_mutation now req none s = (next, s)
limit_mutation now req (some limit) s₀ =
    let s = rate_limit_cleanup now s₀ in
    let key = mutation_key req limit in
    let bucket = s.mutation_buckets key in
    elim (admit mutation_rate_limit_window_ms limit.max_requests now bucket) [
      | none ↦ (too_many_requests (retry_after now bucket), s)
      | some b ↦ (next, record s { mutation_buckets = set key b s.mutation_buckets })
    ]

unfoldable pub tenant_mutation_rate_limit : ℕ → LimitedRequest → Limits → Reply × Limits
unfolding limit_mutation
tenant_mutation_rate_limit now req s = limit_mutation now req (mutation_limit req) s

-- the header `x-usage-quota-state`
pub data QuotaState : Type 0 where
  within_quota soft_limit_overage hard_limit_overage_grace : QuotaState

-- The reply of the class limiter, its header, and the two alerts that it logs.
pub record ClassReply : Type 0 where
  pub reply : Reply
  pub quota_state : QuotaState
  pub usage_alert : Bool
  pub spike_alert : Bool

abbrev pub class_key : LimitedRequest → String → String
class_key req part =
    build_tenant_scoped_key (get_tenant_rate_limit_identity req)
      (class_text (classify_endpoint req) ∷ part ∷ [])

abbrev pub quota_alert_key : LimitedRequest → String
quota_alert_key req =
    build_tenant_scoped_key (get_tenant_rate_limit_identity req)
      (class_text (classify_endpoint req) ∷ "quota" ∷ "alert" ∷ [])

-- The usage bucket after this request: it counts without a limit.
abbrev pub count_usage : ℕ → Option Bucket → Bucket
count_usage now none = record { count = 1; reset_at = now + quota_window_ms }
count_usage now (some b) =
    if is_expired now b
    then record { count = 1; reset_at = now + quota_window_ms }
    else record b { count = b.count + 1 }

abbrev pub previous : Option AbuseBucket → ℕ
previous none = 0
previous (some b) = b.count

-- The abuse bucket after this request, and the spike threshold if its window goes on.
abbrev pub count_abuse : ℕ → Option AbuseBucket → AbuseBucket × Option ℕ
count_abuse now none =
    (record { count = 1; previous_count = 0; reset_at = now + abuse_window_ms }, none)
count_abuse now (some b) =
    if is_abuse_expired now b
    then (record { count = 1; previous_count = b.count; reset_at = now + abuse_window_ms }, none)
    else (record b { count = b.count + 1 }, some (max 25 (b.previous_count * 3)))

-- `count >= spikeThreshold && !abuseAlertDeduplication.has(abuseKey)`
abbrev pub is_spike : Option ℕ → ℕ → Bool → Bool
is_spike none count known = false
is_spike (some threshold) count known = leb threshold count && not known

-- the abuse part of the middleware, once the quota has let the request through
detect_abuse : ℕ → LimitedRequest → QuotaState → Bool → Limits → ClassReply × Limits
detect_abuse now req state alert s =
    let key = class_key req "abuse" in
    let (b, threshold) = count_abuse now (s.abuse_buckets key) in
    let spike = is_spike threshold b.count (s.abuse_alerts key) in
    (
      record { reply = next; quota_state = state; usage_alert = alert; spike_alert = spike },
      record s {
        abuse_buckets = set key b s.abuse_buckets;
        abuse_alerts = if spike then add key s.abuse_alerts else s.abuse_alerts;
      },
    )

abbrev pub quota_state_of : ClassConfig → ℕ → QuotaState
quota_state_of config usage =
    if ltb config.hard_quota_per_hour usage
      && leb usage (config.hard_quota_per_hour + config.overage_grace_requests)
    then hard_limit_overage_grace
    else if ltb config.soft_quota_per_hour usage
    then soft_limit_overage
    else within_quota

-- `Math.ceil(softQuotaPerHour * alertThresholdRatio)`
abbrev pub alert_threshold : ClassConfig → ℕ
alert_threshold config = (config.soft_quota_per_hour * config.alert_threshold_percent + 99) / 100

-- the quota part of the middleware, once the throttle has let the request through
meter_quota : ℕ → LimitedRequest → ClassConfig → Limits → ClassReply × Limits
unfolding detect_abuse
meter_quota now req config s₀ =
    let key = class_key req "quota" in
    let b = count_usage now (s₀.quota_buckets key) in
    let alert =
      leb (alert_threshold config) b.count && not (s₀.quota_alerts (quota_alert_key req)) in
    let s : Limits = record s₀ {
      quota_buckets = set key b s₀.quota_buckets;
      quota_alerts = if alert then add (quota_alert_key req) s₀.quota_alerts else s₀.quota_alerts;
    } in
    let state = quota_state_of config b.count in
    if ltb (config.hard_quota_per_hour + config.overage_grace_requests) b.count
    then (
      record {
        reply = too_many_requests (retry_after_seconds b.reset_at now);
        quota_state = state;
        usage_alert = alert;
        spike_alert = false;
      },
      s,
    )
    else detect_abuse now req state alert s

unfoldable pub tenant_endpoint_class_rate_limit_and_quota :
    Overrides → ℕ → LimitedRequest → Limits → ClassReply × Limits
unfolding meter_quota rate_limit_cleanup
tenant_endpoint_class_rate_limit_and_quota overrides now req s₀ =
    let s = rate_limit_cleanup now s₀ in
    let config =
      get_limit_config overrides (get_tenant_rate_limit_identity req) (classify_endpoint req) in
    let key = class_key req "throttle" in
    let bucket = s.class_buckets key in
    elim (admit rate_limit_window_ms config.throttle_per_minute now bucket) [
      | none ↦ (
        record {
          reply = too_many_requests (retry_after now bucket);
          quota_state = within_quota;
          usage_alert = false;
          spike_alert = false;
        },
        s,
      )
      | some b ↦ meter_quota now req config (record s { class_buckets = set key b s.class_buckets })
    ]
