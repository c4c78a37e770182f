-- ===== src/Tests/Limits.antt =====
-- The limiters on a few requests, and a time in its billing period.
use medusa_multi_tenancy.Prelude.{
  length, leb, List, Bool, Option, ℕ, ◌≡◌, ◌≤◌, ◌<◌, refl, true, false, none, some, [], ◌∷◌, arith,
  or_default, eq_refl,
}
use medusa_multi_tenancy.Prelude.Maps.{set, empty_map}
use medusa_multi_tenancy.Prelude.Text.{trim, before, split, includes, to_lower_case, to_upper_case}
use medusa_multi_tenancy.RuntimeState.{
  normalize_tenant_id, join_parts, build_tenant_scoped_key, is_tenant_scoped_key,
}
use medusa_multi_tenancy.RateLimit.{
  Limits, no_limits, invalidate_tenant, rate_limit_cleanup, rate_limit_max_requests,
}
use medusa_multi_tenancy.RateLimit.Endpoints.{
  LimitedRequest, Overrides, no_overrides, get_limit_config, pathname, classify_endpoint,
  get_tenant_rate_limit_identity, get_client_ip, mutation_limit,
}
use medusa_multi_tenancy.RateLimit.Limiters.{
  next, too_many_requests, ip_rate_limit_key, class_key, quota_alert_key, count_abuse,
  tenant_ip_rate_limit, tenant_mutation_rate_limit, tenant_endpoint_class_rate_limit_and_quota,
}
use medusa_multi_tenancy.RateLimit.Chain.{limit_request}
use medusa_multi_tenancy.RateLimit.Window.{let_through, window_limit, retry_after_suffices}
use medusa_multi_tenancy.RateLimit.Abuse.{history, spike_threshold_is_constant}
use medusa_multi_tenancy.RateLimit.Forgetting.{IsForgotten, invalidate_tenant-IsForgotten}
use medusa_multi_tenancy.RuntimeState.DocumentIndex.{
  IndexCall, write, forget, spares, query, upsert, call_indices, query_ignores_others,
  written_is_found,
}
use medusa_multi_tenancy.RateLimit.Responses.{Response, finish_response, auth_mismatch_key}
use medusa_multi_tenancy.RateLimit.Events.{
  Event, arrives, finishes, invalidates, handle, handle_all, IsForeign,
}
use medusa_multi_tenancy.RateLimit.Leakage.{auth_mismatch_once}
use medusa_multi_tenancy.RateLimit.Alerts.{usage_alert_once}
use medusa_multi_tenancy.Billing.Calendar.{compute_period_start, compute_period_end, period_holds}

abbrev report : LimitedRequest
report = record {
  path = "/x";
  original_url = "/x";
  method = "GET";
  context_tenant = some "acme";
  tenant_header = none;
  tenant_param = none;
  forwarded_for = none;
  ip = some "1.1.1.1";
}

nothing_held : (rate_limit_cleanup 5 no_limits).rate_limit_buckets (ip_rate_limit_key report) ≡ none
unfolding rate_limit_cleanup
nothing_held = refl

key_of_acme : IsForeign (ip_rate_limit_key report) "beta"
unfolding is_tenant_scoped_key build_tenant_scoped_key normalize_tenant_id join_parts trim
    get_client_ip before split
key_of_acme = refl

abbrev busy_minute : List Event
busy_minute = arrives 6 report ∷ invalidates "beta" ∷ arrives 60004 report ∷ []

window_limit_example :
    let_through no_overrides (ip_rate_limit_key report) (arrives 5 report ∷ busy_minute) no_limits
    ≤ rate_limit_max_requests
window_limit_example =
    window_limit no_overrides (ip_rate_limit_key report) 5 report busy_minute no_limits
      (eq_refl (ip_rate_limit_key report)) nothing_held (omega arith, (omega arith, tt))
      (key_of_acme, tt)

-- The bucket of the requests above is full.
abbrev full_window : Limits
full_window = record no_limits {
  rate_limit_buckets =
      set (ip_rate_limit_key report) (record { count = 120; reset_at = 60000 }) empty_map;
}

refused : (tenant_ip_rate_limit 59500 report full_window).0 ≡ too_many_requests 1
unfolding tenant_ip_rate_limit rate_limit_cleanup
refused = ground (arith, eq_refl (ip_rate_limit_key report))

retry_after_suffices_example :
    (tenant_ip_rate_limit 60500 report (tenant_ip_rate_limit 59500 report full_window).1).0 ≡ next
retry_after_suffices_example =
    retry_after_suffices 59500 60500 1 report full_window refused (omega arith)

abbrev two_windows : List Event
two_windows = arrives 5 report ∷ invalidates "beta" ∷ arrives 60010 report ∷ []

spike_threshold_is_constant_example :
    let s = handle_all no_overrides two_windows no_limits in
    (history (s.abuse_buckets (class_key report "abuse")) ≡ 0)
    × (or_default (count_abuse 60011 (s.abuse_buckets (class_key report "abuse"))).1 25 ≡ 25)
spike_threshold_is_constant_example =
    spike_threshold_is_constant no_overrides two_windows (class_key report "abuse") 60011

abbrev one_request_quota : Overrides
one_request_quota tenant_id endpoint_class = record {
  throttle_per_minute = none;
  soft_quota_per_hour = some 1;
  hard_quota_per_hour = none;
  overage_grace_requests = none;
}

alerted :
    (handle_all one_request_quota (arrives 5 report ∷ []) no_limits).quota_alerts
      (quota_alert_key report)
    ≡ true
unfolding handle_all handle limit_request tenant_ip_rate_limit tenant_mutation_rate_limit
    tenant_endpoint_class_rate_limit_and_quota rate_limit_cleanup get_limit_config mutation_limit
    classify_endpoint get_tenant_rate_limit_identity get_client_ip build_tenant_scoped_key
    normalize_tenant_id join_parts trim pathname before split includes to_lower_case to_upper_case
alerted = refl

alert_of_acme : IsForeign (quota_alert_key report) "beta"
unfolding is_tenant_scoped_key build_tenant_scoped_key normalize_tenant_id join_parts trim
    classify_endpoint get_tenant_rate_limit_identity pathname before split includes to_lower_case
    to_upper_case
alert_of_acme = refl

abbrev an_hour_later : List Event
an_hour_later = invalidates "beta" ∷ arrives 3600010 report ∷ []

usage_alert_once_example :
    (tenant_endpoint_class_rate_limit_and_quota one_request_quota 3600020 report (
      handle_all one_request_quota an_hour_later
        (handle_all one_request_quota (arrives 5 report ∷ []) no_limits))).0.usage_alert
    ≡ false
usage_alert_once_example =
    usage_alert_once one_request_quota report (arrives 5 report ∷ []) an_hour_later 3600020 alerted
      (alert_of_acme, tt)

period_holds_example :
    (compute_period_start 5000000000 ≤ 5000000000) × (5000000000 < compute_period_end 5000000000)
period_holds_example = period_holds 5000000000

invalidate_tenant-IsForgotten_example :
    IsForgotten
      (build_tenant_scoped_key "acme" ("ip-rate-limit" ∷ "1.1.1.1" ∷ []))
      (invalidate_tenant "acme" full_window)
invalidate_tenant-IsForgotten_example =
    invalidate_tenant-IsForgotten "acme" ("ip-rate-limit" ∷ "1.1.1.1" ∷ []) full_window

-- A response to a member of another tenant.
abbrev foreign : Response
foreign = record {
  request = report;
  status_code = 200;
  actor_hash = some "h_1";
  auth_tenant = some "beta";
}

foreign_reported : (finish_response 5 foreign no_limits).0.auth_mismatch ≡ true
unfolding finish_response get_tenant_rate_limit_identity trim
foreign_reported = refl

mismatch_of_acme : IsForeign (auth_mismatch_key foreign "beta") "beta"
unfolding is_tenant_scoped_key build_tenant_scoped_key normalize_tenant_id join_parts trim
    get_tenant_rate_limit_identity
mismatch_of_acme = refl

abbrev between : List Event
between = arrives 10 report ∷ finishes 11 foreign ∷ invalidates "beta" ∷ []

auth_mismatch_once_example :
    (finish_response 900 foreign
      (handle_all no_overrides between (finish_response 5 foreign no_limits).1)).0.auth_mismatch
    ≡ false
auth_mismatch_once_example =
    auth_mismatch_once no_overrides 5 900 foreign foreign "beta" between no_limits refl refl refl
      foreign_reported (mismatch_of_acme, tt)

abbrev no_predicate : Option (ℕ → Bool)
no_predicate = none

abbrev calls_of_beta : List (IndexCall ℕ)
calls_of_beta = write "beta" "d1" 8 ∷ forget "beta" ∷ []

spares_acme : spares "acme" calls_of_beta ≡ true
unfolding normalize_tenant_id trim
spares_acme = refl

query_ignores_others_example :
    query "acme" no_predicate (call_indices calls_of_beta (upsert "acme" "d1" 7 empty_map))
    ≡ query "acme" no_predicate (upsert "acme" "d1" 7 empty_map)
query_ignores_others_example =
    query_ignores_others calls_of_beta "acme" no_predicate (upsert "acme" "d1" 7 empty_map)
      spares_acme

written_is_found_example :
    0
    < length (
        query "acme"
          (some (λ d. leb 7 d))
          (call_indices calls_of_beta (upsert "acme" "d1" 7 empty_map)))
written_is_found_example =
    written_is_found "acme" "d1" 7 (λ d. leb 7 d) calls_of_beta empty_map refl spares_acme
