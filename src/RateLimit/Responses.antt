-- ===== src/RateLimit/Responses.antt =====
-- src/api/middlewares.ts: what `structuredErrorLoggingMiddleware` keeps and reports when a response is
-- finished: the error rate of the tenant, and signs that tenants leak into each other.
use medusa_multi_tenancy.Prelude.{
  ℕ, ◌+◌, ◌*◌, String, Bool, false, not, ◌&&◌, Option, none, some, [], ◌∷◌, if◌then◌else◌, str_eq,
  leb, or_default, one_if,
}
use medusa_multi_tenancy.Prelude.Text.{is_truthy, or_else}
use medusa_multi_tenancy.Prelude.Maps.{set, add}
use medusa_multi_tenancy.RuntimeState.{build_tenant_scoped_key}
use medusa_multi_tenancy.RateLimit.{
  ErrorBucket, Pattern, Limits, abuse_error_window_ms, leakage_pattern_window_ms,
}
use medusa_multi_tenancy.RateLimit.Endpoints.{
  LimitedRequest, class_text, classify_endpoint, get_tenant_rate_limit_identity,
}

-- A finished response. The actor's hash and the tenant of its token are computed elsewhere.
pub record Response : Type 0 where
  pub request : LimitedRequest
  pub status_code : ℕ
  pub actor_hash : Option String  -- `pseudonymize(getActorEmail(req))`
  pub auth_tenant : Option String  -- `getActiveTenantIdFromAuthContext(req)`

-- The alerts that are logged.
pub record Alerts : Type 0 where
  pub high_error_rate : Bool
  pub auth_mismatch : Bool
  pub cross_tenant : Bool

abbrev pub is_error : ℕ → Bool
is_error status_code = leb 400 status_code

-- The bucket after the response, and whether its error rate is reported: at least 35 in 100 errors
-- among at least 20 responses.
abbrev pub count_response : ℕ → ℕ → Option ErrorBucket → ErrorBucket × Bool
count_response now status_code none = (
  record {
    total = 1;
    errors = one_if (is_error status_code);
    reset_at = now + abuse_error_window_ms;
  },
  false,
)
count_response now status_code (some b) =
    if leb b.reset_at now
    then (
      record {
        total = 1;
        errors = one_if (is_error status_code);
        reset_at = now + abuse_error_window_ms;
      },
      false,
    )
    else (
      record b { total = b.total + 1; errors = b.errors + one_if (is_error status_code) },
      leb 20 (b.total + 1)
          && leb (35 * (b.total + 1)) (100 * (b.errors + one_if (is_error status_code))),
    )

abbrev pub error_rate_key : LimitedRequest → String
error_rate_key req =
    build_tenant_scoped_key (get_tenant_rate_limit_identity req)
      (class_text (classify_endpoint req) ∷ "error-rate" ∷ [])

abbrev pub auth_mismatch_key : Response → String → String
auth_mismatch_key r auth_tenant =
    build_tenant_scoped_key (get_tenant_rate_limit_identity r.request)
      ("auth-mismatch" ∷ or_else (or_default r.actor_hash "") "unknown" ∷ auth_tenant ∷ [])

-- `authTenantId && authTenantId !== tenantId`, and not reported before
abbrev pub is_auth_mismatch : Response → Option String → Limits → Bool
is_auth_mismatch r none s = false
is_auth_mismatch r (some auth_tenant) s =
    is_truthy auth_tenant
    && not (str_eq auth_tenant (get_tenant_rate_limit_identity r.request))
    && not (s.leakage_alerts (auth_mismatch_key r auth_tenant))

abbrev pub mark_auth_mismatch : Response → Option String → Limits → Limits
mark_auth_mismatch r none s = s
mark_auth_mismatch r (some auth_tenant) s =
    if is_auth_mismatch r (some auth_tenant) s
    then record s { leakage_alerts = add (auth_mismatch_key r auth_tenant) s.leakage_alerts }
    else s

abbrev pub cross_tenant_key : String → String → Pattern → String
cross_tenant_key tenant_id actor_hash prior =
    build_tenant_scoped_key tenant_id ("cross-tenant-pattern" ∷ actor_hash ∷ prior.tenant_id ∷ [])

-- The actor has used another tenant a short while ago, and it has not been reported before.
abbrev pub is_cross_tenant : ℕ → String → String → Option Pattern → Limits → Bool
is_cross_tenant now tenant_id actor_hash none s = false
is_cross_tenant now tenant_id actor_hash (some prior) s =
    not (str_eq prior.tenant_id tenant_id)
    && leb now (prior.updated_at + leakage_pattern_window_ms)
    && not (s.leakage_alerts (cross_tenant_key tenant_id actor_hash prior))

abbrev pub mark_cross_tenant : ℕ → String → String → Option Pattern → Limits → Limits
mark_cross_tenant now tenant_id actor_hash none s = s
mark_cross_tenant now tenant_id actor_hash (some prior) s =
    if is_cross_tenant now tenant_id actor_hash (some prior) s
    then record s {
      leakage_alerts = add (cross_tenant_key tenant_id actor_hash prior) s.leakage_alerts;
    }
    else s

-- the part on `actorTenantPatternWindow`, for an actor that is known
abbrev pub follow_actor : ℕ → String → Option String → Limits → Bool × Limits
follow_actor now tenant_id none s = (false, s)
follow_actor now tenant_id (some actor_hash) s =
    let prior = s.actor_patterns actor_hash in
    let marked = mark_cross_tenant now tenant_id actor_hash prior s in
    (
      is_cross_tenant now tenant_id actor_hash prior s,
      record marked {
        actor_patterns =
            set actor_hash (record { tenant_id = tenant_id; updated_at = now })
              marked.actor_patterns;
      },
    )

-- the callback on `finish`
unfoldable pub finish_response : ℕ → Response → Limits → Alerts × Limits
finish_response now r s₀ =
    let key = error_rate_key r.request in
    let (b, high) = count_response now r.status_code (s₀.error_rate_buckets key) in
    let s₁ : Limits = record s₀ { error_rate_buckets = set key b s₀.error_rate_buckets } in
    let (cross, s₂) =
      follow_actor now (get_tenant_rate_limit_identity r.request) r.actor_hash
        (mark_auth_mismatch r r.auth_tenant s₁) in
    (
      record {
        high_error_rate = high;
        auth_mismatch = is_auth_mismatch r r.auth_tenant s₁;
        cross_tenant = cross;
      },
      s₂,
    )
