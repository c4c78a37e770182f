-- ===== src/RateLimit/Chain.antt =====
-- The order of the limiters in `defineMiddlewares`: each runs only if the one before called `next`. What
-- the handler does afterwards to the state of the limiters is an event of its own, in Events.
use medusa_multi_tenancy.Prelude.{ℕ}
use medusa_multi_tenancy.RateLimit.{Limits}
use medusa_multi_tenancy.RateLimit.Endpoints.{LimitedRequest, Overrides}
use medusa_multi_tenancy.RateLimit.Limiters.{
  Reply, next, too_many_requests, tenant_ip_rate_limit, tenant_mutation_rate_limit,
  tenant_endpoint_class_rate_limit_and_quota,
}

-- `next()` goes on with the next middleware.
abbrev pub and_then : Reply × Limits → (Limits → Reply × Limits) → Reply × Limits
and_then (next, s) f = f s
and_then (too_many_requests n, s) f = (too_many_requests n, s)

unfoldable pub limit_request : Overrides → ℕ → LimitedRequest → Limits → Reply × Limits
limit_request overrides now req s = and_then (tenant_ip_rate_limit now req s) λ s₁.
    and_then (tenant_mutation_rate_limit now req s₁) λ s₂.
      let (r, s₃) = tenant_endpoint_class_rate_limit_and_quota overrides now req s₂ in (r.reply, s₃)

pub then_keeps :
    (P : Limits → Type 0) (r : Reply × Limits) (f : Limits → Reply × Limits)
    → P r.1
    → ((s : Limits) → P s → P (f s).1)
    → P (and_then r f).1
then_keeps P (next, s) f h k = k s h
then_keeps P (too_many_requests n, s) f h k = h

-- What every limiter keeps, the chain keeps.
module _ (overrides : Overrides) (P : Limits → Type 0)
    (ip : (now : ℕ) (req : LimitedRequest) (s : Limits)
      → P s
      → P (tenant_ip_rate_limit now req s).1)
    (mutation : (now : ℕ) (req : LimitedRequest) (s : Limits)
      → P s
      → P (tenant_mutation_rate_limit now req s).1)
    (quota : (now : ℕ) (req : LimitedRequest) (s : Limits)
      → P s
      → P (tenant_endpoint_class_rate_limit_and_quota overrides now req s).1) where
  pub limit_request_keeps :
      (now : ℕ) (req : LimitedRequest) (s : Limits) → P s → P (limit_request overrides now req s).1
  unfolding limit_request
  limit_request_keeps now req s h =
      then_keeps P (tenant_ip_rate_limit now req s) _ (ip now req s h) λ s₁ h₁.
        then_keeps P (tenant_mutation_rate_limit now req s₁) _ (mutation now req s₁ h₁)
          λ s₂ h₂. quota now req s₂ h₂
