-- ===== src/RateLimit/Events.antt =====
-- src/api/middlewares.ts: what happens to the maps and sets of the limiters, over sequences of events.
--
-- The services invalidate what the process remembers of a tenant (a change of a role, the removal of a
-- member, an accepted invitation, a change of the tenant's status), and that purges them too.
use medusa_multi_tenancy.Prelude.{ℕ, ◌≡◌, String, false, List, [], ◌∷◌}
use medusa_multi_tenancy.RuntimeState.{is_tenant_scoped_key}
use medusa_multi_tenancy.RateLimit.{Limits, invalidate_tenant}
use medusa_multi_tenancy.RateLimit.Endpoints.{LimitedRequest, Overrides}
use medusa_multi_tenancy.RateLimit.Limiters.{
  tenant_ip_rate_limit, tenant_mutation_rate_limit, tenant_endpoint_class_rate_limit_and_quota,
}
use medusa_multi_tenancy.RateLimit.Chain.{limit_request, limit_request_keeps}
use medusa_multi_tenancy.RateLimit.Responses.{Response, finish_response}

-- A request comes, a response is finished, or a service calls `invalidateTenantRuntimeState`.
pub data Event : Type 0 where
  arrives : ℕ → LimitedRequest → Event
  finishes : ℕ → Response → Event
  invalidates : String → Event

unfoldable pub handle : Overrides → Event → Limits → Limits
handle overrides (arrives now req) s = (limit_request overrides now req s).1
handle overrides (finishes now r) s = (finish_response now r s).1
handle overrides (invalidates tenant_id) s = invalidate_tenant tenant_id s

unfoldable pub handle_all : Overrides → List Event → Limits → Limits
handle_all overrides [] s = s
handle_all overrides (e ∷ es) s = handle_all overrides es (handle overrides e s)

-- Every tenant that is invalidated meets the condition.
abbrev pub InvalidatesOnly : (String → Type 0) → List Event → Type 0
InvalidatesOnly Allowed [] = Unit
InvalidatesOnly Allowed (invalidates tenant_id ∷ es) =
    Allowed tenant_id × InvalidatesOnly Allowed es
InvalidatesOnly Allowed (_ ∷ es) = InvalidatesOnly Allowed es

-- The key is not one of the tenant's.
abbrev pub IsForeign : String → String → Type 0
IsForeign key tenant_id = is_tenant_scoped_key key tenant_id ≡ false

-- No tenant is invalidated that the key belongs to.
abbrev pub Spares : String → List Event → Type 0
Spares key = InvalidatesOnly (IsForeign key)

abbrev pub Unrestricted : String → Type 0
Unrestricted tenant_id = Unit

pub invalidates_any : (events : List Event) → InvalidatesOnly Unrestricted events
invalidates_any [] = tt
invalidates_any (invalidates tenant_id ∷ es) = (tt, invalidates_any es)
invalidates_any (arrives now req ∷ es) = invalidates_any es
invalidates_any (finishes now r ∷ es) = invalidates_any es

-- What the limiters, the callback on responses and the invalidations keep, all events keep.
module _ (overrides : Overrides) (Allowed : String → Type 0) (P : Limits → Type 0)
    (ip : (now : ℕ) (req : LimitedRequest) (s : Limits)
      → P s
      → P (tenant_ip_rate_limit now req s).1)
    (mutation : (now : ℕ) (req : LimitedRequest) (s : Limits)
      → P s
      → P (tenant_mutation_rate_limit now req s).1)
    (quota : (now : ℕ) (req : LimitedRequest) (s : Limits)
      → P s
      → P (tenant_endpoint_class_rate_limit_and_quota overrides now req s).1)
    (finish : (now : ℕ) (r : Response) (s : Limits) → P s → P (finish_response now r s).1)
    (forget : (tenant_id : String) (s : Limits)
      → Allowed tenant_id
      → P s
      → P (invalidate_tenant tenant_id s)) where
  pub events_keep :
      (events : List Event) (s : Limits)
      → InvalidatesOnly Allowed events
      → P s
      → P (handle_all overrides events s)
  unfolding handle_all handle
  events_keep [] s only h = h
  events_keep (arrives now req ∷ es) s only h =
      events_keep es (limit_request overrides now req s).1 only
        (limit_request_keeps overrides P ip mutation quota now req s h)
  events_keep (finishes now r ∷ es) s only h =
      events_keep es (finish_response now r s).1 only (finish now r s h)
  events_keep (invalidates tenant_id ∷ es) s (allowed, only) h =
      events_keep es (invalidate_tenant tenant_id s) only (forget tenant_id s allowed h)
