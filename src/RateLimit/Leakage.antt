-- ===== src/RateLimit/Leakage.antt =====
-- src/api/middlewares.ts: the reports of a token of another tenant, over sequences of requests and
-- responses.
use medusa_multi_tenancy.Prelude.{ℕ, ◌≡◌, ap, ◌∙◌, String, true, false, some, List, arith, eq_refl}
use medusa_multi_tenancy.RuntimeState.{purge_tenant_entries_from_set}
use medusa_multi_tenancy.RateLimit.{Limits, invalidate_tenant}
use medusa_multi_tenancy.RateLimit.Endpoints.{LimitedRequest, Overrides}
use medusa_multi_tenancy.RateLimit.Limiters.{
  tenant_ip_rate_limit, tenant_mutation_rate_limit, tenant_endpoint_class_rate_limit_and_quota,
}
use medusa_multi_tenancy.RateLimit.Responses.{Response, finish_response, auth_mismatch_key}
use medusa_multi_tenancy.RateLimit.Events.{Event, handle_all, IsForeign, Spares, events_keep}

module _ (overrides : Overrides) (key : String) where
  abbrev IsMarked : Limits → Type 0
  IsMarked s = s.leakage_alerts key ≡ true

  ip-IsMarked :
      (now : ℕ) (req : LimitedRequest) (s : Limits)
      → IsMarked s
      → IsMarked (tenant_ip_rate_limit now req s).1
  unfolding tenant_ip_rate_limit
  ip-IsMarked now req s h = ground arith

  mutation-IsMarked :
      (now : ℕ) (req : LimitedRequest) (s : Limits)
      → IsMarked s
      → IsMarked (tenant_mutation_rate_limit now req s).1
  unfolding tenant_mutation_rate_limit
  mutation-IsMarked now req s h = ground arith

  class-IsMarked :
      (now : ℕ) (req : LimitedRequest) (s : Limits)
      → IsMarked s
      → IsMarked (tenant_endpoint_class_rate_limit_and_quota overrides now req s).1
  unfolding tenant_endpoint_class_rate_limit_and_quota
  class-IsMarked now req s h = ground arith

  finish-IsMarked :
      (now : ℕ) (r : Response) (s : Limits) → IsMarked s → IsMarked (finish_response now r s).1
  unfolding finish_response
  finish-IsMarked now r s h = ground arith

  forget-IsMarked :
      (tenant_id : String) (s : Limits)
      → IsForeign key tenant_id
      → IsMarked s
      → IsMarked (invalidate_tenant tenant_id s)
  unfolding invalidate_tenant purge_tenant_entries_from_set
  forget-IsMarked tenant_id s foreign h = rw foreign h

  events-IsMarked :
      (events : List Event) (s : Limits)
      → Spares key events
      → IsMarked s
      → IsMarked (handle_all overrides events s)
  events-IsMarked =
      events_keep overrides (IsForeign key) IsMarked ip-IsMarked mutation-IsMarked class-IsMarked
        finish-IsMarked forget-IsMarked

marks :
    (now : ℕ) (r : Response) (t : String) (s : Limits)
    → r.auth_tenant ≡ some t
    → (finish_response now r s).0.auth_mismatch ≡ true
    → (finish_response now r s).1.leakage_alerts (auth_mismatch_key r t) ≡ true
unfolding finish_response
marks now r t s a h = ground (arith, eq_refl (auth_mismatch_key r t))

silent :
    (now : ℕ) (r : Response) (t : String) (s : Limits)
    → r.auth_tenant ≡ some t
    → s.leakage_alerts (auth_mismatch_key r t) ≡ true
    → (finish_response now r s).0.auth_mismatch ≡ false
unfolding finish_response
silent now r t s a h = ground arith

-- Once a response has been reported because its token is for another tenant, no later one whose
-- mismatch has the same key, that is the same tenants and actor, is reported for it again, whatever
-- requests, responses and invalidations come between, as long as the tenant of the key is not
-- invalidated.
pub auth_mismatch_once :
    (overrides : Overrides) (now later : ℕ) (r r' : Response) (token_tenant : String)
    (between : List Event) (s : Limits)
    → r.auth_tenant ≡ some token_tenant
    → r'.auth_tenant ≡ some token_tenant
    → auth_mismatch_key r' token_tenant ≡ auth_mismatch_key r token_tenant
    → (finish_response now r s).0.auth_mismatch ≡ true
    → Spares (auth_mismatch_key r token_tenant) between
    → (finish_response later r'
        (handle_all overrides between (finish_response now r s).1)).0.auth_mismatch
      ≡ false
auth_mismatch_once overrides now later r r' token_tenant between s a a' same h spared =
    let s' = handle_all overrides between (finish_response now r s).1 in
    silent later r' token_tenant s' a' (
      ap s'.leakage_alerts same
      ∙ events-IsMarked overrides (auth_mismatch_key r token_tenant) between
          (finish_response now r s).1 spared (marks now r token_tenant s a h))
