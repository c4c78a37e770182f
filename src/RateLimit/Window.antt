-- ===== src/RateLimit/Window.antt =====
-- How many requests of one tenant and address a window lets through.
use medusa_multi_tenancy.Prelude.{
  ℕ, ◌+◌, ◌*◌, ◌≤◌, ◌<◌, ◌≡◌, refl, String, Bool, true, false, ◌&&◌, none, some, List, [], ◌∷◌, leb,
  arith, str_eq, eq_iff, eq_refl, one_if, Bool-cases, inl, inr,
}
use medusa_multi_tenancy.RuntimeState.{purge_tenant_entries_from_map}
use medusa_multi_tenancy.RateLimit.{
  Bucket, Limits, invalidate_tenant, rate_limit_cleanup, rate_limit_window_ms,
  rate_limit_max_requests,
}
use medusa_multi_tenancy.RateLimit.Endpoints.{LimitedRequest, Overrides}
use medusa_multi_tenancy.RateLimit.Limiters.{
  Reply, next, too_many_requests, ip_rate_limit_key, tenant_ip_rate_limit,
  tenant_mutation_rate_limit, tenant_endpoint_class_rate_limit_and_quota,
}
use medusa_multi_tenancy.RateLimit.Chain.{and_then, limit_request, then_keeps}
use medusa_multi_tenancy.RateLimit.Responses.{Response, finish_response}
use medusa_multi_tenancy.RateLimit.Events.{Event, arrives, finishes, invalidates, IsForeign, Spares}

abbrev pub is_next : Reply → Bool
is_next next = true
is_next (too_many_requests _) = false

-- The request has the bucket of this key in `tenantIpRateLimitMiddleware`.
abbrev pub is_for : String → LimitedRequest → Bool
is_for key req = str_eq (ip_rate_limit_key req) key

-- How many of the requests with this key the limiters let through, from the state `s` on.
unfoldable pub let_through : Overrides → String → List Event → Limits → ℕ
let_through overrides key [] s = 0
let_through overrides key (arrives now req ∷ es) s =
    let (reply, s') = limit_request overrides now req s in
    one_if (is_for key req && is_next reply) + let_through overrides key es s'
let_through overrides key (finishes now r ∷ es) s =
    let_through overrides key es (finish_response now r s).1
let_through overrides key (invalidates tenant_id ∷ es) s =
    let_through overrides key es (invalidate_tenant tenant_id s)

-- Every request comes before the time.
abbrev pub AllBefore : ℕ → List Event → Type 0
AllBefore t [] = Unit
AllBefore t (arrives now req ∷ es) = (now < t) × AllBefore t es
AllBefore t (_ ∷ es) = AllBefore t es

module _ (overrides : Overrides) (key : String) (b : Bucket) where
  abbrev Holds : Limits → Type 0
  Holds s = s.rate_limit_buckets key ≡ some b

  module _ (now : ℕ) (req : LimitedRequest) (live : now < b.reset_at) where
    mutation-Holds : (s : Limits) → Holds s → Holds (tenant_mutation_rate_limit now req s).1
    unfolding tenant_mutation_rate_limit
    mutation-Holds s h = ground arith

    class-Holds :
        (s : Limits)
        → Holds s
        → Holds (tenant_endpoint_class_rate_limit_and_quota overrides now req s).1
    unfolding tenant_endpoint_class_rate_limit_and_quota
    class-Holds s h = ground arith

    -- The limiters behind the first leave the bucket, and a request that they let through has passed it.
    chain-Holds :
        (s : Limits)
        → Holds (tenant_ip_rate_limit now req s).1
        → Holds (limit_request overrides now req s).1
    unfolding limit_request
    chain-Holds s h = then_keeps Holds (tenant_ip_rate_limit now req s) _ h λ s₁ h₁.
        then_keeps Holds (tenant_mutation_rate_limit now req s₁) _ (mutation-Holds s₁ h₁)
          λ s₂ h₂. class-Holds s₂ h₂

  finish-Holds : (now : ℕ) (r : Response) (s : Limits) → Holds s → Holds (finish_response now r s).1
  unfolding finish_response
  finish-Holds now r s h = ground arith

  forget-Holds :
      (tenant_id : String) (s : Limits)
      → IsForeign key tenant_id
      → Holds s
      → Holds (invalidate_tenant tenant_id s)
  unfolding invalidate_tenant purge_tenant_entries_from_map
  forget-Holds tenant_id s foreign h = rw foreign h

stops_chain :
    (r : Reply × Limits) (f : Limits → Reply × Limits)
    → is_next r.0 ≡ false
    → is_next (and_then r f).0 ≡ false
stops_chain (next, s) f h = cc
stops_chain (too_many_requests n, s) f h = refl

chain_stops :
    (overrides : Overrides) (now : ℕ) (req : LimitedRequest) (s : Limits)
    → is_next (tenant_ip_rate_limit now req s).0 ≡ false
    → is_next (limit_request overrides now req s).0 ≡ false
unfolding limit_request
chain_stops overrides now req s h = stops_chain (tenant_ip_rate_limit now req s) _ h

module _ (key : String) (now : ℕ) (req : LimitedRequest) (s : Limits) {b : Bucket}
    (held : s.rate_limit_buckets key ≡ some b) (live : now < b.reset_at) where
  other_key :
      is_for key req ≡ false → (tenant_ip_rate_limit now req s).1.rate_limit_buckets key ≡ some b
  unfolding tenant_ip_rate_limit
  other_key h = ground arith

  full :
      is_for key req ≡ true
      → rate_limit_max_requests ≤ b.count
      → (is_next (tenant_ip_rate_limit now req s).0 ≡ false)
        × ((tenant_ip_rate_limit now req s).1.rate_limit_buckets key ≡ some b)
  unfolding tenant_ip_rate_limit
  full h f = ground (arith, eq_iff (ip_rate_limit_key req) key)

  room :
      is_for key req ≡ true
      → b.count < rate_limit_max_requests
      → (is_next (tenant_ip_rate_limit now req s).0 ≡ true)
        × ((tenant_ip_rate_limit now req s).1.rate_limit_buckets key
            ≡ some (record b { count = b.count + 1 }))
  unfolding tenant_ip_rate_limit
  room h f = ground (arith, eq_iff (ip_rate_limit_key req) key)

-- The rest of a window that is open: other events may come between.
module _ (overrides : Overrides) (key : String) where
  window_rest :
      (events : List Event) (s : Limits) (b : Bucket)
      → s.rate_limit_buckets key ≡ some b
      → b.count ≤ rate_limit_max_requests
      → AllBefore b.reset_at events
      → Spares key events
      → let_through overrides key events s + b.count ≤ rate_limit_max_requests
  unfolding let_through
  window_rest [] s b held fits before spared = omega arith
  window_rest (finishes now r ∷ es) s b held fits before spared =
      window_rest es (finish_response now r s).1 b (finish-Holds overrides key b now r s held) fits
        before spared
  window_rest (invalidates tenant_id ∷ es) s b held fits before (foreign, spared) =
      window_rest es (invalidate_tenant tenant_id s) b
        (forget-Holds overrides key b tenant_id s foreign held) fits before spared
  window_rest (arrives now req ∷ es) s b held fits (live, before) spared =
      let s' = (limit_request overrides now req s).1 in
      elim (Bool-cases (is_for key req)) [
        | inr other ↦ ground (
          arith,
          other,
          window_rest es s' b
              (chain-Holds overrides key b now req live s (other_key key now req s held live other))
              fits before spared,
        )
        | inl same ↦ elim (Bool-cases (leb rate_limit_max_requests b.count)) [
          | inl at_limit ↦
              let (refused, kept) = full key now req s held live same (ground (arith, at_limit)) in
              ground (
                arith,
                same,
                chain_stops overrides now req s refused,
                window_rest es s' b (chain-Holds overrides key b now req live s kept) fits before
                    spared,
              )
          | inr below ↦
              let (_, counted) = room key now req s held live same (ground (arith, below)) in
              let b' : Bucket = record b { count = b.count + 1 } in
              ground (
                arith,
                same,
                one_if_le (is_next (limit_request overrides now req s).0),
                window_rest es s' b' (chain-Holds overrides key b' now req live s counted)
                    (ground (arith, below)) before spared,
              )
        ]
      ]
    where
      one_if_le : (b : Bool) → one_if b ≤ 1
      one_if_le b = ground arith

opened :
    (key : String) (now : ℕ) (req : LimitedRequest) (s : Limits)
    → is_for key req ≡ true
    → (rate_limit_cleanup now s).rate_limit_buckets key ≡ none
    → ((tenant_ip_rate_limit now req s).1.rate_limit_buckets key
        ≡ some (record { count = 1; reset_at = now + rate_limit_window_ms }))
unfolding tenant_ip_rate_limit
opened key now req s same none_held = ground (arith, eq_iff (ip_rate_limit_key req) key)

-- From a request on whose tenant and address have no live bucket, of all requests in the next
-- 60 seconds at most 120 with that tenant and address are let through by the limiters, whatever other
-- requests, responses and invalidations come between, as long as their tenant is not invalidated.
pub window_limit :
    (overrides : Overrides) (key : String) (now : ℕ) (req : LimitedRequest) (rest : List Event)
    (s : Limits)
    → is_for key req ≡ true
    → (rate_limit_cleanup now s).rate_limit_buckets key ≡ none
    → AllBefore (now + rate_limit_window_ms) rest
    → Spares key rest
    → let_through overrides key (arrives now req ∷ rest) s ≤ rate_limit_max_requests
unfolding let_through
window_limit overrides key now req rest s same none_held before spared =
    let b : Bucket = record { count = 1; reset_at = now + rate_limit_window_ms } in
    ground (
      arith,
      same,
      window_rest overrides key rest (limit_request overrides now req s).1 b
          (chain-Holds overrides key b now req (omega arith) s
            (opened key now req s same none_held))
          (omega arith) before spared,
    )

-- A client that `tenantIpRateLimitMiddleware` refuses, and that waits for the `retry-after` of the
-- refusal, in seconds, or longer, is let through by that middleware, where nothing comes between: its
-- window has passed by then. The limiters behind it have windows of their own, and may still refuse.
pub retry_after_suffices :
    (now later seconds : ℕ) (req : LimitedRequest) (s : Limits)
    → (tenant_ip_rate_limit now req s).0 ≡ too_many_requests seconds
    → now + seconds * 1000 ≤ later
    → (tenant_ip_rate_limit later req (tenant_ip_rate_limit now req s).1).0 ≡ next
unfolding tenant_ip_rate_limit
retry_after_suffices now later seconds req s h w = ground (arith, eq_refl (ip_rate_limit_key req))
