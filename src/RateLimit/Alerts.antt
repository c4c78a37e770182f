-- ===== src/RateLimit/Alerts.antt =====
-- src/api/middlewares.ts: the usage alert of a tenant and an endpoint class, over sequences of events.
use Prim.Native.Char.{Char, code}
use Prim.Native.String.{◌++◌ as text_append}
use Prim.Native.String.append
use medusa_multi_tenancy.Prelude.{
  ℕ, ◌≡◌, refl, ap, sym, ◌∙◌, String, true, false, List, [], ◌∷◌, arith, str_eq, eq_iff, is_some,
  Bool-cases, inl, inr,
}
use medusa_multi_tenancy.Prelude.Text.{trim}
use medusa_multi_tenancy.RuntimeState.{
  build_tenant_scoped_key, join_parts, normalize_tenant_id, purge_tenant_entries_from_map,
  purge_tenant_entries_from_set,
}
use medusa_multi_tenancy.RateLimit.{Limits, no_limits, invalidate_tenant}
use medusa_multi_tenancy.RateLimit.Endpoints.{
  LimitedRequest, Overrides, EndpointClass, auth, class_text, classify_endpoint,
  get_tenant_rate_limit_identity,
}
use medusa_multi_tenancy.RateLimit.Limiters.{
  class_key, quota_alert_key, tenant_ip_rate_limit, tenant_mutation_rate_limit,
  tenant_endpoint_class_rate_limit_and_quota,
}
use medusa_multi_tenancy.RateLimit.Responses.{Response, finish_response}
use medusa_multi_tenancy.RateLimit.Events.{
  Event, handle_all, IsForeign, Spares, Unrestricted, invalidates_any, events_keep,
}

-- the code of the last character, 0 if there is none
last_or : Char → String → Char
last_or d String.[] = d
last_or d (String.◌∷◌ c s) = last_or c s

last_or-append : (d : Char) (s t : String) → last_or d (text_append s t) ≡ last_or (last_or d s) t
unfolding last_or
last_or-append d String.[] t = rw append.nil refl
last_or-append d (String.◌∷◌ c s) t = rw append.cons (last_or-append c s t)

-- The last character of a key with parts is that of its parts.
last_of_key :
    (d : Char) (id : String) (parts : List String)
    → last_or d (build_tenant_scoped_key id parts)
      ≡ last_or (last_or (last_or d "tenant::") (normalize_tenant_id id)) (join_parts parts)
unfolding build_tenant_scoped_key
last_of_key d id parts =
    last_or-append d "tenant::" (text_append (normalize_tenant_id id) (join_parts parts))
    ∙ last_or-append (last_or d "tenant::") (normalize_tenant_id id) (join_parts parts)

parts_quota :
    (d : Char) (k : EndpointClass) → last_or d (join_parts (class_text k ∷ "quota" ∷ [])) ≡ "a"
unfolding last_or join_parts trim
parts_quota d auth = refl
parts_quota d _ = refl

parts_alert :
    (d : Char) (k : EndpointClass)
    → last_or d (join_parts (class_text k ∷ "quota" ∷ "alert" ∷ [])) ≡ "t"
unfolding last_or join_parts trim
parts_alert d auth = refl
parts_alert d _ = refl

-- The key of an alert is never that of a usage bucket.
alert_key_ne_quota_key :
    (req req' : LimitedRequest) → str_eq (class_key req' "quota") (quota_alert_key req) ≡ false
alert_key_ne_quota_key req req' =
    elim (Bool-cases (str_eq (class_key req' "quota") (quota_alert_key req))) [
      | inr differ ↦ differ
      | inl same ↦ absurd (
          codes_differ (
            sym (parts_quota _ (classify_endpoint req'))
            ∙ sym (
                last_of_key "a" (get_tenant_rate_limit_identity req')
                  (class_text (classify_endpoint req') ∷ "quota" ∷ []))
            ∙ ap (last_or "a") ((eq_iff _ _).0 same)
            ∙ last_of_key "a" (get_tenant_rate_limit_identity req)
                (class_text (classify_endpoint req) ∷ "quota" ∷ "alert" ∷ [])
            ∙ parts_alert _ (classify_endpoint req)))
    ]
  where
    codes_differ : ◌≡◌ {A = Char} "a" "t" → ⊥
    codes_differ e = omega (arith, ap code e)

module _ (overrides : Overrides) (watched : LimitedRequest) where
  -- No usage bucket stands under the key of the alert,
  abbrev IsUnused : Limits → Type 0
  IsUnused s = is_some (s.quota_buckets (quota_alert_key watched)) ≡ false

  -- and the alert has been logged.
  abbrev HasAlerted : Limits → Type 0
  HasAlerted s = IsUnused s × (s.quota_alerts (quota_alert_key watched) ≡ true)

  ip-IsUnused :
      (now : ℕ) (req : LimitedRequest) (s : Limits)
      → IsUnused s
      → IsUnused (tenant_ip_rate_limit now req s).1
  unfolding tenant_ip_rate_limit
  ip-IsUnused now req s h = ground arith

  mutation-IsUnused :
      (now : ℕ) (req : LimitedRequest) (s : Limits)
      → IsUnused s
      → IsUnused (tenant_mutation_rate_limit now req s).1
  unfolding tenant_mutation_rate_limit
  mutation-IsUnused now req s h = ground arith

  class-IsUnused :
      (now : ℕ) (req : LimitedRequest) (s : Limits)
      → IsUnused s
      → IsUnused (tenant_endpoint_class_rate_limit_and_quota overrides now req s).1
  unfolding tenant_endpoint_class_rate_limit_and_quota
  class-IsUnused now req s h = ground (arith, alert_key_ne_quota_key watched req)

  ip-HasAlerted :
      (now : ℕ) (req : LimitedRequest) (s : Limits)
      → HasAlerted s
      → HasAlerted (tenant_ip_rate_limit now req s).1
  unfolding tenant_ip_rate_limit
  ip-HasAlerted now req s h = ground arith

  mutation-HasAlerted :
      (now : ℕ) (req : LimitedRequest) (s : Limits)
      → HasAlerted s
      → HasAlerted (tenant_mutation_rate_limit now req s).1
  unfolding tenant_mutation_rate_limit
  mutation-HasAlerted now req s h = ground arith

  class-HasAlerted :
      (now : ℕ) (req : LimitedRequest) (s : Limits)
      → HasAlerted s
      → HasAlerted (tenant_endpoint_class_rate_limit_and_quota overrides now req s).1
  unfolding tenant_endpoint_class_rate_limit_and_quota
  class-HasAlerted now req s h = ground (arith, alert_key_ne_quota_key watched req)

  finish-IsUnused :
      (now : ℕ) (r : Response) (s : Limits) → IsUnused s → IsUnused (finish_response now r s).1
  unfolding finish_response
  finish-IsUnused now r s h = ground arith

  finish-HasAlerted :
      (now : ℕ) (r : Response) (s : Limits) → HasAlerted s → HasAlerted (finish_response now r s).1
  unfolding finish_response
  finish-HasAlerted now r s h = ground arith

  forget-IsUnused :
      (tenant_id : String) (s : Limits)
      → Unrestricted tenant_id
      → IsUnused s
      → IsUnused (invalidate_tenant tenant_id s)
  unfolding invalidate_tenant purge_tenant_entries_from_map
  forget-IsUnused tenant_id s _ h = ground arith

  forget-HasAlerted :
      (tenant_id : String) (s : Limits)
      → IsForeign (quota_alert_key watched) tenant_id
      → HasAlerted s
      → HasAlerted (invalidate_tenant tenant_id s)
  unfolding invalidate_tenant purge_tenant_entries_from_set
  forget-HasAlerted tenant_id s foreign (unused, marked) =
      (forget-IsUnused tenant_id s tt unused, rw foreign marked)

  class_silent :
      (now : ℕ) (s : Limits)
      → HasAlerted s
      → (tenant_endpoint_class_rate_limit_and_quota overrides now watched s).0.usage_alert ≡ false
  unfolding tenant_endpoint_class_rate_limit_and_quota
  class_silent now s h = ground arith

  -- Once the usage alert of a tenant and an endpoint class has been logged, in a state that any events
  -- have led to from the empty one, no later request of that tenant and class logs it again, however
  -- many hours and usage windows pass, as long as the tenant is not invalidated: purging the expired
  -- usage buckets never clears the mark.
  pub usage_alert_once :
      (earlier later : List Event) (now : ℕ)
      → (handle_all overrides earlier no_limits).quota_alerts (quota_alert_key watched) ≡ true
      → Spares (quota_alert_key watched) later
      → (tenant_endpoint_class_rate_limit_and_quota overrides now watched
          (handle_all overrides later (handle_all overrides earlier no_limits))).0.usage_alert
        ≡ false
  usage_alert_once earlier later now logged spared =
      let s = handle_all overrides earlier no_limits in
      class_silent now (handle_all overrides later s) (
        events_keep overrides (IsForeign (quota_alert_key watched)) HasAlerted ip-HasAlerted
          mutation-HasAlerted class-HasAlerted finish-HasAlerted forget-HasAlerted later s spared
          (
            events_keep overrides Unrestricted IsUnused ip-IsUnused mutation-IsUnused class-IsUnused
                finish-IsUnused forget-IsUnused earlier no_limits (invalidates_any earlier) refl,
            logged,
          ))
