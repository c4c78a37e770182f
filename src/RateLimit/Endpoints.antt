-- ===== src/RateLimit/Endpoints.antt =====
-- src/api/middlewares.ts: which limits a request falls under.
use medusa_multi_tenancy.Prelude.{
  ℕ, String, Bool, true, false, not, ◌&&◌, ◌||◌, Option, none, some, List, [], ◌∷◌, find,
  if◌then◌else◌, str_eq, or_default,
}
use medusa_multi_tenancy.Prelude.Text.{
  trim, to_lower_case, to_upper_case, is_truthy, or_else, before, split, includes,
}

-- What the limiters read of a request.
pub record LimitedRequest : Type 0 where
  pub path : String
  pub original_url : String
  pub method : String
  pub context_tenant : Option String  -- `tenantContextStorage.getStore()?.tenantId`
  pub tenant_header : Option String  -- the first value of `x-tenant-id`
  pub tenant_param : Option String  -- `req.params.tenant_id`
  pub forwarded_for : Option String  -- the first value of `x-forwarded-for`
  pub ip : Option String

pub data EndpointClass : Type 0 where
  auth write_heavy reporting api_exports : EndpointClass

abbrev pub class_text : EndpointClass → String
class_text auth = "auth"
class_text write_heavy = "write-heavy"
class_text reporting = "reporting"
class_text api_exports = "api-exports"

-- The alert ratio is given in hundredths.
pub record ClassConfig : Type 0 where
  pub throttle_per_minute : ℕ
  pub soft_quota_per_hour : ℕ
  pub hard_quota_per_hour : ℕ
  pub alert_threshold_percent : ℕ
  pub overage_grace_requests : ℕ

-- `ENDPOINT_CLASS_LIMITS`
abbrev pub endpoint_class_limits : EndpointClass → ClassConfig
endpoint_class_limits auth = record {
  throttle_per_minute = 60;
  soft_quota_per_hour = 600;
  hard_quota_per_hour = 750;
  alert_threshold_percent = 80;
  overage_grace_requests = 25;
}
endpoint_class_limits write_heavy = record {
  throttle_per_minute = 180;
  soft_quota_per_hour = 2500;
  hard_quota_per_hour = 3000;
  alert_threshold_percent = 80;
  overage_grace_requests = 100;
}
endpoint_class_limits reporting = record {
  throttle_per_minute = 90;
  soft_quota_per_hour = 800;
  hard_quota_per_hour = 1000;
  alert_threshold_percent = 75;
  overage_grace_requests = 40;
}
endpoint_class_limits api_exports = record {
  throttle_per_minute = 20;
  soft_quota_per_hour = 120;
  hard_quota_per_hour = 160;
  alert_threshold_percent = 70;
  overage_grace_requests = 10;
}

-- `TenantClassOverride`
pub record ClassOverride : Type 0 where
  pub throttle_per_minute : Option ℕ
  pub soft_quota_per_hour : Option ℕ
  pub hard_quota_per_hour : Option ℕ
  pub overage_grace_requests : Option ℕ

-- the overrides that `TENANT_LIMIT_OVERRIDES` holds
abbrev pub Overrides : Type 0
Overrides = String → EndpointClass → ClassOverride

abbrev pub no_overrides : Overrides
no_overrides tenant_id endpoint_class = record {
  throttle_per_minute = none;
  soft_quota_per_hour = none;
  hard_quota_per_hour = none;
  overage_grace_requests = none;
}

unfoldable pub get_limit_config : Overrides → String → EndpointClass → ClassConfig
get_limit_config overrides tenant_id endpoint_class =
    let base = endpoint_class_limits endpoint_class in
    let override = overrides tenant_id endpoint_class in
    record {
      throttle_per_minute = or_default override.throttle_per_minute base.throttle_per_minute;
      soft_quota_per_hour = or_default override.soft_quota_per_hour base.soft_quota_per_hour;
      hard_quota_per_hour = or_default override.hard_quota_per_hour base.hard_quota_per_hour;
      alert_threshold_percent = base.alert_threshold_percent;
      overage_grace_requests =
          or_default override.overage_grace_requests base.overage_grace_requests;
    }

-- `(req.path || req.originalUrl || '').split('?')[0]`
unfoldable pub pathname : LimitedRequest → String
pathname req = before b'?' (or_else req.path req.original_url)

includes_any : String → List String → Bool
includes_any s [] = false
includes_any s (t ∷ ts) = includes s t || includes_any s ts

-- the classes that the path decides
class_of_path : String → Option EndpointClass
unfolding includes_any
class_of_path path =
    if includes_any path ("/auth" ∷ "/login" ∷ "/signup" ∷ "/password" ∷ "/token" ∷ [])
    then some auth
    else if includes_any path ("/export" ∷ "/exports" ∷ "/download" ∷ [])
    then some api_exports
    else if includes_any path ("/analytics" ∷ "/report" ∷ "/timeseries" ∷ "/top-products" ∷ [])
    then some reporting
    else none

-- `['POST', 'PUT', 'PATCH', 'DELETE'].includes(method)`
abbrev is_mutation : String → Bool
is_mutation method =
    str_eq method "POST" || str_eq method "PUT" || str_eq method "PATCH" || str_eq method "DELETE"

unfoldable pub classify_endpoint : LimitedRequest → EndpointClass
unfolding class_of_path pathname
classify_endpoint req =
    or_default (class_of_path (to_lower_case (pathname req)))
      (if is_mutation (to_upper_case req.method) then write_heavy else reporting)

-- `value?.trim()`, where that is not empty
trimmed : Option String → Option String
trimmed none = none
trimmed (some s) = if is_truthy (trim s) then some (trim s) else none

unfoldable pub get_tenant_rate_limit_identity : LimitedRequest → String
unfolding trimmed
get_tenant_rate_limit_identity req =
    or_default (trimmed req.context_tenant)
      (or_default (trimmed req.tenant_header) (or_default (trimmed req.tenant_param) "system"))

unfoldable pub get_client_ip : LimitedRequest → String
get_client_ip req = elim req.forwarded_for [
  | some header ↦
      if is_truthy header then trim (before b',' header) else or_default req.ip "unknown"
  | none ↦ or_default req.ip "unknown"
]

-- A path pattern, segment by segment: a fixed word, one of several words, or `[^/]+`.
pub data Segment : Type 0 where
  word : String → Segment
  one_of : List String → Segment
  parameter : Segment

pub record MutationLimit : Type 0 where
  pub method : String
  pub segments : List Segment
  pub max_requests : ℕ
  pub scope : String

is_one_of : String → List String → Bool
is_one_of s [] = false
is_one_of s (t ∷ ts) = str_eq s t || is_one_of s ts

matches_segment : Segment → String → Bool
unfolding is_one_of
matches_segment (word w) s = str_eq w s
matches_segment (one_of ws) s = is_one_of s ws
matches_segment parameter s = is_truthy s

-- The whole path matches; one slash may follow.
matches_segments : List Segment → List String → Bool
unfolding matches_segment
matches_segments [] [] = true
matches_segments [] (s ∷ []) = not (is_truthy s)
matches_segments [] (s ∷ _ ∷ _) = false
matches_segments (p ∷ ps) [] = false
matches_segments (p ∷ ps) (s ∷ ss) = matches_segment p s && matches_segments ps ss

-- `pathRegex.test(pathname)`: letters of either case
unfoldable pub matches_path : List Segment → String → Bool
unfolding matches_segments
matches_path segments path = matches_segments (word "" ∷ segments) (split b'/' (to_lower_case path))

-- `TENANT_MUTATION_RATE_LIMITS`
abbrev pub tenant_mutation_rate_limits : List MutationLimit
tenant_mutation_rate_limits =
    record {
      method = "POST";
      segments = word "store" ∷ word "checkout" ∷ [];
      max_requests = 30;
      scope = "checkout";
    }
    ∷ record {
      method = "POST";
      segments = word "admin" ∷ word "apps" ∷ [];
      max_requests = 20;
      scope = "app-install";
    }
    ∷ record {
      method = "POST";
      segments = word "admin" ∷ word "tenants" ∷ parameter ∷ word "invite" ∷ [];
      max_requests = 20;
      scope = "tenant-invite";
    }
    ∷ record {
      method = "POST";
      segments =
          word "admin"
          ∷ word "orders"
          ∷ parameter
          ∷ one_of ("refunds" ∷ "returns" ∷ "fulfillments" ∷ [])
          ∷ [];
      max_requests = 60;
      scope = "order-mutation";
    }
    ∷ record {
      method = "POST";
      segments =
          word "admin"
          ∷ word "orders"
          ∷ parameter
          ∷ word "fulfillments"
          ∷ parameter
          ∷ word "tracking"
          ∷ [];
      max_requests = 60;
      scope = "order-mutation";
    }
    ∷ []

unfoldable pub mutation_limit : LimitedRequest → Option MutationLimit
unfolding pathname matches_path
mutation_limit req =
    find
      (λ config.
        str_eq config.method (to_upper_case req.method)
        && matches_path config.segments (pathname req))
      tenant_mutation_rate_limits
