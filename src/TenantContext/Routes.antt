-- ===== src/TenantContext/Routes.antt =====
-- modules/tenant-context/middleware.ts: the paths that need no tenant, and platform operators.
use medusa_multi_tenancy.Prelude.{
  String, Bool, false, ◌&&◌, ◌||◌, Option, none, some, List, [], ◌∷◌, str_eq, starts_with,
  or_default,
}
use medusa_multi_tenancy.Prelude.Text.{
  trim, to_lower_case, is_truthy, or_else, before, split, contains,
}
use medusa_multi_tenancy.World.{PayloadValue, text, flag}
use medusa_multi_tenancy.TenantAccess.Requests.{
  Header, absent, single, several, Metadata, AdminRequest,
}

unfoldable pub normalize_header_value : Header → Option String
normalize_header_value absent = none
normalize_header_value (single s) = some s
normalize_header_value (several s _) = some s

unfoldable pub get_pathname : AdminRequest → String
get_pathname req = or_else (before 63 (or_else req.path req.original_url)) "/"

abbrev pub is_admin_path : AdminRequest → Bool
is_admin_path req = starts_with (get_pathname req) "/admin"

abbrev pub is_store_path : AdminRequest → Bool
is_store_path req = starts_with (get_pathname req) "/store"

-- `/^<path>\/?$/i`, for a path in lower case
abbrev is_route : String → String → String → Bool
is_route path with_slash s = str_eq s path || str_eq s with_slash

-- `TENANT_OPTIONAL_ROUTE_PATTERNS`, on a path in lower case
abbrev matches_optional : String → Bool
matches_optional s =
    is_route "/health" "/health/" s
    || is_route "/store/tenants/signup" "/store/tenants/signup/" s
    || starts_with s "/store/apps/webhooks/"
    || is_route "/admin/tenants" "/admin/tenants/" s
    || is_route "/admin/tenants/active" "/admin/tenants/active/" s
    || starts_with s "/admin/tenant-access/"
    || is_route "/admin/tenants/invitations/accept" "/admin/tenants/invitations/accept/" s
    || starts_with s "/admin/auth/"
    || starts_with s "/auth/"

unfoldable pub is_tenant_optional_route : AdminRequest → Bool
unfolding get_pathname to_lower_case before
is_tenant_optional_route req = matches_optional (to_lower_case (get_pathname req))

-- the parts of `/admin/tenants/<id>/reactivate`, with or without a slash at the end
abbrev is_reactivation_path : List String → Bool
is_reactivation_path (a ∷ b ∷ c ∷ id ∷ d ∷ []) =
    str_eq a "" && str_eq b "admin" && str_eq c "tenants" && is_truthy id && str_eq d "reactivate"
is_reactivation_path (a ∷ b ∷ c ∷ id ∷ d ∷ e ∷ []) =
    str_eq a ""
    && str_eq b "admin"
    && str_eq c "tenants"
    && is_truthy id
    && str_eq d "reactivate"
    && str_eq e ""
is_reactivation_path _ = false

unfoldable pub allows_lifecycle_override : AdminRequest → Bool
unfolding get_pathname to_lower_case split before
allows_lifecycle_override req = is_reactivation_path (split 47 (to_lower_case (get_pathname req)))

unfoldable pub has_basic_api_key_auth : AdminRequest → Bool
unfolding normalize_header_value trim to_lower_case
has_basic_api_key_auth req =
    starts_with (to_lower_case (trim (or_default (normalize_header_value req.authorization) "")))
      "basic "

-- `isTruthy`
unfoldable pub is_truthy_value : PayloadValue → Bool
unfolding trim to_lower_case
is_truthy_value (flag b) = b
is_truthy_value (text s) = contains (to_lower_case (trim s)) ("true" ∷ "1" ∷ "yes" ∷ [])
is_truthy_value _ = false

-- one of `PLATFORM_OPERATOR_AUTH_METADATA_KEYS` is set
abbrev pub marks_operator : Metadata → Bool
marks_operator m =
    is_truthy_value m.platform_operator
    || is_truthy_value m.is_platform_operator
    || is_truthy_value m.is_admin
    || is_truthy_value m.admin

abbrev header_value : Option String → PayloadValue
header_value none = PayloadValue.null
header_value (some s) = text s

unfoldable pub is_platform_operator : AdminRequest → Bool
unfolding normalize_header_value has_basic_api_key_auth is_truthy_value
is_platform_operator req =
    has_basic_api_key_auth req
    || marks_operator req.auth_context.app_metadata
    || marks_operator req.auth_context.identity_metadata
    || is_truthy_value (header_value (normalize_header_value req.x_platform_operator))
