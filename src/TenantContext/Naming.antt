-- ===== src/TenantContext/Naming.antt =====
-- modules/tenant-context/middleware.ts: the tenant that a request itself names, `resolveTenantId`.
use medusa_multi_tenancy.Prelude.{
  ℕ, zero, suc, ◌-◌, String, Bool, true, false, not, ◌&&◌, ◌||◌, Option, none, some, List, ◌∷◌,
  filter, if◌then◌else◌, str_eq, leb, ◌==◌, or_default,
}
use medusa_multi_tenancy.Prelude.Text.{trim, normalize_email, is_truthy, or_else, before, split}
use medusa_multi_tenancy.Schema.{Tenant}
use medusa_multi_tenancy.Sql.Rows.{first}
use medusa_multi_tenancy.World.{Env, World}
use medusa_multi_tenancy.TenantManagement.Tenants.{has_slug}
use medusa_multi_tenancy.TenantAccess.Requests.{AdminRequest, ◌or◌, is_uuid}
use medusa_multi_tenancy.TenantAccess.Records.{ProcessEnv}
use medusa_multi_tenancy.TenantContext.Routes.{normalize_header_value}
use Prim.Native.Char.{Char, code}
use Prim.Native.String.{len, slice}

-- `[a-z0-9-]`
is_slug_char : Char → Bool
is_slug_char c = let n = code c in (leb 48 n && leb n 57) || (leb 97 n && leb n 122) || n == 45

-- every character passes, and there are at most so many
all_at_most : (Char → Bool) → ℕ → String → Bool
all_at_most ok n String.[] = true
all_at_most ok zero (String.◌∷◌ c s) = false
all_at_most ok (suc n) (String.◌∷◌ c s) = ok c && all_at_most ok n s

-- `normalizeSlug`, of an absent value too
unfoldable pub normalize_slug : Option String → Option String
unfolding all_at_most is_slug_char
normalize_slug none = none
normalize_slug (some value) =
    let normalized = normalize_email value in
    if is_truthy normalized && all_at_most is_slug_char 64 normalized then some normalized else none

-- `[0-9.]`
is_ip_char : Char → Bool
is_ip_char c = let n = code c in (leb 48 n && leb n 57) || n == 46

all_chars : (Char → Bool) → String → Bool
all_chars ok String.[] = true
all_chars ok (String.◌∷◌ c s) = ok c && all_chars ok s

-- `s.endsWith(t)`
abbrev ends_with : String → String → Bool
ends_with s t = leb (len t) (len s) && str_eq (slice s (len s - len t) (len s)) t

-- a host name that no tenant's subdomain stands in
is_plain_host : String → Bool
unfolding all_chars is_ip_char
is_plain_host hostname =
    not (is_truthy hostname)
    || str_eq hostname "localhost"
    || ends_with hostname ".localhost"
    || all_chars is_ip_char hostname

first_of_three : List String → Option String
first_of_three (a ∷ b ∷ c ∷ rest) = some a
first_of_three _ = none

-- `forwardedHost || hostHeader || ''`
abbrev truthy_or : Option String → String → String
truthy_or none other = other
truthy_or (some s) other = or_else s other

unfoldable pub get_subdomain_from_request : AdminRequest → Option String
unfolding normalize_header_value normalize_slug is_plain_host first_of_three
get_subdomain_from_request req =
    let named =
      truthy_or (normalize_header_value req.x_forwarded_host)
        (or_default (normalize_header_value req.host) "") in
    let hostname = before 58 (normalize_email (before 44 named)) in
    if is_plain_host hostname
    then none
    else normalize_slug (first_of_three (filter is_truthy (split 46 hostname)))

-- a text that is a UUID, trimmed
abbrev pub uuid_in : Option String → Option String
uuid_in none = none
uuid_in (some s) = let t = trim s in if is_truthy t && is_uuid t then some t else none

module _ (env : Env) (w : World env) where
  abbrev uuid_of_tenant : Option Tenant → Option String
  uuid_of_tenant none = none
  uuid_of_tenant (some t) = if is_uuid t.tenant_id then some t.tenant_id else none

  unfoldable pub resolve_tenant_id_from_slug : String → Option String
  resolve_tenant_id_from_slug slug = uuid_of_tenant (first env.sql (has_slug slug) w.tenants)

  -- a header that is no UUID is tried as a slug, an unfit one as the empty slug
  abbrev slug_in_header : Option String → Option String
  slug_in_header none = none
  slug_in_header (some s) =
      let t = trim s in
      let found = resolve_tenant_id_from_slug (or_default (normalize_slug (some t)) "") in
      if is_truthy t then found else none

  abbrev by_slug : Option String → Option String
  by_slug none = none
  by_slug (some slug) = resolve_tenant_id_from_slug slug

  unfoldable pub resolve_tenant_id : ProcessEnv → AdminRequest → Option String
  unfolding resolve_tenant_id_from_slug normalize_slug get_subdomain_from_request
      normalize_header_value
  resolve_tenant_id penv req =
      let header = normalize_header_value req.x_tenant_id in
      let query =
        if str_eq (or_default penv.node_env "") "production"
        then none
        else uuid_in req.query_tenant_id in
      uuid_in req.tenant_param
      or uuid_in header
      or slug_in_header header
      or by_slug (normalize_slug (normalize_header_value req.x_tenant_slug))
      or by_slug (normalize_slug req.query_tenant_slug)
      or by_slug (normalize_slug req.query_tenant)
      or by_slug (get_subdomain_from_request req)
      or query
