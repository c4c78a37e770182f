-- ===== src/TenantAccess/Requests.antt =====
-- api/admin/_shared/auth-context.ts and api/utils/tenant.ts: what a request says of its caller and of
-- the tenant.
use medusa_multi_tenancy.Prelude.{
  ℕ, zero, suc, String, Bool, false, ◌&&◌, ◌||◌, Option, none, some, List, [], ◌∷◌, leb, ◌==◌,
  if◌then◌else◌,
}
use medusa_multi_tenancy.Prelude.Text.{
  trim, to_lower_case, normalize_email, is_truthy, includes, split,
}
use medusa_multi_tenancy.World.{PayloadValue, text}
use Prim.Native.Char.{Char, code}

-- A header of a request: absent, given once, or given several times.
pub data Header : Type 0 where
  absent : Header
  single : String → Header
  several : String → List String → Header

-- `auth_context.app_metadata` and the like: the values that the code reads of it, of any type.
pub record Metadata : Type 0 where
  pub email : PayloadValue
  pub active_tenant_id : PayloadValue
  pub tenant_role : PayloadValue
  pub platform_operator : PayloadValue
  pub is_platform_operator : PayloadValue
  pub is_admin : PayloadValue
  pub admin : PayloadValue

-- `req.auth_context`, absent values as `null`
pub record AuthContext : Type 0 where
  pub actor_email : PayloadValue
  pub email : PayloadValue
  pub actor_id : PayloadValue
  pub email_of_actor : PayloadValue  -- `actor.email`
  pub app_metadata : Metadata
  pub identity_metadata : Metadata  -- `auth_identity.app_metadata`
  pub user_metadata : Metadata

-- What is read of a request. A query parameter that is not a text is absent.
pub record AdminRequest : Type 0 where
  pub path : String
  pub original_url : String
  pub tenant_param : Option String  -- `req.params.tenant_id`
  pub has_auth_context : Bool  -- where it has none, the values of `auth_context` are absent
  pub auth_context : AuthContext
  pub authorization : Header
  pub host : Header
  pub x_forwarded_host : Header
  pub x_platform_operator : Header
  pub x_tenant_id : Header
  pub x_tenant_slug : Header
  pub x_user_email : Header
  pub query_tenant_slug : Option String
  pub query_tenant : Option String
  pub query_tenant_id : Option String

-- `typeof value === 'string'`
abbrev pub header_text : Header → PayloadValue
header_text (single s) = text s
header_text _ = PayloadValue.null

-- `possibleEmails` of `getActorEmail`
abbrev pub possible_emails : AdminRequest → List PayloadValue
possible_emails req =
    req.auth_context.actor_email
    ∷ req.auth_context.email
    ∷ req.auth_context.actor_id
    ∷ req.auth_context.email_of_actor
    ∷ req.auth_context.identity_metadata.email
    ∷ req.auth_context.user_metadata.email
    ∷ header_text req.x_user_email
    ∷ []

-- the loop of `getActorEmail`
unfoldable pub first_email : List PayloadValue → Option String
first_email [] = none
first_email (text value ∷ rest) =
    let later = first_email rest in
    let normalized = normalize_email value in
    if includes normalized "@" then some normalized else later
first_email (_ ∷ rest) = first_email rest

unfoldable pub get_actor_email : AdminRequest → Option String
unfolding first_email
get_actor_email req = first_email (possible_emails req)

-- `[0-9a-f]`, in either case
is_hex_digit : Char → Bool
is_hex_digit c =
    let n = code c in (leb 48 n && leb n 57) || (leb 97 n && leb n 102) || (leb 65 n && leb n 70)

-- as many hexadecimal digits as said, and no more
is_hex : ℕ → String → Bool
is_hex n String.[] = n == 0
is_hex zero (String.◌∷◌ c s) = false
is_hex (suc n) (String.◌∷◌ c s) = is_hex_digit c && is_hex n s

abbrev is_uuid_groups : (ℕ → String → Bool) → List String → Bool
is_uuid_groups hex (a ∷ b ∷ c ∷ d ∷ e ∷ []) = hex 8 a && hex 4 b && hex 4 c && hex 4 d && hex 12 e
is_uuid_groups hex _ = false

-- `UUID_REGEX.test(s)`
unfoldable pub is_uuid : String → Bool
unfolding is_hex is_hex_digit
is_uuid s = is_uuid_groups is_hex (split 45 s)

unfoldable pub normalize_uuid : PayloadValue → Option String
normalize_uuid (text value) =
    let normalized = trim value in
    if is_truthy normalized && is_uuid normalized then some normalized else none
normalize_uuid _ = none

-- `a || b`, for texts that are absent or not empty
infixr 4 ◌or◌
abbrev pub ◌or◌ : Option String → Option String → Option String
none or b = b
(some a) or b = some a

unfoldable pub get_active_tenant_id_from_auth_context : AdminRequest → Option String
unfolding normalize_uuid
get_active_tenant_id_from_auth_context req =
    normalize_uuid req.auth_context.app_metadata.active_tenant_id
    or normalize_uuid req.auth_context.identity_metadata.active_tenant_id
    or normalize_uuid req.auth_context.user_metadata.active_tenant_id

-- a trimmed_value text, where it is one and not blank
abbrev pub trimmed_value : PayloadValue → Option String
trimmed_value (text value) = let s = trim value in if is_truthy s then some s else none
trimmed_value _ = none

abbrev lowered : Option String → Option String
lowered none = none
lowered (some s) = some (to_lower_case s)

unfoldable pub get_tenant_role_from_auth_context : AdminRequest → Option String
get_tenant_role_from_auth_context req = lowered (
    trimmed_value req.auth_context.app_metadata.tenant_role
    or trimmed_value req.auth_context.identity_metadata.tenant_role
    or trimmed_value req.auth_context.user_metadata.tenant_role)

abbrev query_text : Option String → PayloadValue
query_text none = PayloadValue.null
query_text (some s) = text s

-- `getTenantIdFromRequest` of api/utils/tenant.ts
unfoldable pub get_tenant_id_from_request : AdminRequest → Option String
unfolding get_active_tenant_id_from_auth_context
get_tenant_id_from_request req =
    trimmed_value (header_text req.x_tenant_id)
    or trimmed_value (query_text req.query_tenant_id)
    or get_active_tenant_id_from_auth_context req
