-- ===== src/Apps/Inbound.antt =====
-- modules/apps/service.ts: `verifyInboundWebhook`, and modules/apps/middleware.ts, which asks it.
pub mod Verified
pub mod Rotated
pub mod Uninstalled
use medusa_multi_tenancy.Prelude.{
  ℕ, ◌+◌, ◌-◌, ◌*◌, String, Bool, true, false, not, ◌&&◌, Option, none, some, List, [], ◌∷◌, map,
  length, if◌then◌else◌, leb, ltb, ◌==◌, str_eq, starts_with, or_default, is_some,
}
use medusa_multi_tenancy.Prelude.Text.{trim, is_truthy}
use medusa_multi_tenancy.Schema.{Tenant, AppCredential, AppInstallation, is_installed}
use medusa_multi_tenancy.World.{Env, World, Exec, gets}
use medusa_multi_tenancy.TenantManagement.Tenants.{is_active}
use medusa_multi_tenancy.TenantAccess.Requests.{Header, absent, single, several}
use medusa_multi_tenancy.Apps.Joins.{flat_map, latest}
use Prim.Native.Char.{Char, code}
use Prim.Native.String.{len, slice}

-- the value of a hexadecimal digit, in either case
hex_value : Char → Option ℕ
hex_value c =
    let n = code c in
    if leb 48 n && leb n 57
    then some (n - 48)
    else if leb 97 n && leb n 102
    then some (n - 87)
    else if leb 65 n && leb n 70
    then some (n - 55)
    else none

-- The bytes before the first character that is no digit; `high` is a digit that waits for its second.
decode : Option ℕ → String → List ℕ
decode high String.[] = []
decode none (String.◌∷◌ c s) =
    let value = hex_value c in let rest = decode value s in if is_some value then rest else []
decode (some h) (String.◌∷◌ c s) =
    let value = hex_value c in
    let rest = decode none s in if is_some value then (h * 16 + or_default value 0) ∷ rest else []

-- `Buffer.from(s, 'hex')`
unfoldable pub from_hex : String → List ℕ
unfolding decode hex_value
from_hex = decode none

-- `timingSafeEqual(a, b)`
abbrev pub same_bytes : List ℕ → List ℕ → Bool
same_bytes [] [] = true
same_bytes (a ∷ as') (b ∷ bs) = a == b && same_bytes as' bs
same_bytes _ _ = false

-- `signature.startsWith('sha256=') ? signature.slice(7) : signature`
unfoldable pub provided_of : String → String
provided_of signature =
    if starts_with signature "sha256=" then slice signature 7 (len signature) else signature

-- a row of the query: the credential, and the tenant of its installation
pub record Candidate : Type 0 where
  pub credential : AppCredential
  pub tenant_id : String

-- the conditions of the query and of its joins
abbrev pub active_credential : String → AppCredential → Bool
active_credential app_id c = str_eq c.app_id app_id && c.is_active

abbrev pub installation_of : AppCredential → AppInstallation → Bool
installation_of c i = str_eq i.id c.app_id && is_installed i.status

abbrev pub active_tenant : String → Tenant → Bool
active_tenant tenant_id t = str_eq t.tenant_id tenant_id && is_active t.status

module _ (env : Env) where
  module _ (w : World env) where
    abbrev pub in_tenants : AppCredential → AppInstallation → List Candidate
    in_tenants c i =
        map (λ _. record { credential = c; tenant_id = i.tenant_id })
          (env.sql.select (active_tenant i.tenant_id) w.tenants)

    abbrev pub in_installations : AppCredential → List Candidate
    in_installations c =
        flat_map (in_tenants c) (env.sql.select (installation_of c) w.app_installations)

    unfoldable pub candidates : String → List Candidate
    candidates app_id =
        flat_map in_installations (env.sql.select (active_credential app_id) w.app_credentials)

  -- the signature is that of the body under the secret of the credential
  unfoldable pub is_signed : String → String → AppCredential → Bool
  is_signed raw_body signature c =
      let expected = from_hex (env.hmac raw_body c.secret) in
      let provided = from_hex (provided_of signature) in
      length expected == length provided && same_bytes expected provided

  abbrev pub accept : String → String → Option Candidate → Option String
  accept raw_body signature none = none
  accept raw_body signature (some x) =
      if is_signed raw_body signature x.credential then some x.tenant_id else none

  -- the tenant that the webhook is accepted for
  unfoldable pub verify_inbound_webhook : String → String → String → World env → Option String
  verify_inbound_webhook app_id raw_body signature w =
      accept raw_body signature (latest (λ x. x.credential.created_at) (candidates w app_id))

  -- the answer of `appWebhookSignatureVerificationMiddleware`: the status of a refusal, or `next()`
  abbrev pub judge : Option String → Option ℕ
  judge none = some 401
  judge (some tenant_id) = none

  -- `typeof signature !== 'string' || !signature.trim()`
  abbrev signature_in : Header → Option String
  signature_in (single s) = if is_truthy (trim s) then some s else none
  signature_in _ = none

  abbrev check_signature : String → String → Option String → World env → Option ℕ
  check_signature app_id raw_body none w = some 401
  check_signature app_id raw_body (some signature) w =
      judge (verify_inbound_webhook app_id raw_body signature w)

  -- of the route's parameter, the header and the body as text
  unfoldable pub app_webhook_signature_verification :
      String → Header → String → World env → Option ℕ
  app_webhook_signature_verification app_id signature raw_body w =
      let checked = check_signature app_id raw_body (signature_in signature) w in
      if is_truthy app_id then checked else some 400
