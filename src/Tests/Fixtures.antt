-- ===== src/Tests/Fixtures.antt =====
-- A small database of one tenant with two members, and an invitation to it.
use medusa_multi_tenancy.Prelude.{
  ℕ, zero, suc, String, Bool, true, none, [], ◌∷◌, if◌then◌else◌, ltb,
}
use medusa_multi_tenancy.Schema.{
  Tenant, Membership, Invitation, TenantStatus, TenantRole, MemberStatus, InvitationStatus,
}
use medusa_multi_tenancy.Sql.Memory.{memory}
use medusa_multi_tenancy.World.{Env, World, responded}

abbrev pub uuid : ℕ → String
uuid zero = "u0"
uuid (suc zero) = "u1"
uuid _ = "u2"

abbrev hex_draw : ℕ → ℕ → String
hex_draw zero _ = "0a"
hex_draw (suc zero) _ = "1b"
hex_draw (suc (suc zero)) _ = "2c"
hex_draw _ _ = "3d"

-- A stand-in for the HMAC: the secret itself.
abbrev toy_hmac : String → String → String
toy_hmac payload secret = secret

abbrev pub env : Env
env = record {
  sql = memory;
  random_uuid = uuid;
  payload_digest = λ _. "digest";
  random_bytes = hex_draw;
  takes_token = λ _. true;
  hmac = toy_hmac;
  fetch = λ n _. if ltb n 2 then responded 503 else responded 200;
}

abbrev pub acme : TenantStatus → Bool → Tenant
acme status legal_hold = record {
  id = "acme";
  tenant_id = "acme";
  slug = "acme";
  name = "Acme";
  owner_email = "ann@acme.io";
  status = status;
  settings_json = record {
    base = record {
      locale = "en";
      timezone = "UTC";
      currency_code = "usd";
      billing_mode = "prepaid";
      retention_days = 30;
    };
    access_control = none;
  };
  legal_hold = legal_hold;
  suspended_at = none;
  deactivated_at = none;
  deletion_requested_at = none;
  scheduled_purge_at = none;
  deleted_at = none;
  created_at = 0;
  updated_at = 0;
}

abbrev pub ann : Membership
ann = record {
  id = "m1";
  tenant_id = "acme";
  user_email = "ann@acme.io";
  role = TenantRole.owner;
  status = MemberStatus.enabled;
  created_at = 0;
  updated_at = 0;
}

abbrev pub bob : Membership
bob = record {
  id = "m2";
  tenant_id = "acme";
  user_email = "bob@acme.io";
  role = TenantRole.member;
  status = MemberStatus.enabled;
  created_at = 0;
  updated_at = 0;
}

-- An invitation of the owner, as an admin.
abbrev pub to_ann : Invitation
to_ann = record {
  id = "i1";
  tenant_id = "acme";
  email = "ann@acme.io";
  role = TenantRole.admin;
  invitation_token = "acme.admin.n1";
  status = InvitationStatus.pending;
  invited_by = none;
  accepted_at = none;
  expires_at = 1000;
  updated_at = 0;
}

abbrev pub office : TenantStatus → Bool → World env
office status legal_hold = record {
  tenants = acme status legal_hold ∷ [];
  memberships = ann ∷ bob ∷ [];
  invitations = to_ann ∷ [];
  audit_log = [];
  billing_accounts = [];
  entitlements = [];
  usage = [];
  meter_events = [];
  app_installations = [];
  app_scopes = [];
  app_webhooks = [];
  app_credentials = [];
  webhook_deliveries = [];
  user_access = [];
  themes = [];
  theme_configs = [];
  theme_publish_statuses = [];
  drawn = 0;
  random_drawn = 0;
  fetched = 0;
  now = 500;
  invalidated = [];
}
