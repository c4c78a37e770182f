-- ===== src/TenantManagement/Invitations.antt =====
-- tenant-management/service.ts: `inviteUserToTenant` and `acceptInvitation`.
pub mod Accept
pub mod SingleUse
pub mod Joining
pub mod RoundTrip
use Prim.Native.String.{◌++◌ as text_append}
use medusa_multi_tenancy.Prelude.{
  ℕ, zero, suc, ◌+◌, ◌*◌, String, Bool, not, ◌&&◌, Option, none, some, [], ◌∷◌, str_eq, starts_with,
  ltb,
}
use medusa_multi_tenancy.Prelude.Text.{normalize_email, or_null}
use medusa_multi_tenancy.Schema.{
  Membership, TenantRole, enabled, Invitation, pending, accepted, is_pending,
}
use medusa_multi_tenancy.Sql.Rows.{first}
use medusa_multi_tenancy.World.{
  Env, Exec, PayloadValue, ◌>>=◌, ◌>>◌, pure, gets, or_throw, throw_if, modify, draw_uuid,
  invalidate_tenant_runtime_state, invitation_not_found, invitation_not_pending,
  invitation_token_invalid, invitation_expired, invitation_token_syntax,
}
use medusa_multi_tenancy.AuditLog.{record_event}
use medusa_multi_tenancy.TenantManagement.Lifecycle.{day_ms}
use medusa_multi_tenancy.TenantManagement.Members.{normalize_role, role_text, has_member_id}

-- `${tenant_id}.${role}.`
unfoldable pub token_prefix : String → TenantRole → String
token_prefix tenant_id role =
    text_append tenant_id (text_append "." (text_append (role_text role) "."))

abbrev pub default_expiry_days : Option ℕ → ℕ
default_expiry_days none = 7
default_expiry_days (some zero) = 7
default_expiry_days (some (suc n)) = suc n

abbrev pub normalize_inviter : Option String → Option String
normalize_inviter none = none
normalize_inviter (some s) = or_null (normalize_email s)

abbrev pub inviter_or_system : Option String → Option String
inviter_or_system none = some "system"
inviter_or_system (some s) = some s

-- `where({ invitation_token })`
abbrev pub has_token : String → Invitation → Bool
has_token token i = str_eq i.invitation_token token

-- `where({ tenant_id, user_email })`
abbrev pub member_with_email : String → String → Membership → Bool
member_with_email tenant_id email m = str_eq m.tenant_id tenant_id && str_eq m.user_email email

module _ (env : Env) where
  -- The insert into `tenant_invitation`: where the column `invitation_token` does not take the token,
  -- the database refuses it.
  abbrev pub insert_invitation : Invitation → Exec env Unit
  insert_invitation invitation = do
    throw_if (not (env.takes_token invitation.invitation_token)) invitation_token_syntax
    modify λ w. record w { invitations = env.sql.insert invitation w.invitations }

  unfoldable pub invite_user_to_tenant :
      String → String → Option String → Option String → Option ℕ → Exec env Invitation
  unfolding token_prefix
  invite_user_to_tenant tenant_id email role_input invited_by expires_in_days = do
    let role = normalize_role role_input
    nonce ← draw_uuid
    id ← draw_uuid
    now ← gets (λ w. w.now)
    let invitation : Invitation = record {
      id = id;
      tenant_id = tenant_id;
      email = normalize_email email;
      role = role;
      invitation_token = text_append (token_prefix tenant_id role) nonce;
      status = pending;
      invited_by = normalize_inviter invited_by;
      accepted_at = none;
      expires_at = now + default_expiry_days expires_in_days * day_ms;
      updated_at = now;
    }
    insert_invitation invitation
    record_event env (inviter_or_system invitation.invited_by) tenant_id "invitation_sent"
        invitation.id
        (("email", PayloadValue.text invitation.email)
          ∷ ("role", PayloadValue.text (role_text invitation.role))
          ∷ ("expires_at", PayloadValue.number invitation.expires_at)
          ∷ [])
    pure invitation

  -- The membership that an accepted invitation gives: an old one is changed, or a new one made.
  join_tenant : Invitation → Option Membership → Exec env Unit
  join_tenant i (some m) = modify λ w. record w {
    memberships =
        env.sql.update (has_member_id m.id)
          (λ r. record r { role = i.role; status = enabled; updated_at = w.now }) w.memberships;
  }
  join_tenant i none = do
    id ← draw_uuid
    modify λ w. record w {
      memberships =
          env.sql.insert
            (record {
              id = id;
              tenant_id = i.tenant_id;
              user_email = i.email;
              role = i.role;
              status = enabled;
              created_at = w.now;
              updated_at = w.now;
            })
            w.memberships;
    }

  -- Returns the tenant, the address and the role. (Where the column does not take the token, the
  -- database throws in place of finding nothing.)
  unfoldable pub accept_invitation : String → Exec env (String × String × TenantRole)
  unfolding join_tenant token_prefix
  accept_invitation token = do
    found ← gets (λ w. first env.sql (has_token token) w.invitations)
    i ← or_throw found invitation_not_found
    throw_if (not (is_pending i.status)) invitation_not_pending
    throw_if (not (starts_with i.invitation_token (token_prefix i.tenant_id i.role)))
        invitation_token_invalid
    now ← gets (λ w. w.now)
    throw_if (ltb i.expires_at now) invitation_expired
    existing ← gets (λ w. first env.sql (member_with_email i.tenant_id i.email) w.memberships)
    join_tenant i existing
    modify λ w. record w {
      invitations =
          env.sql.update (λ r. str_eq r.id i.id)
            (λ r. record r { status = accepted; accepted_at = some w.now; updated_at = w.now })
            w.invitations;
    }
    record_event env (some i.email) i.tenant_id "invitation_accepted" i.id
        (("email", PayloadValue.text i.email) ∷ ("role", PayloadValue.text (role_text i.role)) ∷ [])
    invalidate_tenant_runtime_state i.tenant_id
    pure (i.tenant_id, i.email, i.role)
