-- ===== src/TenantManagement/Invitations/Accept.antt =====
-- When `acceptInvitation` returns, and what it writes then.
use medusa_multi_tenancy.Prelude.{
  ◌≡◌, String, true, false, Option, none, some, arith, str_eq, starts_with, ltb, Bool-cases,
  Option-cases, inl, inr, ◌⊎◌,
}
use medusa_multi_tenancy.Schema.{Invitation, Membership, enabled, accepted, is_pending}
use medusa_multi_tenancy.Sql.Rows.{first}
use medusa_multi_tenancy.World.{
  Env, World, ServiceError, ok, thrown, invitation_not_found, invitation_not_pending,
  invitation_token_invalid, invitation_expired,
}
use medusa_multi_tenancy.TenantManagement.Members.{has_member_id}
use medusa_multi_tenancy.TenantManagement.Invitations.{
  has_token, member_with_email, token_prefix, accept_invitation,
}

module _ (env : Env) (token : String) (w : World env) where
  -- The invitation that the token finds can be accepted.
  pub record IsAcceptable (i : Invitation) : Type 0 where
    pub found : first env.sql (has_token token) w.invitations ≡ some i
    pub pending : is_pending i.status ≡ true
    pub prefixed : starts_with i.invitation_token (token_prefix i.tenant_id i.role) ≡ true
    pub unexpired : ltb i.expires_at w.now ≡ false

  abbrev pub accepted_row : Invitation → Invitation
  accepted_row r = record r { status = accepted; accepted_at = some w.now; updated_at = w.now }

  abbrev pub joined_row : Invitation → Membership → Membership
  joined_row i r = record r { role = i.role; status = enabled; updated_at = w.now }

  abbrev pub new_row : Invitation → Membership
  new_row i = record {
    id = env.random_uuid w.drawn;
    tenant_id = i.tenant_id;
    user_email = i.email;
    role = i.role;
    status = enabled;
    created_at = w.now;
    updated_at = w.now;
  }

  abbrev pub existing : Invitation → Option Membership
  existing i = first env.sql (member_with_email i.tenant_id i.email) w.memberships

  module _ {i : Invitation} (a : IsAcceptable i) where
    pub accept_returns :
        ((accept_invitation env token w).0 ≡ ok (i.tenant_id, i.email, i.role))
        × ((accept_invitation env token w).1.invitations
            ≡ env.sql.update (λ r. str_eq r.id i.id) accepted_row w.invitations)
    unfolding accept_invitation
    accept_returns = ground (arith, a.found, a.pending, a.prefixed, a.unexpired)

    pub accept_changes :
        {m : Membership}
        → existing i ≡ some m
        → (accept_invitation env token w).1.memberships
          ≡ env.sql.update (has_member_id m.id) (joined_row i) w.memberships
    unfolding accept_invitation
    accept_changes e = ground (arith, a.found, a.pending, a.prefixed, a.unexpired, e)

    pub accept_inserts :
        existing i ≡ none
        → (accept_invitation env token w).1.memberships ≡ env.sql.insert (new_row i) w.memberships
    unfolding accept_invitation
    accept_inserts e = ground (arith, a.found, a.pending, a.prefixed, a.unexpired, e)

  -- It throws and changes nothing, or the invitation could be accepted.
  pub accept_cases :
      ((e : ServiceError) × (accept_invitation env token w ≡ (thrown e, w)))
      ⊎ ((i : Invitation) × IsAcceptable i)
  unfolding accept_invitation
  accept_cases = elim (Option-cases (first env.sql (has_token token) w.invitations)) [
    | inl missing ↦ inl (invitation_not_found, ground arith)
    | inr (i, found) ↦ elim (Bool-cases (is_pending i.status)) [
      | inr used ↦ inl (invitation_not_pending, ground arith)
      | inl pending ↦
          elim (Bool-cases (starts_with i.invitation_token (token_prefix i.tenant_id i.role))) [
            | inr other ↦ inl (invitation_token_invalid, ground arith)
            | inl prefixed ↦ elim (Bool-cases (ltb i.expires_at w.now)) [
              | inl late ↦ inl (invitation_expired, ground arith)
              | inr unexpired ↦ inr (
                i,
                record {
                  found = found;
                  pending = pending;
                  prefixed = prefixed;
                  unexpired = unexpired;
                },
              )
            ]
          ]
    ]
  ]
