-- ===== src/TenantManagement/Invitations/RoundTrip.antt =====
-- tenant-management/service.ts: `acceptInvitation` on a token of `inviteUserToTenant`.
use Prim.Native.String.{◌++◌ as text_append}
use text.Mathlib.TextPositions.{starts_with-append}
use medusa_multi_tenancy.Prelude.{
  ℕ, suc, ◌+◌, ◌*◌, ◌≤◌, ◌≡◌, refl, ◌∙◌, String, Bool, true, false, ◌&&◌, Option, none, some,
  one_if, arith, str_eq, starts_with, ltb, eq_iff, eq_refl, ◌⊎◌, inl, inr, Bool-cases,
}
use medusa_multi_tenancy.Prelude.Text.{normalize_email}
use medusa_multi_tenancy.Schema.{Invitation, TenantRole, pending, same_role, is_pending}
use medusa_multi_tenancy.Sql.Rows.{rows, first, first_meets, first_of_pos, rows_mono, rows_of_key}
use medusa_multi_tenancy.World.{Env, World, Result, ok, thrown, invitation_token_syntax}
use medusa_multi_tenancy.TenantManagement.Lifecycle.{day_ms}
use medusa_multi_tenancy.TenantManagement.Members.{normalize_role}
use medusa_multi_tenancy.TenantManagement.Invitations.{
  has_token, token_prefix, default_expiry_days, normalize_inviter, invite_user_to_tenant,
  accept_invitation,
}
use medusa_multi_tenancy.TenantManagement.Invitations.Accept.{IsAcceptable, accept_returns}

module _ (env : Env) (tenant_id email : String) (role invited_by : Option String) (days : Option ℕ)
    (w : World env) where
  -- The token that the call draws,
  abbrev pub token_of : String
  token_of = text_append (token_prefix tenant_id (normalize_role role)) (env.random_uuid w.drawn)

  -- and the row that it inserts.
  abbrev pub invitation_of : Invitation
  invitation_of = record {
    id = env.random_uuid (suc w.drawn);
    tenant_id = tenant_id;
    email = normalize_email email;
    role = normalize_role role;
    invitation_token = token_of;
    status = pending;
    invited_by = normalize_inviter invited_by;
    accepted_at = none;
    expires_at = w.now + default_expiry_days days * day_ms;
    updated_at = w.now;
  }

  abbrev pub invited : Result Invitation × World env
  invited = invite_user_to_tenant env tenant_id email role invited_by days w

  invite_returns :
      env.takes_token token_of ≡ true
      → (invited.0 ≡ ok invitation_of)
        × (invited.1.invitations ≡ env.sql.insert invitation_of w.invitations)
  unfolding invite_user_to_tenant
  invite_returns taken = rw taken (refl, refl)

  invite_throws :
      env.takes_token token_of ≡ false
      → invited ≡ (thrown invitation_token_syntax, record w { drawn = suc (suc w.drawn) })
  unfolding invite_user_to_tenant
  invite_throws refused = rw refused refl

  module _ (taken : env.takes_token token_of ≡ true)
      (fresh : rows env.sql (has_token token_of) w.invitations ≡ 0) (later : ℕ) where
    abbrev pub sent : World env
    sent = record invited.1 { now = later }

    sent_count :
        (q : Invitation → Bool)
        → rows env.sql (λ r. has_token token_of r && q r) sent.invitations
          ≡ one_if (q invitation_of)
    sent_count q = rw (invite_returns taken).1 (
        ground (
          arith,
          env.sql.rows-insert (λ r. has_token token_of r && q r) invitation_of w.invitations,
          fresh,
          eq_refl token_of,
          rows_mono env.sql (λ r. has_token token_of r && q r) (has_token token_of) w.invitations
              (λ r. left (has_token token_of r) (q r)),
        ))
      where
        left : (a b : Bool) → (a && b) ≡ true → a ≡ true
        left true b e = refl
        left false b e = e

    sent_once : rows env.sql (has_token token_of) sent.invitations ≡ 1
    sent_once = rw (invite_returns taken).1 (
        ground (
          arith,
          env.sql.rows-insert (has_token token_of) invitation_of w.invitations,
          fresh,
          eq_refl token_of,
        ))

    module _ {i : Invitation}
        (found : first env.sql (has_token token_of) sent.invitations ≡ some i) where
      agrees : (q : Invitation → Bool) → q i ≡ q invitation_of
      agrees q = ground (
        arith,
        sent_count q,
        rows_of_key env.sql (has_token token_of) (has_token token_of) q sent.invitations found
            (first_meets env.sql (has_token token_of) sent.invitations found)
            (omega (arith, sent_once)),
      )

      sent_fields :
          (i.tenant_id ≡ tenant_id)
          × (i.email ≡ normalize_email email)
          × (i.role ≡ normalize_role role)
      sent_fields = (
        (eq_iff _ _).0 (agrees (λ r. str_eq r.tenant_id tenant_id) ∙ eq_refl tenant_id),
        (eq_iff _ _).0 (
            agrees (λ r. str_eq r.email (normalize_email email)) ∙ eq_refl (normalize_email email)),
        same_role-eq (i.role) (normalize_role role) (
            agrees (λ r. same_role r.role (normalize_role role))
            ∙ same_role_self (normalize_role role)),
      )
        where
          same_role-eq : (a b : TenantRole) → same_role a b ≡ true → a ≡ b
          same_role-eq a b h = ground arith

          same_role_self : (a : TenantRole) → same_role a a ≡ true
          same_role_self a = ground arith

      sent-IsAcceptable :
          later ≤ w.now + default_expiry_days days * day_ms → IsAcceptable env token_of sent i
      sent-IsAcceptable h = record {
        found = found;
        pending = agrees (λ r. is_pending r.status);
        prefixed =
            agrees (λ r. starts_with r.invitation_token (token_prefix r.tenant_id r.role))
            ∙ starts_with-append (token_prefix tenant_id (normalize_role role))
                (env.random_uuid w.drawn);
        unexpired =
            agrees (λ r. ltb r.expires_at later)
            ∙ ltb_of_le (w.now + default_expiry_days days * day_ms) later h;
      }
        where
          ltb_of_le : (a b : ℕ) → b ≤ a → ltb a b ≡ false
          ltb_of_le a b h = ground arith

    accepts :
        later ≤ w.now + default_expiry_days days * day_ms
        → (accept_invitation env token_of sent).0
          ≡ ok (tenant_id, normalize_email email, normalize_role role)
    accepts h =
        let (i, found) =
          first_of_pos env.sql (has_token token_of) sent.invitations (omega (arith, sent_once)) in
        let (at_tenant, at_email, at_role) = sent_fields found in
        cc (
          (accept_returns env token_of sent (sent-IsAcceptable found h)).0,
          at_tenant,
          at_email,
          at_role,
        )

  -- Where the new token is in no stored invitation, `inviteUserToTenant` does one of two things. If the
  -- column takes the token, it returns the invitation, and the token is accepted at every time up to
  -- the expiry, for the tenant, the trimmed address in lower case and the normalized role that were
  -- asked for. If the column does not take it, as the UUID column of the migration does not, the call
  -- fails with the error of the database, and no table changes.
  pub accept-invite :
      (later : ℕ)
      → rows env.sql (has_token token_of) w.invitations ≡ 0
      → later ≤ w.now + default_expiry_days days * day_ms
      → ((env.takes_token token_of ≡ true)
          × (invited.0 ≡ ok invitation_of)
          × ((accept_invitation env token_of (record invited.1 { now = later })).0
              ≡ ok (tenant_id, normalize_email email, normalize_role role)))
        ⊎ ((env.takes_token token_of ≡ false)
            × (invited ≡ (thrown invitation_token_syntax, record w { drawn = suc (suc w.drawn) })))
  accept-invite later fresh h = elim (Bool-cases (env.takes_token token_of)) [
    | inl taken ↦ inl (taken, (invite_returns taken).0, accepts taken fresh later h)
    | inr refused ↦ inr (refused, invite_throws refused)
  ]
