-- ===== src/TenantManagement/Invitations/SingleUse.antt =====
-- tenant-management/service.ts: a second call of `acceptInvitation` with the same token.
use medusa_multi_tenancy.Prelude.{
  ◌≤◌, ◌≡◌, refl, ap, ◌∙◌, String, Bool, true, false, not, ◌&&◌, some, if◌then◌else◌, arith, str_eq,
  eq_refl, inl, inr,
}
use medusa_multi_tenancy.Schema.{Invitation, TenantRole, is_pending}
use medusa_multi_tenancy.Sql.Rows.{
  rows, first, first_meets, first_pos, first_of_pos, rows_of_key, rows_congr,
}
use medusa_multi_tenancy.World.{Env, World, ok, thrown, invitation_not_pending}
use medusa_multi_tenancy.TenantManagement.Invitations.{has_token, accept_invitation}
use medusa_multi_tenancy.TenantManagement.Invitations.Accept.{
  IsAcceptable, accepted_row, accept_returns, accept_cases,
}

module _ (env : Env) (token : String) where
  refused_if_used :
      (w : World env) {i : Invitation}
      → first env.sql (has_token token) w.invitations ≡ some i
      → is_pending i.status ≡ false
      → accept_invitation env token w ≡ (thrown invitation_not_pending, w)
  unfolding accept_invitation
  refused_if_used w found used = ground arith

  module _ (w : World env) (u : rows env.sql (has_token token) w.invitations ≤ 1) {i : Invitation}
      (a : IsAcceptable env token w i) where
    still_there :
        rows env.sql (has_token token) (accept_invitation env token w).1.invitations
        ≡ rows env.sql (has_token token) w.invitations
    still_there = rw (accept_returns env token w a).1 (
        env.sql.rows-update (has_token token) (λ r. str_eq r.id i.id) (accepted_row env token w)
          w.invitations
        ∙ rows_congr env.sql _ _ w.invitations (λ r. kept (str_eq r.id i.id) r))
      where
        kept :
            (b : Bool) (r : Invitation)
            → has_token token (if b then accepted_row env token w r else r) ≡ has_token token r
        kept true r = refl
        kept false r = refl

    none_pending :
        rows env.sql
          (λ r. has_token token r && is_pending r.status)
          (accept_invitation env token w).1.invitations
        ≡ 0
    none_pending = rw (accept_returns env token w a).1 (
        env.sql.rows-update (λ r. has_token token r && is_pending r.status) (λ r. str_eq r.id i.id)
          (accepted_row env token w) w.invitations
        ∙ rows_congr env.sql _
            (λ r. has_token token r && (not (str_eq r.id i.id) && is_pending r.status))
            w.invitations (λ r. pointwise (str_eq r.id i.id) r)
        ∙ rows_of_key env.sql (has_token token) (has_token token)
            (λ r. not (str_eq r.id i.id) && is_pending r.status) w.invitations a.found
            (first_meets env.sql (has_token token) w.invitations a.found) u
        ∙ rw (eq_refl i.id) refl)
      where
        pointwise :
            (b : Bool) (r : Invitation)
            → (has_token token (if b then accepted_row env token w r else r)
                && is_pending (if b then accepted_row env token w r else r).status)
              ≡ (has_token token r && (not b && is_pending r.status))
        pointwise true r = ground arith
        pointwise false r = refl

  -- With unique tokens: a token that has been accepted is refused the next time as no longer pending,
  -- and the second call changes nothing.
  pub accept_once :
      (w : World env)
      → rows env.sql (has_token token) w.invitations ≤ 1
      → {r : String × String × TenantRole} → (accept_invitation env token w).0 ≡ ok r
      → let w' = (accept_invitation env token w).1 in
        accept_invitation env token w' ≡ (thrown invitation_not_pending, w')
  accept_once w u h = elim (accept_cases env token w) [
    | inl (e, threw) ↦ cc (h, ap (λ p. p.0) threw)
    | inr (i, a) ↦
        let w' = (accept_invitation env token w).1 in
        let (i', found) = first_of_pos env.sql (has_token token) w'.invitations (
          omega (
            arith,
            still_there w u a,
            first_pos env.sql (has_token token) w.invitations a.found,
          )) in
        refused_if_used w' found (
          ground (
            arith,
            rows_of_key env.sql (has_token token) (has_token token) (λ r. is_pending r.status)
                w'.invitations found (first_meets env.sql (has_token token) w'.invitations found)
                (omega (arith, still_there w u a, u)),
            none_pending w u a,
          ))
  ]
