-- ===== src/TenantManagement/Invitations/Joining.antt =====
-- What an accepted invitation does to the members of the tenant.
use medusa_multi_tenancy.Prelude.{
  ◌≤◌, ◌≡◌, refl, ◌∙◌, String, Bool, true, false, some, if◌then◌else◌, arith, eq_iff, eq_refl, inl,
  inr, Option-cases,
}
use medusa_multi_tenancy.Schema.{Invitation, Membership}
use medusa_multi_tenancy.Sql.Rows.{rows, first-none, rows_congr, update-Replaces}
use medusa_multi_tenancy.World.{Env, World}
use medusa_multi_tenancy.TenantManagement.Members.{has_member_id, is_owner, active_owner_of}
use medusa_multi_tenancy.TenantManagement.Members.Changes.{HasUniqueIds, owners}
use medusa_multi_tenancy.TenantManagement.Invitations.{member_with_email, accept_invitation}
use medusa_multi_tenancy.TenantManagement.Invitations.Accept.{
  IsAcceptable, joined_row, new_row, existing, accept_changes, accept_inserts, accept_cases,
}

module _ (env : Env) where
  -- The unique key of `tenant_membership` on the tenant and the address.
  abbrev pub HasUniqueEmails : World env → Type 0
  HasUniqueEmails w = (t e : String) → rows env.sql (member_with_email t e) w.memberships ≤ 1

  module _ (token : String) (w : World env) where
    -- Accepting an invitation, or failing to, keeps the unique key of tenant and address: the code
    -- never inserts a second membership.
    pub accept-HasUniqueEmails :
        HasUniqueEmails w → HasUniqueEmails (accept_invitation env token w).1
    accept-HasUniqueEmails u t e = elim (accept_cases env token w) [
      | inl (x, threw) ↦ rw threw (u t e)
      | inr (i, a) ↦ elim (Option-cases (existing env token w i)) [
        | inr (m, found) ↦ rw (accept_changes env token w a found) (
            rw
              (env.sql.rows-update (member_with_email t e) (has_member_id m.id)
                  (joined_row env token w i) w.memberships
                ∙ rows_congr env.sql _ (member_with_email t e) w.memberships
                    (λ r. kept i (has_member_id m.id r) r))
              (u t e))
        | inl absent ↦ rw (accept_inserts env token w a absent) (
            ground (
              arith,
              env.sql.rows-insert (member_with_email t e) (new_row env token w i) w.memberships,
              u t e,
              first-none env.sql (member_with_email i.tenant_id i.email) w.memberships absent,
              eq_iff i.tenant_id t,
              eq_iff i.email e,
            ))
      ]
    ]
      where
        kept :
            (i : Invitation) (b : Bool) (r : Membership)
            → member_with_email t e (if b then joined_row env token w i r else r)
              ≡ member_with_email t e r
        kept i true r = refl
        kept i false r = refl

    -- With unique member ids, where an acceptable invitation names a role other than owner and goes
    -- to the only active owner of the tenant, accepting it leaves the tenant with no active owner.
    pub accept_orphans_tenant :
        (i : Invitation) {m : Membership}
        → HasUniqueIds env w
        → IsAcceptable env token w i
        → existing env token w i ≡ some m
        → is_owner i.role ≡ false
        → active_owner_of i.tenant_id m ≡ true
        → owners env i.tenant_id w ≡ 1
        → owners env i.tenant_id (accept_invitation env token w).1 ≡ 0
    accept_orphans_tenant i {m} u a found demotes was_owner only =
        rw (accept_changes env token w a found) (
          ground (
            arith,
            update-Replaces env.sql (member_with_email i.tenant_id i.email) (has_member_id m.id)
                (joined_row env token w i) w.memberships found (eq_refl m.id) (u m.id)
                (active_owner_of i.tenant_id),
          ))
