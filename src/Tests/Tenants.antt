-- ===== src/Tests/Tenants.antt =====
-- The services on the database of `Fixtures`.
use medusa_multi_tenancy.Prelude.{
  ◌<◌, ◌≡◌, ◌≤◌, ◌⊎◌, inl, inr, refl, String, Bool, true, false, ◌&&◌, none, some, List, [], ◌∷◌,
  arith, str_eq, eq_iff, sym, Bool-cases,
}
use medusa_multi_tenancy.Prelude.Text.{normalize_email, trim, to_lower_case, includes}
use medusa_multi_tenancy.Schema.{
  Tenant, Membership, TenantStatus, TenantRole, active, pending_deletion,
}
use medusa_multi_tenancy.Sql.Rows.{rows}
use medusa_multi_tenancy.World.{ok, thrown, invitation_not_pending, invitation_token_syntax}
use medusa_multi_tenancy.TenantManagement.Lifecycle.{is_blocked_status}
use medusa_multi_tenancy.TenantManagement.Lifecycle.Standing.{
  deactivate, suspend, reactivate, request_deletion, HasUniqueTenants, Standing, apply, view,
  map_standing,
}
use medusa_multi_tenancy.TenantManagement.Lifecycle.Refinement.{effect, view-apply}
use medusa_multi_tenancy.TenantManagement.Lifecycle.Sequences.{
  LifecycleCall, run_lifecycle, is_retained, legal_hold_retains, blocked_until_reactivated,
  suspension_lifts_deletion,
}
use medusa_multi_tenancy.TenantManagement.Members.{
  normalize_role, active_owner_of, update_member_role, remove_member, transfer_ownership,
}
use medusa_multi_tenancy.TenantManagement.Members.Changes.{
  HasUniqueIds, owners, Refuses, RemovalRefused, RoleChangeRefused, Removed, RoleChanged,
  update_member_role_cases, remove_member_cases,
}
use medusa_multi_tenancy.TenantManagement.Members.Transfer.{
  TransferRefused, Transferred, transfer_ownership_cases,
}
use medusa_multi_tenancy.TenantManagement.Members.Owners.{
  remove, transfer, IsOwned, calls, calls-IsOwned,
}
use medusa_multi_tenancy.TenantManagement.Invitations.{accept_invitation, token_prefix, has_token}
use medusa_multi_tenancy.TenantManagement.Invitations.Accept.{IsAcceptable}
use medusa_multi_tenancy.TenantManagement.Invitations.SingleUse.{accept_once}
use medusa_multi_tenancy.TenantManagement.Invitations.RoundTrip.{
  token_of, invitation_of, invited, accept-invite,
}
use medusa_multi_tenancy.TenantManagement.Invitations.Joining.{
  HasUniqueEmails, accept-HasUniqueEmails, accept_orphans_tenant,
}
use medusa_multi_tenancy.TenantManagement.Tenants.{has_slug, is_tenant, is_active, create_tenant}
use medusa_multi_tenancy.TenantManagement.Tenants.Creation.{
  HasUniqueSlugs, create_tenant-HasUniqueSlugs, create_tenant_gives_owner,
}
use medusa_multi_tenancy.Tests.Fixtures.{env, office, ann, bob, to_ann}

at_most_one :
    {Row : Type 0} (p : Row → Bool) (x y : Row)
    → (p x && p y) ≡ false
    → rows env.sql p (x ∷ y ∷ []) ≤ 1
at_most_one p x y h = ground arith

distinct : (a b x : String) → str_eq a b ≡ false → (str_eq a x && str_eq b x) ≡ false
distinct a b x h = elim (Bool-cases (str_eq b x)) [
  | inr no' ↦ rw no' (right_false (str_eq a x))
  | inl yes' ↦ rw (sym ((eq_iff b x).0 yes')) (ground (arith, h))
]
  where
    right_false : (c : Bool) → (c && false) ≡ false
    right_false true = refl
    right_false false = refl

office_ids :
    (status : TenantStatus) (legal_hold : Bool) → HasUniqueIds env (office status legal_hold)
office_ids status legal_hold id =
    at_most_one (λ (m : Membership). str_eq m.id id) ann bob (distinct "m1" "m2" id refl)

office_emails :
    (status : TenantStatus) (legal_hold : Bool) → HasUniqueEmails env (office status legal_hold)
office_emails status legal_hold t e =
    at_most_one (λ (m : Membership). str_eq m.tenant_id t && str_eq m.user_email e) ann bob
      (both (str_eq "acme" t) (str_eq "ann@acme.io" e) (str_eq "bob@acme.io" e)
        (distinct "ann@acme.io" "bob@acme.io" e refl))
  where
    both : (a b c : Bool) → (b && c) ≡ false → ((a && b) && (a && c)) ≡ false
    both true b c h = h
    both false b c h = refl

office_tenants :
    (status : TenantStatus) (legal_hold : Bool) → HasUniqueTenants env (office status legal_hold)
office_tenants status legal_hold id = ground arith

office-IsOwned : IsOwned env "acme" (office active false)
office-IsOwned = record { ids = office_ids active false; owned = ground arith }

-- The last owner is not removed, the ownership goes to the other member, who is then not removed either.
calls-IsOwned_example : IsOwned env "acme" (
    calls env
      (remove "acme" "m1" none ∷ transfer "acme" "ann@acme.io" "m2" ∷ remove "acme" "m2" none ∷ [])
      (office active false))
calls-IsOwned_example =
    calls-IsOwned env "acme"
      (remove "acme" "m1" none ∷ transfer "acme" "ann@acme.io" "m2" ∷ remove "acme" "m2" none ∷ [])
      (office active false) office-IsOwned

update_member_role_cases_example :
    Refuses env "acme" "m2"
      (office active false)
      (RoleChangeRefused env "acme" "m2" (office active false) (normalize_role (some "admin")))
      (update_member_role env "acme" "m2" "admin" none (office active false))
    ⊎ RoleChanged env "acme" "m2"
        (office active false)
        (normalize_role (some "admin"))
        (update_member_role env "acme" "m2" "admin" none (office active false))
update_member_role_cases_example =
    update_member_role_cases env "acme" "m2" (office active false) "admin" none
      (office_ids active false)

remove_member_cases_example :
    Refuses env "acme" "m2"
      (office active false)
      (RemovalRefused env "acme" "m2" (office active false))
      (remove_member env "acme" "m2" none (office active false))
    ⊎ Removed env "acme" "m2"
        (office active false)
        (remove_member env "acme" "m2" none (office active false))
remove_member_cases_example =
    remove_member_cases env "acme" "m2" (office active false) none (office_ids active false)

transfer_ownership_cases_example :
    TransferRefused env "acme" "ann@acme.io" "m2"
      (office active false)
      (transfer_ownership env "acme" "ann@acme.io" "m2" (office active false))
    ⊎ Transferred env "acme" "ann@acme.io" "m2"
        (office active false)
        (transfer_ownership env "acme" "ann@acme.io" "m2" (office active false))
transfer_ownership_cases_example =
    transfer_ownership_cases env "acme" "ann@acme.io" "m2" (office active false)
      (office_ids active false)

view-apply_example :
    view env "acme" (apply env suspend "acme" none (office active true))
    ≡ map_standing (effect suspend "acme" "acme") (view env "acme" (office active true))
view-apply_example =
    view-apply env suspend "acme" none (office active true) (office_tenants active true) "acme"

abbrev held_calls : List LifecycleCall
held_calls =
    record { op = request_deletion; id = "acme"; actor = none }
    ∷ record { op = suspend; id = "acme"; actor = none }
    ∷ record { op = reactivate; id = "acme"; actor = none }
    ∷ []

view-office :
    view env "acme" (office active true) ≡ some (record { status = active; legal_hold = true })
unfolding view
view-office = refl

legal_hold_retains_example :
    (s' : Standing) × (view env "acme" (run_lifecycle env held_calls (office active true))
      ≡ some s')
    × (is_retained s' ≡ true)
legal_hold_retains_example =
    legal_hold_retains env held_calls (office active true) (office_tenants active true) "acme"
      {s = record { status = active; legal_hold = true }} view-office refl

abbrev blocking_calls : List LifecycleCall
blocking_calls =
    record { op = suspend; id = "acme"; actor = none }
    ∷ record { op = deactivate; id = "acme"; actor = some "ops" }
    ∷ []

pending_view :
    view env "acme" (office pending_deletion false)
    ≡ some (record { status = pending_deletion; legal_hold = false })
unfolding view
pending_view = refl

blocked_until_reactivated_example :
    (s' : Standing) × (view env "acme"
        (run_lifecycle env blocking_calls (office pending_deletion false))
      ≡ some s')
    × (is_blocked_status s'.status ≡ true)
blocked_until_reactivated_example =
    blocked_until_reactivated env blocking_calls (office pending_deletion false)
      (office_tenants pending_deletion false) "acme"
      {s = record { status = pending_deletion; legal_hold = false }} pending_view refl refl

suspension_lifts_deletion_example :
    (view env "acme" (apply env reactivate "acme" none (office pending_deletion false))
      ≡ some (record { status = pending_deletion; legal_hold = false }))
    × (view env "acme" (
          apply env reactivate "acme" none
            (apply env suspend "acme" none (office pending_deletion false)))
        ≡ some (record { status = active; legal_hold = false }))
suspension_lifts_deletion_example =
    suspension_lifts_deletion env "acme" none (office pending_deletion false)
      (office_tenants pending_deletion false) pending_view refl

to_ann-IsAcceptable : IsAcceptable env "acme.admin.n1" (office active false) to_ann
unfolding token_prefix
to_ann-IsAcceptable = record { found = refl; pending = refl; prefixed = refl; unexpired = refl }

to_ann_accepted :
    (accept_invitation env "acme.admin.n1" (office active false)).0
    ≡ ok ("acme", "ann@acme.io", TenantRole.admin)
unfolding accept_invitation
to_ann_accepted = refl

accept_once_example :
    let w' = (accept_invitation env "acme.admin.n1" (office active false)).1 in
    accept_invitation env "acme.admin.n1" w' ≡ (thrown invitation_not_pending, w')
accept_once_example = accept_once env "acme.admin.n1" (office active false) one_row to_ann_accepted
  where
    one_row : 1 ≤ 1
    one_row = omega arith

accept-HasUniqueEmails_example :
    HasUniqueEmails env (accept_invitation env "acme.admin.n1" (office active false)).1
accept-HasUniqueEmails_example =
    accept-HasUniqueEmails env "acme.admin.n1" (office active false) (office_emails active false)

accept_orphans_tenant_example :
    owners env "acme" (accept_invitation env "acme.admin.n1" (office active false)).1 ≡ 0
accept_orphans_tenant_example =
    accept_orphans_tenant env "acme.admin.n1" (office active false) to_ann {m = ann}
      (office_ids active false) to_ann-IsAcceptable refl refl refl refl

no_such_token :
    rows env.sql
      (has_token (token_of env "acme" "Cy@acme.io" (some "admin") none none (office active false)))
      (office active false).invitations
    ≡ 0
unfolding token_prefix normalize_role trim to_lower_case
no_such_token = refl

accept-invite_example :
    ((env.takes_token
          (token_of env "acme" "Cy@acme.io" (some "admin") none none (office active false))
        ≡ true)
      × ((invited env "acme" "Cy@acme.io" (some "admin") none none (office active false)).0
          ≡ ok (
              invitation_of env "acme" "Cy@acme.io" (some "admin") none none (office active false)))
      × ((accept_invitation env
            (token_of env "acme" "Cy@acme.io" (some "admin") none none (office active false))
            (record (invited env "acme" "Cy@acme.io"
              (some "admin")
              none
              none
              (office active false)).1 { now = 600 })).0
          ≡ ok ("acme", normalize_email "Cy@acme.io", normalize_role (some "admin"))))
    ⊎ ((env.takes_token
            (token_of env "acme" "Cy@acme.io" (some "admin") none none (office active false))
          ≡ false)
        × (invited env "acme" "Cy@acme.io" (some "admin") none none (office active false)
            ≡ (thrown invitation_token_syntax, record (office active false) { drawn = 2 })))
accept-invite_example =
    accept-invite env "acme" "Cy@acme.io" (some "admin") none none (office active false) 600
      no_such_token (omega arith)

-- The token has dots, which no UUID has.
token_has_dots :
    includes (token_of env "acme" "Cy@acme.io" (some "admin") none none (office active false)) "."
    ≡ true
unfolding token_prefix normalize_role trim to_lower_case includes
token_has_dots = refl

office_slugs : HasUniqueSlugs env (office active false)
office_slugs slug = ground arith

create_tenant-HasUniqueSlugs_example :
    HasUniqueSlugs env (create_tenant env "Beta" "beta" "cy@beta.io" (office active false)).1
create_tenant-HasUniqueSlugs_example =
    create_tenant-HasUniqueSlugs env "Beta" "beta" "cy@beta.io" (office active false) office_slugs

create_tenant_gives_owner_example :
    (t : Tenant) × ((create_tenant env "Beta" "beta" "cy@beta.io" (office active false)).0 ≡ ok t)
    × (0
        < rows env.sql
            (λ r. is_tenant t.tenant_id r && (has_slug "beta" r && is_active r.status))
            (create_tenant env "Beta" "beta" "cy@beta.io" (office active false)).1.tenants)
    × (0
        < rows env.sql
            (λ m. active_owner_of t.tenant_id m && str_eq m.user_email "cy@beta.io")
            (create_tenant env "Beta" "beta" "cy@beta.io" (office active false)).1.memberships)
create_tenant_gives_owner_example =
    create_tenant_gives_owner env "Beta" "beta" "cy@beta.io" (office active false) refl
