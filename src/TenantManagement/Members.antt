-- ===== src/TenantManagement/Members.antt =====
-- tenant-management/service.ts: the methods on the members of a tenant.
pub mod Changes
pub mod Transfer
pub mod Owners
use medusa_multi_tenancy.Prelude.{
  String, Bool, not, ◌&&◌, Option, none, some, [], ◌∷◌, if◌then◌else◌, str_eq, leb,
}
use medusa_multi_tenancy.Prelude.Text.{trim, to_lower_case, normalize_email}
use medusa_multi_tenancy.Schema.{
  Membership, TenantRole, owner, admin, member, viewer, same_role, is_enabled,
}
use medusa_multi_tenancy.Sql.Rows.{first, rows}
use medusa_multi_tenancy.World.{
  Env, Exec, PayloadValue, ServiceError, ◌>>=◌, ◌>>◌, pure, throw, gets, or_throw, throw_if, modify,
  transaction, invalidate_tenant_runtime_state, member_not_found, use_ownership_transfer,
  last_owner_downgrade, last_owner_removal, not_an_owner, target_not_found, same_member,
}
use medusa_multi_tenancy.AuditLog.{record_event}
use medusa_multi_tenancy.TenantManagement.Lifecycle.{actor_or_system}

-- `normalizeRole` on a text that has been trimmed and put in lower case
abbrev pub role_of_text : String → TenantRole
role_of_text s =
    if str_eq s "owner"
    then owner
    else if str_eq s "admin"
    then admin
    else if str_eq s "viewer"
    then viewer
    else member

unfoldable pub normalize_role : Option String → TenantRole
normalize_role none = member
normalize_role (some role) = role_of_text (to_lower_case (trim role))

abbrev pub role_text : TenantRole → String
role_text owner = "owner"
role_text admin = "admin"
role_text member = "member"
role_text viewer = "viewer"

abbrev pub is_owner : TenantRole → Bool
is_owner role = same_role role owner

-- `where({ tenant_id, status: 'active', role: 'owner' })`
abbrev pub active_owner_of : String → Membership → Bool
active_owner_of tenant_id m = str_eq m.tenant_id tenant_id && is_enabled m.status && is_owner m.role

-- `where({ id: member_id, tenant_id })`
abbrev pub member_of : String → String → Membership → Bool
member_of member_id tenant_id m = str_eq m.id member_id && str_eq m.tenant_id tenant_id

-- `where({ id })`
abbrev pub has_member_id : String → Membership → Bool
has_member_id id m = str_eq m.id id

-- `where({ tenant_id, user_email, status: 'active' })`
abbrev pub active_member_with_email : String → String → Membership → Bool
active_member_with_email tenant_id email m =
    str_eq m.tenant_id tenant_id && str_eq m.user_email email && is_enabled m.status

-- `where({ tenant_id, id, status: 'active' })`
abbrev pub active_member_with_id : String → String → Membership → Bool
active_member_with_id tenant_id id m =
    str_eq m.tenant_id tenant_id && str_eq m.id id && is_enabled m.status

-- `where({ tenant_id, user_email })`
abbrev pub member_with_email : String → String → Membership → Bool
member_with_email tenant_id email m = str_eq m.tenant_id tenant_id && str_eq m.user_email email

module _ (env : Env) where
  unfoldable pub get_tenant_membership_by_email : String → String → Exec env (Option Membership)
  get_tenant_membership_by_email tenant_id user_email =
      gets
        λ w. first env.sql (member_with_email tenant_id (normalize_email user_email)) w.memberships

  module _ (tenant_id member_id : String) where
    -- `throw` unless the tenant keeps another active owner
    abbrev guard_last_owner : Bool → ServiceError → Exec env Unit
    guard_last_owner applies e = do
      owner_count ← gets (λ w. rows env.sql (active_owner_of tenant_id) w.memberships)
      throw_if (applies && leb owner_count 1) e

    unfoldable pub update_member_role : String → Option String → Exec env Membership
    update_member_role new_role actor = do
      let role = normalize_role (some new_role)
      found ← gets (λ w. first env.sql (member_of member_id tenant_id) w.memberships)
      m ← or_throw found member_not_found
      throw_if (is_owner role && not (is_owner m.role)) use_ownership_transfer
      guard_last_owner (is_owner m.role && not (is_owner role)) last_owner_downgrade
      modify λ w. record w {
        memberships =
            env.sql.update (has_member_id m.id) (λ r. record r { role = role; updated_at = w.now })
              w.memberships;
      }
      record_event env (actor_or_system actor) tenant_id "role_changed" m.id (
          ("previous_role", PayloadValue.text (role_text m.role))
          ∷ ("new_role", PayloadValue.text (role_text role))
          ∷ ("user_email", PayloadValue.text m.user_email)
          ∷ [])
      invalidate_tenant_runtime_state tenant_id
      pure (record m { role = role })

    unfoldable pub remove_member : Option String → Exec env Membership
    remove_member actor = do
      found ← gets (λ w. first env.sql (member_of member_id tenant_id) w.memberships)
      m ← or_throw found member_not_found
      guard_last_owner (is_owner m.role) last_owner_removal
      modify λ w. record w { memberships = env.sql.delete (has_member_id m.id) w.memberships }
      record_event env (actor_or_system actor) tenant_id "member_removed" m.id (
          ("user_email", PayloadValue.text m.user_email)
          ∷ ("role", PayloadValue.text (role_text m.role))
          ∷ [])
      invalidate_tenant_runtime_state tenant_id
      pure m

  -- `!actorMembership || actorMembership.role !== 'owner'`
  abbrev owner_or_throw : Option Membership → Exec env Membership
  owner_or_throw none = throw not_an_owner
  owner_or_throw (some m) = do throw_if (not (is_owner m.role)) not_an_owner; pure m

  abbrev set_role : String → TenantRole → Exec env Unit
  set_role id role = modify λ w. record w {
    memberships =
        env.sql.update (has_member_id id) (λ r. record r { role = role; updated_at = w.now })
          w.memberships;
  }

  -- Returns the addresses of the previous and of the new owner.
  unfoldable pub transfer_ownership : String → String → String → Exec env (String × String)
  transfer_ownership tenant_id actor_email target_member_id = do
    let email = normalize_email actor_email
    found_actor ← gets (λ w. first env.sql (active_member_with_email tenant_id email) w.memberships)
    actor ← owner_or_throw found_actor
    found_target ←
        gets (λ w. first env.sql (active_member_with_id tenant_id target_member_id) w.memberships)
    target ← or_throw found_target target_not_found
    throw_if (str_eq target.id actor.id) same_member
    transaction (do set_role actor.id admin; set_role target.id owner)
    record_event env (some email) tenant_id "ownership_transferred" target.id (
        ("from_email", PayloadValue.text actor.user_email)
        ∷ ("to_email", PayloadValue.text target.user_email)
        ∷ [])
    invalidate_tenant_runtime_state tenant_id
    pure (actor.user_email, target.user_email)
