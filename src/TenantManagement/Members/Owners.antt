-- ===== src/TenantManagement/Members/Owners.antt =====
-- Sequences of role changes, removals and transfers, and the owners of a tenant.
use medusa_multi_tenancy.Prelude.{
  ◌<◌, ◌≡◌, String, Bool, true, false, ◌&&◌, Option, List, [], ◌∷◌, arith, eq_iff, inl, inr,
}
use medusa_multi_tenancy.Sql.Rows.{rows_mono}
use medusa_multi_tenancy.World.{Env, World}
use medusa_multi_tenancy.TenantManagement.Members.{
  normalize_role, active_owner_of, has_member_id, update_member_role, remove_member,
  transfer_ownership,
}
use medusa_multi_tenancy.TenantManagement.Members.Changes.{
  HasUniqueIds, owners, Removed, RoleChanged, remove_member_cases, update_member_role_cases,
}
use medusa_multi_tenancy.TenantManagement.Members.Transfer.{Transferred, transfer_ownership_cases}

-- A call of one of the three methods, with its arguments.
pub data MemberCall : Type 0 where
  change_role : String → String → String → Option String → MemberCall
  remove : String → String → Option String → MemberCall
  transfer : String → String → String → MemberCall

module _ (env : Env) where
  -- The state after the call, whether it returns or throws.
  unfoldable pub call : MemberCall → World env → World env
  call (change_role tenant_id member_id role actor) w =
      (update_member_role env tenant_id member_id role actor w).1
  call (remove tenant_id member_id actor) w = (remove_member env tenant_id member_id actor w).1
  call (transfer tenant_id actor_email target_id) w =
      (transfer_ownership env tenant_id actor_email target_id w).1

  unfoldable pub calls : List MemberCall → World env → World env
  calls [] w = w
  calls (c ∷ cs) w = calls cs (call c w)

  -- The primary key holds, and each of the tenants has an active owner.
  pub record IsOwned (tenant_id : String) (w : World env) : Type 0 where
    pub ids : HasUniqueIds env w
    pub owned : 0 < owners env tenant_id w

  unchanged : (t : String) {w w' : World env} → w' ≡ w → IsOwned t w → IsOwned t w'
  unchanged t e o = rw e o

  module _ (t : String) (w : World env) (o : IsOwned t w) where
    removal-IsOwned :
        (tenant_id member_id : String) (actor : Option String)
        → Removed env tenant_id member_id w (remove_member env tenant_id member_id actor w)
        → IsOwned t (remove_member env tenant_id member_id actor w).1
    removal-IsOwned tenant_id member_id actor (m, done, at_id, at_tenant, removes, spare) = record {
      ids = λ id. omega (arith, removes (has_member_id id), o.ids id);
      owned = ground (arith, removes (active_owner_of t), spare, o.owned, eq_iff m.tenant_id t);
    }

    role_change-IsOwned :
        (tenant_id member_id role : String) (actor : Option String)
        → RoleChanged env tenant_id member_id w
            (normalize_role (Option.some role))
            (update_member_role env tenant_id member_id role actor w)
        → IsOwned t (update_member_role env tenant_id member_id role actor w).1
    role_change-IsOwned tenant_id member_id role actor
          (m, done, at_id, at_tenant, replaces, no_promotion, spare) =
        record {
          ids = λ id. omega (arith, replaces (has_member_id id), o.ids id);
          owned = ground (
            arith,
            replaces (active_owner_of t),
            spare,
            no_promotion,
            o.owned,
            eq_iff m.tenant_id t,
          );
        }

    transfer-IsOwned :
        (tenant_id actor_email target_id : String)
        → Transferred env tenant_id actor_email target_id w
            (transfer_ownership env tenant_id actor_email target_id w)
        → IsOwned t (transfer_ownership env tenant_id actor_email target_id w).1
    transfer-IsOwned tenant_id actor_email target_id
          (actor, target, done, at_email, at_id, was_owner, differ, exchange, now_owner) =
        record {
          ids = λ id. omega (arith, exchange (has_member_id id), o.ids id);
          owned = ground (
            arith,
            exchange (active_owner_of t),
            now_owner (active_owner_of t),
            rows_mono env.sql (λ r. has_member_id target.id r && active_owner_of t r)
                (active_owner_of t)
                (transfer_ownership env tenant_id actor_email target_id w).1.memberships
                (λ r. drop (has_member_id target.id r) (active_owner_of t r)),
            o.owned,
            eq_iff actor.tenant_id t,
            eq_iff target.tenant_id t,
            eq_iff actor.tenant_id tenant_id,
            eq_iff target.tenant_id tenant_id,
          );
        }
      where
        drop : (a b : Bool) → (a && b) ≡ true → b ≡ true
        drop true b e = e
        drop false b e = cc

    call-IsOwned : (c : MemberCall) → IsOwned t (call c w)
    unfolding call
    call-IsOwned (change_role tenant_id member_id role actor) =
        elim (update_member_role_cases env tenant_id member_id w role actor o.ids) [
          | inl (e, _, same, _) ↦ unchanged t same o
          | inr done ↦ role_change-IsOwned tenant_id member_id role actor done
        ]
    call-IsOwned (remove tenant_id member_id actor) =
        elim (remove_member_cases env tenant_id member_id w actor o.ids) [
          | inl (e, _, same, _) ↦ unchanged t same o
          | inr done ↦ removal-IsOwned tenant_id member_id actor done
        ]
    call-IsOwned (transfer tenant_id actor_email target_id) =
        elim (transfer_ownership_cases env tenant_id actor_email target_id w o.ids) [
          | inl (e, _, same, _) ↦ unchanged t same o
          | inr done ↦ transfer-IsOwned tenant_id actor_email target_id done
        ]

  -- From a state in which member ids are unique and a tenant has an active owner, any sequence of
  -- role changes, removals and ownership transfers, on this tenant or on others, refused or not,
  -- leaves ids unique and the tenant with an active owner.
  pub calls-IsOwned :
      (t : String) (cs : List MemberCall) (w : World env) → IsOwned t w → IsOwned t (calls cs w)
  unfolding calls
  calls-IsOwned t [] w o = o
  calls-IsOwned t (c ∷ cs) w o = calls-IsOwned t cs (call c w) (call-IsOwned t w o c)
