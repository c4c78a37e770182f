-- ===== src/TenantManagement/Members/Changes.antt =====
-- What the methods on members do to the table `tenant_membership`, row by row.
use medusa_multi_tenancy.Prelude.{
  ℕ, ◌≤◌, ◌≡◌, ap, ◌⊎◌, String, true, false, not, ◌&&◌, Option, none, some, arith, eq_iff, eq_refl,
  Bool-cases, Option-cases, inl, inr, and_true, leb,
}
use medusa_multi_tenancy.Schema.{Membership, TenantRole}
use medusa_multi_tenancy.Sql.Rows.{
  rows, first, first_meets, Removes, Replaces, delete-Removes, update-Replaces,
}
use medusa_multi_tenancy.World.{
  Env, World, Result, ServiceError, ok, thrown, member_not_found, last_owner_removal,
  last_owner_downgrade, use_ownership_transfer,
}
use medusa_multi_tenancy.TenantManagement.Members.{
  is_owner, normalize_role, active_owner_of, member_of, has_member_id, update_member_role,
  remove_member,
}

module _ (env : Env) where
  -- The primary key of `tenant_membership`.
  abbrev pub HasUniqueIds : World env → Type 0
  HasUniqueIds w = (id : String) → rows env.sql (has_member_id id) w.memberships ≤ 1

  abbrev pub owners : String → World env → ℕ
  owners tenant_id w = rows env.sql (active_owner_of tenant_id) w.memberships

module _ (env : Env) (tenant_id member_id : String) (w : World env) where
  found_member :
      {m : Membership}
      → first env.sql (member_of member_id tenant_id) w.memberships ≡ some m
      → (m.id ≡ member_id) × (m.tenant_id ≡ tenant_id)
  found_member {m} h =
      let (a, b) =
        and_true _ _ (first_meets env.sql (member_of member_id tenant_id) w.memberships h) in
      ((eq_iff _ _).0 a, (eq_iff _ _).0 b)

  -- A method that throws leaves the state as it was, and the error has its reason.
  abbrev pub Refuses : (ServiceError → Type 0) → Result Membership × World env → Type 0
  Refuses Reason (r, w') = (e : ServiceError) × (r ≡ thrown e) × (w' ≡ w) × Reason e

  refusal :
      {Reason : ServiceError → Type 0} {p : Result Membership × World env} {e : ServiceError}
      → p ≡ (thrown e, w)
      → Reason e
      → Refuses Reason p
  refusal {e = e} h reason = (e, ap (λ p. p.0) h, ap (λ p. p.1) h, reason)

  abbrev pub IsMissing : Type 0
  IsMissing = first env.sql (member_of member_id tenant_id) w.memberships ≡ none

  abbrev pub RemovalRefused : ServiceError → Type 0
  RemovalRefused member_not_found = IsMissing
  RemovalRefused last_owner_removal =
      (m : Membership) × (first env.sql (member_of member_id tenant_id) w.memberships ≡ some m)
      × ((is_owner m.role && leb (owners env tenant_id w) 1) ≡ true)
  RemovalRefused _ = ⊥

  abbrev pub RoleChangeRefused : TenantRole → ServiceError → Type 0
  RoleChangeRefused role member_not_found = IsMissing
  RoleChangeRefused role use_ownership_transfer =
      (m : Membership) × (first env.sql (member_of member_id tenant_id) w.memberships ≡ some m)
      × ((is_owner role && not (is_owner m.role)) ≡ true)
  RoleChangeRefused role last_owner_downgrade =
      (m : Membership) × (first env.sql (member_of member_id tenant_id) w.memberships ≡ some m)
      × (((is_owner m.role && not (is_owner role)) && leb (owners env tenant_id w) 1) ≡ true)
  RoleChangeRefused role _ = ⊥

  -- The member is found, and taken out alone; an owner is not the last active one.
  abbrev pub Removed : Result Membership × World env → Type 0
  Removed (r, w') =
      (m : Membership) × (r ≡ ok m)
      × (m.id ≡ member_id)
      × (m.tenant_id ≡ tenant_id)
      × Removes env.sql w.memberships w'.memberships m
      × ((is_owner m.role && leb (owners env tenant_id w) 1) ≡ false)

  -- The member is found and gets the role; the owner role neither comes nor, from the last active
  -- owner, goes.
  abbrev pub RoleChanged : TenantRole → Result Membership × World env → Type 0
  RoleChanged role (r, w') =
      (m : Membership) × (r ≡ ok (record m { role = role }))
      × (m.id ≡ member_id)
      × (m.tenant_id ≡ tenant_id)
      × Replaces env.sql w.memberships w'.memberships m
          (record m { role = role; updated_at = w.now })
      × ((is_owner role && not (is_owner m.role)) ≡ false)
      × (((is_owner m.role && not (is_owner role)) && leb (owners env tenant_id w) 1) ≡ false)

  module _ (actor : Option String) where
    remove_member_missing :
        first env.sql (member_of member_id tenant_id) w.memberships ≡ none
        → remove_member env tenant_id member_id actor w ≡ (thrown member_not_found, w)
    unfolding remove_member
    remove_member_missing h = ground arith

    module _ {m : Membership}
        (h : first env.sql (member_of member_id tenant_id) w.memberships ≡ some m) where
      remove_member_last :
          (is_owner m.role && leb (owners env tenant_id w) 1) ≡ true
          → remove_member env tenant_id member_id actor w ≡ (thrown last_owner_removal, w)
      unfolding remove_member
      remove_member_last g = ground arith

      remove_member_done :
          (is_owner m.role && leb (owners env tenant_id w) 1) ≡ false
          → ((remove_member env tenant_id member_id actor w).0 ≡ ok m)
            × ((remove_member env tenant_id member_id actor w).1.memberships
                ≡ env.sql.delete (has_member_id m.id) w.memberships)
      unfolding remove_member
      remove_member_done g = ground arith

    -- With unique member ids, a removal either throws and leaves the whole state as it was, because the
    -- member is not found or is the last active owner, or returns the member that the tenant and the
    -- id name, who is not the last active owner, and takes that row alone out of the table.
    pub remove_member_cases :
        HasUniqueIds env w
        → Refuses RemovalRefused (remove_member env tenant_id member_id actor w)
          ⊎ Removed (remove_member env tenant_id member_id actor w)
    remove_member_cases u =
        elim (Option-cases (first env.sql (member_of member_id tenant_id) w.memberships)) [
          | inl missing ↦ inl (refusal (remove_member_missing missing) missing)
          | inr (m, h) ↦ elim (Bool-cases (is_owner m.role && leb (owners env tenant_id w) 1)) [
            | inl last ↦ inl (refusal (remove_member_last h last) (m, h, last))
            | inr kept ↦ inr (
              m,
              (remove_member_done h kept).0,
              (found_member h).0,
              (found_member h).1,
              λ q. rw (remove_member_done h kept).1 (
                  delete-Removes env.sql (member_of member_id tenant_id) (has_member_id m.id)
                    w.memberships h (eq_refl m.id) (u m.id) q),
              kept,
            )
          ]
        ]

  module _ (new_role : String) (actor : Option String) where
    update_member_role_missing :
        first env.sql (member_of member_id tenant_id) w.memberships ≡ none
        → update_member_role env tenant_id member_id new_role actor w ≡ (thrown member_not_found, w)
    unfolding update_member_role
    update_member_role_missing h = ground arith

    module _ {m : Membership}
        (h : first env.sql (member_of member_id tenant_id) w.memberships ≡ some m) where
      update_member_role_promotion :
          (is_owner (normalize_role (some new_role)) && not (is_owner m.role)) ≡ true
          → update_member_role env tenant_id member_id new_role actor w
            ≡ (thrown use_ownership_transfer, w)
      unfolding update_member_role
      update_member_role_promotion g = ground arith

      module _
          (g : (is_owner (normalize_role (some new_role)) && not (is_owner m.role)) ≡ false) where
        update_member_role_last :
            ((is_owner m.role && not (is_owner (normalize_role (some new_role))))
                && leb (owners env tenant_id w) 1)
              ≡ true
            → update_member_role env tenant_id member_id new_role actor w
              ≡ (thrown last_owner_downgrade, w)
        unfolding update_member_role
        update_member_role_last l = ground arith

        update_member_role_done :
            ((is_owner m.role && not (is_owner (normalize_role (some new_role))))
                && leb (owners env tenant_id w) 1)
              ≡ false
            → ((update_member_role env tenant_id member_id new_role actor w).0
                ≡ ok (record m { role = normalize_role (some new_role) }))
              × ((update_member_role env tenant_id member_id new_role actor w).1.memberships
                  ≡ env.sql.update
                      (has_member_id m.id)
                      (λ r. record r { role = normalize_role (some new_role); updated_at = w.now })
                      w.memberships)
        unfolding update_member_role
        update_member_role_done l = ground arith

    -- With unique member ids, a change of role either throws and leaves the whole state as it was,
    -- because the member is not found, would become an owner, or is the last active owner and would
    -- stop being one, or returns the member with the normalized role and rewrites that row alone.
    pub update_member_role_cases :
        HasUniqueIds env w
        → Refuses
            (RoleChangeRefused (normalize_role (some new_role)))
            (update_member_role env tenant_id member_id new_role actor w)
          ⊎ RoleChanged
              (normalize_role (some new_role))
              (update_member_role env tenant_id member_id new_role actor w)
    update_member_role_cases u =
        elim (Option-cases (first env.sql (member_of member_id tenant_id) w.memberships)) [
          | inl missing ↦ inl (refusal (update_member_role_missing missing) missing)
          | inr (m, h) ↦
              elim (Bool-cases
                (is_owner (normalize_role (some new_role)) && not (is_owner m.role))) [
                  | inl promotion ↦
                      inl (refusal (update_member_role_promotion h promotion) (m, h, promotion))
                  | inr g ↦
                      elim (Bool-cases (
                        (is_owner m.role && not (is_owner (normalize_role (some new_role))))
                        && leb (owners env tenant_id w) 1)) [
                          | inl last ↦ inl (refusal (update_member_role_last h g last) (m, h, last))
                          | inr kept ↦ inr (
                            m,
                            (update_member_role_done h g kept).0,
                            (found_member h).0,
                            (found_member h).1,
                            λ q. rw (update_member_role_done h g kept).1 (
                                update-Replaces env.sql (member_of member_id tenant_id)
                                  (has_member_id m.id)
                                  (λ r. record r {
                                    role = normalize_role (some new_role);
                                    updated_at = w.now;
                                  })
                                  w.memberships h (eq_refl m.id) (u m.id) q),
                            g,
                            kept,
                          )
                        ]
                ]
        ]
