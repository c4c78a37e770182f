-- ===== src/TenantManagement/Members/Transfer.antt =====
-- What `transferOwnership` does to the table `tenant_membership`.
use medusa_multi_tenancy.Prelude.{
  ℕ, ◌+◌, ◌≡◌, ◌≢◌, ◌∙◌, ap, ◌⊎◌, String, Bool, true, false, ◌&&◌, Option, none, some, one_if,
  arith, str_eq, eq_iff, eq_refl, Bool-cases, Option-cases, inl, inr,
}
use medusa_multi_tenancy.Prelude.Text.{normalize_email}
use medusa_multi_tenancy.Schema.{Membership, owner, admin}
use medusa_multi_tenancy.Sql.Rows.{
  rows, first, first_meets, rows_of_key, rows-update_split, update-Replaces,
}
use medusa_multi_tenancy.World.{
  Env, World, Result, ServiceError, ok, thrown, not_an_owner, target_not_found, same_member,
}
use medusa_multi_tenancy.TenantManagement.Members.{
  is_owner, has_member_id, active_member_with_email, active_member_with_id, transfer_ownership,
}
use medusa_multi_tenancy.TenantManagement.Members.Changes.{HasUniqueIds}

-- The rows of two members, as the transfer leaves them.
abbrev pub demoted : ℕ → Membership → Membership
demoted now m = record m { role = admin; updated_at = now }

abbrev pub promoted : ℕ → Membership → Membership
promoted now m = record m { role = owner; updated_at = now }

abbrev pub is_owner_found : Option Membership → Bool
is_owner_found none = false
is_owner_found (some m) = is_owner m.role

module _ (env : Env) (tenant_id actor_email target_id : String) (w : World env) where
  -- An active owner and another active member of the tenant change roles, and no other row changes.
  abbrev pub Transferred : Result (String × String) × World env → Type 0
  Transferred (r, w') =
      (actor : Membership) × (target : Membership) × (r ≡ ok (actor.user_email, target.user_email))
      × (active_member_with_email tenant_id (normalize_email actor_email) actor ≡ true)
      × (active_member_with_id tenant_id target_id target ≡ true)
      × (is_owner actor.role ≡ true)
      × (actor.id ≢ target.id)
      × ((q : Membership → Bool)
          → rows env.sql q w'.memberships + (one_if (q actor) + one_if (q target))
            ≡ rows env.sql q w.memberships
              + (one_if (q (demoted w.now actor)) + one_if (q (promoted w.now target))))
      × ((q : Membership → Bool)
          → rows env.sql (λ r. has_member_id target.id r && q r) w'.memberships
            ≡ one_if (q (promoted w.now target)))

  -- What has been found of the two members when the error is thrown.
  abbrev pub Reason : ServiceError → Type 0
  Reason not_an_owner =
      is_owner_found (
        first env.sql (active_member_with_email tenant_id (normalize_email actor_email))
          w.memberships)
      ≡ false
  Reason target_not_found =
      first env.sql (active_member_with_id tenant_id target_id) w.memberships ≡ none
  Reason same_member =
      (actor : Membership) × (target : Membership) × (first env.sql
          (active_member_with_email tenant_id (normalize_email actor_email)) w.memberships
        ≡ some actor)
      × (first env.sql (active_member_with_id tenant_id target_id) w.memberships ≡ some target)
      × (str_eq target.id actor.id ≡ true)
  Reason _ = ⊥

  abbrev pub TransferRefused : Result (String × String) × World env → Type 0
  TransferRefused (r, w') = (e : ServiceError) × (r ≡ thrown e) × (w' ≡ w) × Reason e

  refusal :
      {p : Result (String × String) × World env} {e : ServiceError}
      → p ≡ (thrown e, w)
      → Reason e
      → TransferRefused p
  refusal {e = e} h reason = (e, ap (λ p. p.0) h, ap (λ p. p.1) h, reason)

  no_actor :
      first env.sql (active_member_with_email tenant_id (normalize_email actor_email)) w.memberships
        ≡ none
      → transfer_ownership env tenant_id actor_email target_id w ≡ (thrown not_an_owner, w)
  unfolding transfer_ownership
  no_actor h = ground arith

  module _ {actor : Membership}
      (ha : first env.sql
          (active_member_with_email tenant_id (normalize_email actor_email))
          w.memberships
        ≡ some actor) where
    actor_no_owner :
        is_owner actor.role ≡ false
        → transfer_ownership env tenant_id actor_email target_id w ≡ (thrown not_an_owner, w)
    unfolding transfer_ownership
    actor_no_owner h = ground arith

    module _ (o : is_owner actor.role ≡ true) where
      no_target :
          first env.sql (active_member_with_id tenant_id target_id) w.memberships ≡ none
          → transfer_ownership env tenant_id actor_email target_id w ≡ (thrown target_not_found, w)
      unfolding transfer_ownership
      no_target h = ground arith

      module _ {target : Membership}
          (ht : first env.sql (active_member_with_id tenant_id target_id) w.memberships
            ≡ some target) where
        to_self :
            str_eq target.id actor.id ≡ true
            → transfer_ownership env tenant_id actor_email target_id w ≡ (thrown same_member, w)
        unfolding transfer_ownership
        to_self h = ground arith

        done :
            str_eq target.id actor.id ≡ false
            → ((transfer_ownership env tenant_id actor_email target_id w).0
                ≡ ok (actor.user_email, target.user_email))
              × ((transfer_ownership env tenant_id actor_email target_id w).1.memberships
                  ≡ env.sql.update
                      (has_member_id target.id)
                      (promoted w.now)
                      (env.sql.update (has_member_id actor.id) (demoted w.now) w.memberships))
        unfolding transfer_ownership
        done h = ground arith

  module _ {actor target : Membership}
      (ha : first env.sql
          (active_member_with_email tenant_id (normalize_email actor_email))
          w.memberships
        ≡ some actor)
      (ht : first env.sql (active_member_with_id tenant_id target_id) w.memberships ≡ some target)
      (ne : str_eq target.id actor.id ≡ false) (u : HasUniqueIds env w) where
    email_fields : active_member_with_email tenant_id (normalize_email actor_email) actor ≡ true
    email_fields =
        first_meets env.sql (active_member_with_email tenant_id (normalize_email actor_email))
          w.memberships ha

    id_fields : active_member_with_id tenant_id target_id target ≡ true
    id_fields = first_meets env.sql (active_member_with_id tenant_id target_id) w.memberships ht

    target_only :
        (q : Membership → Bool)
        → rows env.sql (λ r. has_member_id target.id r && q r) w.memberships ≡ one_if (q target)
    target_only q =
        rows_of_key env.sql (active_member_with_id tenant_id target_id) (has_member_id target.id) q
          w.memberships ht (eq_refl target.id) (u target.id)

    demotion :
        (q : Membership → Bool)
        → rows env.sql q (env.sql.update (has_member_id actor.id) (demoted w.now) w.memberships)
            + one_if (q actor)
          ≡ rows env.sql q w.memberships + one_if (q (demoted w.now actor))
    demotion =
        update-Replaces env.sql (active_member_with_email tenant_id (normalize_email actor_email))
          (has_member_id actor.id) (demoted w.now) w.memberships ha (eq_refl actor.id) (u actor.id)

    -- The demotion leaves the target's row alone.
    target_after_demotion :
        (q : Membership → Bool)
        → rows env.sql
            (λ r. has_member_id target.id r && q r)
            (env.sql.update (has_member_id actor.id) (demoted w.now) w.memberships)
          ≡ one_if (q target)
    target_after_demotion q = ground (
      arith,
      demotion (λ r. has_member_id target.id r && q r),
      target_only q,
      eq_iff target.id actor.id,
      eq_iff actor.id target.id,
    )

    promotion :
        (q : Membership → Bool)
        → rows env.sql q (
              env.sql.update
                (has_member_id target.id)
                (promoted w.now)
                (env.sql.update (has_member_id actor.id) (demoted w.now) w.memberships))
            + one_if (q target)
          ≡ rows env.sql q (env.sql.update (has_member_id actor.id) (demoted w.now) w.memberships)
            + one_if (q (promoted w.now target))
    promotion q = omega (
      arith,
      rows-update_split env.sql q (has_member_id target.id) (promoted w.now)
          (env.sql.update (has_member_id actor.id) (demoted w.now) w.memberships),
      target_after_demotion q,
      target_after_demotion (λ r. q (promoted w.now r)),
    )

    target_after :
        (q : Membership → Bool)
        → rows env.sql
            (λ r. has_member_id target.id r && q r)
            (env.sql.update
              (has_member_id target.id)
              (promoted w.now)
              (env.sql.update (has_member_id actor.id) (demoted w.now) w.memberships))
          ≡ one_if (q (promoted w.now target))
    target_after q = ground (
      arith,
      promotion (λ r. has_member_id target.id r && q r),
      target_after_demotion q,
      eq_refl target.id,
    )

    transferred :
        is_owner actor.role ≡ true
        → Transferred (transfer_ownership env tenant_id actor_email target_id w)
    transferred o = (
      actor,
      target,
      (done ha o ht ne).0,
      email_fields,
      id_fields,
      o,
      λ same. ground (arith, eq_iff target.id actor.id),
      λ q. rw (done ha o ht ne).1 (omega (arith, demotion q, promotion q)),
      λ q. rw (done ha o ht ne).1 (target_after q),
    )

  -- With unique member ids, a transfer either throws and leaves the whole state as it was, because the
  -- actor is no active owner of the tenant, the target no active member, or both the same, or changes
  -- two rows: the actor, an active owner of the tenant, becomes an admin, and the target, another
  -- active member of it, an owner.
  pub transfer_ownership_cases :
      HasUniqueIds env w
      → TransferRefused (transfer_ownership env tenant_id actor_email target_id w)
        ⊎ Transferred (transfer_ownership env tenant_id actor_email target_id w)
  transfer_ownership_cases u =
      elim (Option-cases (
        first env.sql (active_member_with_email tenant_id (normalize_email actor_email))
          w.memberships)) [
            | inl none_found ↦ inl (refusal (no_actor none_found) (ap is_owner_found none_found))
            | inr (actor, ha) ↦ elim (Bool-cases (is_owner actor.role)) [
              | inr other ↦ inl (refusal (actor_no_owner ha other) (ap is_owner_found ha ∙ other))
              | inl o ↦
                  elim (Option-cases
                    (first env.sql (active_member_with_id tenant_id target_id) w.memberships)) [
                      | inl none_found ↦ inl (refusal (no_target ha o none_found) none_found)
                      | inr (target, ht) ↦ elim (Bool-cases (str_eq target.id actor.id)) [
                        | inl same ↦
                            inl (refusal (to_self ha o ht same) (actor, target, ha, ht, same))
                        | inr ne ↦ inr (transferred ha ht ne u o)
                      ]
                    ]
            ]
          ]
