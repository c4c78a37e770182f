-- ===== src/TenantAccess/Records/Resolving.antt =====
-- What `resolveTenantUserAccess` answers and stores for an account.
use medusa_multi_tenancy.Prelude.{
  suc, ◌≤◌, ◌≡◌, ◌∙◌, refl, sym, ap, subst, ◌⊎◌, inl, inr, String, Bool, true, false, not, ◌&&◌,
  Option, none, some, arith, eq_refl, Bool-cases, Option-cases, if◌then◌else◌,
}
use medusa_multi_tenancy.Schema.{TenantUserAccess, TenantAccessRole, platform_admin, tenant_admin}
use medusa_multi_tenancy.Sql.Rows.{rows, first_meets, first-none}
use medusa_multi_tenancy.Sql.Single.{update-Finds, insert-Finds}
use medusa_multi_tenancy.World.{Env, World, Result, ok, thrown, access_scope_violated}
use medusa_multi_tenancy.TenantAccess.Records.{
  ProcessEnv, has_email, has_access_id, is_scoped, new_access, synced, is_out_of_sync, same_flag,
  same_access_role, role_for, auto_create_enabled, is_platform_admin_email, ResolvedAccess,
  resolved_of, access_of, create_tenant_for_user, provision, insert_access, store_synced,
  sync_access, settle_access, resolve_account,
}

module _ (env : Env) where
  -- The primary key of `tenant_user_access`, and its unique key on the address.
  abbrev pub HasUniqueAccess : World env → Type 0
  HasUniqueAccess w =
      ((id : String) → rows env.sql (has_access_id id) w.user_access ≤ 1)
      × ((email : String) → rows env.sql (has_email email) w.user_access ≤ 1)

module _ (env : Env) (penv : ProcessEnv) (email : String) (is_admin : Bool) (w : World env) where
  -- The account has one record, which is in step with the list of platform admins, and is returned.
  abbrev pub Settled : Result (Option TenantUserAccess × Bool) × World env → Type 0
  Settled (r, w') =
      (a : TenantUserAccess) × (created : Bool) × (r ≡ ok (some a, created))
      × (access_of env email w' ≡ some a)
      × (is_out_of_sync is_admin a ≡ false)
      × (rows env.sql (has_email email) w'.user_access ≤ 1)

  -- What is assigned to a new account breaks the check only where the account is no platform
  -- admin's and tenants are not created.
  abbrev breaks_check : Option String → Bool
  breaks_check tenant_id = not (is_scoped is_admin (if is_admin then none else tenant_id))

  provides :
      (p : Option String × Bool) × ((provision env penv email is_admin w).0 ≡ ok p)
      × ((provision env penv email is_admin w).1.user_access ≡ w.user_access)
      × ((breaks_check p.0 ≡ false) ⊎ ((is_admin ≡ false) × (auto_create_enabled penv ≡ false)))
  unfolding provision create_tenant_for_user
  provides = elim (Bool-cases (not is_admin && auto_create_enabled penv)) [
    | inl create ↦ (
      (some (env.random_uuid w.drawn), true),
      rw create refl,
      rw create refl,
      inl (created_in_scope is_admin (env.random_uuid w.drawn)),
    )
    | inr nothing ↦ ((none, false), rw nothing refl, rw nothing refl, unassigned is_admin nothing)
  ]
    where
      created_in_scope :
          (b : Bool) (id : String) → not (is_scoped b (if b then none else some id)) ≡ false
      created_in_scope true id = refl
      created_in_scope false id = refl

      unassigned :
          (b : Bool)
          → (not b && auto_create_enabled penv) ≡ false
          → (not (is_scoped b (if b then none else none)) ≡ false)
            ⊎ ((b ≡ false) × (auto_create_enabled penv ≡ false))
      unassigned true h = inl refl
      unassigned false h = inr (refl, h)

  abbrev inserted : Option String × Bool → World env → TenantUserAccess
  inserted p w1 = new_access (env.random_uuid w1.drawn) email is_admin p.0 p.1 w1.now

  abbrev after_insert : Option String × Bool → World env → World env
  after_insert p w1 = record w1 {
    drawn = suc w1.drawn;
    user_access = env.sql.insert (inserted p w1) w1.user_access;
  }

  inserts :
      {p : Option String × Bool} {w1 : World env} {a : TenantUserAccess}
      → provision env penv email is_admin w ≡ (ok p, w1)
      → breaks_check p.0 ≡ false
      → access_of env email (after_insert p w1) ≡ some a
      → insert_access env penv email is_admin w ≡ (ok (some a, p.1), after_insert p w1)
  unfolding insert_access
  inserts provided scoped found = ground arith

  inserts_not :
      {p : Option String × Bool} {w1 : World env}
      → provision env penv email is_admin w ≡ (ok p, w1)
      → breaks_check p.0 ≡ true
      → (insert_access env penv email is_admin w).0 ≡ thrown access_scope_violated
  unfolding insert_access
  inserts_not provided broken = ground arith

  settles_not :
      access_of env email w ≡ none
      → (insert_access env penv email is_admin w).0 ≡ thrown access_scope_violated
      → (settle_access env penv email is_admin w).0 ≡ thrown access_scope_violated
  unfolding settle_access
  settles_not absent h = ground arith

  stores_not :
      (a : TenantUserAccess)
      → breaks_check a.tenant_id ≡ true
      → (store_synced env penv email is_admin a w).0 ≡ thrown access_scope_violated
  unfolding store_synced
  stores_not a broken = ground arith

  updated_not :
      {a : TenantUserAccess}
      → access_of env email w ≡ some a
      → is_out_of_sync is_admin a ≡ true
      → (store_synced env penv email is_admin a w).0 ≡ thrown access_scope_violated
      → (settle_access env penv email is_admin w).0 ≡ thrown access_scope_violated
  unfolding settle_access sync_access
  updated_not found step broken = ground arith

  settles_new :
      {f : Bool} {w1 : World env} {a : TenantUserAccess}
      → access_of env email w ≡ none
      → insert_access env penv email is_admin w ≡ (ok (some a, f), w1)
      → is_out_of_sync is_admin a ≡ false
      → settle_access env penv email is_admin w ≡ (ok (some a, f), w1)
  unfolding settle_access sync_access
  settles_new absent h step = ground arith

  kept :
      {a : TenantUserAccess}
      → access_of env email w ≡ some a
      → is_out_of_sync is_admin a ≡ false
      → settle_access env penv email is_admin w ≡ (ok (some a, false), w)
  unfolding settle_access sync_access
  kept found step = rw (found, step) refl

  abbrev after_sync : TenantUserAccess → World env
  after_sync a = record w {
    user_access = env.sql.update (has_access_id a.id) (synced is_admin w.now) w.user_access;
  }

  stores :
      (a : TenantUserAccess) {b : TenantUserAccess}
      → breaks_check a.tenant_id ≡ false
      → access_of env email (after_sync a) ≡ some b
      → store_synced env penv email is_admin a w ≡ (ok (some b), after_sync a)
  unfolding store_synced
  stores a scoped after = ground arith

  updated :
      {a : TenantUserAccess} {o : Option TenantUserAccess} {w1 : World env}
      → access_of env email w ≡ some a
      → is_out_of_sync is_admin a ≡ true
      → store_synced env penv email is_admin a w ≡ (ok o, w1)
      → settle_access env penv email is_admin w ≡ (ok (o, false), w1)
  unfolding settle_access sync_access
  updated found step stored = ground arith

  new_access_in_step :
      (b : Bool) (p : Option String × Bool) (w1 : World env)
      → is_out_of_sync b (new_access (env.random_uuid w1.drawn) email b p.0 p.1 w1.now) ≡ false
  new_access_in_step true p w1 = refl
  new_access_in_step false p w1 = refl

  synced_in_step : (b : Bool) (a : TenantUserAccess) → is_out_of_sync b (synced b w.now a) ≡ false
  synced_in_step true a = refl
  synced_in_step false a = refl

  -- The check of the database refuses what would be stored: the account is no platform admin's, and
  -- has no tenant.
  abbrev pub Unassignable : Type 0
  Unassignable =
      (is_admin ≡ false)
      × (((access_of env email w ≡ none) × (auto_create_enabled penv ≡ false))
          ⊎ ((a : TenantUserAccess) × (access_of env email w ≡ some a)
              × (is_out_of_sync false a ≡ true)
              × (a.tenant_id ≡ none)))

  unscoped :
      (b : Bool) (o : Option String)
      → not (is_scoped b (if b then none else o)) ≡ true
      → (b ≡ false) × (o ≡ none)
  unscoped true o h = cc
  unscoped false none h = (refl, refl)
  unscoped false (some _) h = cc

  settle_access_cases :
      HasUniqueAccess env w
      → Settled (settle_access env penv email is_admin w)
        ⊎ (((settle_access env penv email is_admin w).0 ≡ thrown access_scope_violated)
            × Unassignable)
  settle_access_cases (ids, emails) = elim (Option-cases (access_of env email w)) [
    | inl absent ↦
        let (p, gives, same, scope) = provides in
        let w1 = (provision env penv email is_admin w).1 in
        let provided : provision env penv email is_admin w ≡ (ok p, w1) = ap (λ r. (r, w1)) gives in
        let (a, found, alike, one) =
          insert-Finds env.sql (has_email email) (inserted p w1) w1.user_access
            (ap (rows env.sql (has_email email)) same
              ∙ first-none env.sql (has_email email) w.user_access absent)
            (eq_refl email) in
        let step = alike (is_out_of_sync is_admin) ∙ new_access_in_step is_admin p w1 in
        elim (Bool-cases (breaks_check p.0)) [
          | inr scoped ↦ inl (
              subst Settled (sym (settles_new absent (inserts provided scoped found) step))
                (a, p.1, refl, found, step, one))
          | inl broken ↦ inr (
            settles_not absent (inserts_not provided broken),
            elim scope [
              | inl scoped ↦ absurd (true≢false (sym broken ∙ scoped))
              | inr (plain, off) ↦ (plain, inl (absent, off))
            ],
          )
        ]
    | inr (m, found) ↦ elim (Bool-cases (is_out_of_sync is_admin m)) [
      | inr step ↦ inl (rw (kept found step) (m, false, refl, found, step, emails email))
      | inl out ↦
          let (a, after, alike, one) =
            update-Finds env.sql (has_email email) (has_access_id m.id) (synced is_admin w.now)
              w.user_access found (emails email) (eq_refl m.id) (ids m.id)
              (first_meets env.sql (has_email email) w.user_access found) in
          elim (Bool-cases (breaks_check m.tenant_id)) [
            | inr scoped ↦ inl (
                subst Settled (sym (updated found out (stores m scoped after))) (
                  a,
                  false,
                  refl,
                  after,
                  alike (is_out_of_sync is_admin) ∙ synced_in_step is_admin m,
                  one,
                ))
            | inl broken ↦
                let (plain, nowhere) = unscoped is_admin m.tenant_id broken in
                inr (
                  updated_not found out (stores_not m broken),
                  (plain, inr (m, found, ap (λ b. is_out_of_sync b m) (sym plain) ∙ out, nowhere)),
                )
          ]
    ]
  ]
    where
      true≢false : true ≡ false → ⊥
      true≢false h = cc

same_flag-eq : (a b : Bool) → same_flag a b ≡ true → a ≡ b
same_flag-eq true b h = sym h
same_flag-eq false true h = cc
same_flag-eq false false h = refl

same_access_role-eq : (r s : TenantAccessRole) → same_access_role r s ≡ true → r ≡ s
same_access_role-eq platform_admin platform_admin h = refl
same_access_role-eq tenant_admin tenant_admin h = refl
same_access_role-eq platform_admin tenant_admin h = cc
same_access_role-eq tenant_admin platform_admin h = cc

module _ (env : Env) (penv : ProcessEnv) (email : String) (w : World env) where
  abbrev listed : Bool
  listed = is_platform_admin_email penv email

  resolves :
      {a : TenantUserAccess} {created : Bool} {w' : World env}
      → settle_access env penv email listed w ≡ (ok (some a, created), w')
      → resolve_account env penv email w ≡ (ok (resolved_of email a created), w')
  unfolding resolve_account
  resolves h = ground arith

  in_step-admin :
      (a : TenantUserAccess) → is_out_of_sync listed a ≡ false → a.is_platform_admin ≡ listed
  in_step-admin a h = same_flag-eq a.is_platform_admin listed (ground arith)

  in_step-role : (a : TenantUserAccess) → is_out_of_sync listed a ≡ false → a.role ≡ role_for listed
  in_step-role a h = same_access_role-eq a.role (role_for listed) (ground arith)

  refuses :
      (settle_access env penv email listed w).0 ≡ thrown access_scope_violated
      → ((resolve_account env penv email w).0 ≡ thrown access_scope_violated)
        × ((resolve_account env penv email w).1.user_access ≡ w.user_access)
  unfolding resolve_account
  refuses h = ground arith

  abbrev pub Resolved : Result ResolvedAccess × World env → Type 0
  Resolved (r, w') =
      (a : TenantUserAccess) × (created : Bool) × (r ≡ ok (resolved_of email a created))
      × (access_of env email w' ≡ some a)
      × (rows env.sql (has_email email) w'.user_access ≤ 1)
      × (a.is_platform_admin ≡ is_platform_admin_email penv email)
      × (a.role ≡ role_for (is_platform_admin_email penv email))

  -- The records stay as they were, and the account is not listed; it has no record, and tenants are
  -- not created for new accounts, or its record, which is to change, has no tenant.
  abbrev pub Refused : Result ResolvedAccess × World env → Type 0
  Refused (r, w') =
      (r ≡ thrown access_scope_violated)
      × (w'.user_access ≡ w.user_access)
      × Unassignable env penv email (is_platform_admin_email penv email) w

  -- Where the addresses and identifiers of the access records are unique, `resolveTenantUserAccess`
  -- for an account either returns the account's one stored record, new or kept, which says that it is
  -- a platform admin's exactly where `PLATFORM_ADMIN_EMAILS` lists the address, whatever the record
  -- said before; or it leaves the records as they were and throws the violation of the table's check,
  -- because the account is not listed and would be stored without a tenant.
  pub resolve_account_cases :
      HasUniqueAccess env w
      → Resolved (resolve_account env penv email w) ⊎ Refused (resolve_account env penv email w)
  resolve_account_cases u = elim (settle_access_cases env penv email listed w u) [
    | inl (a, created, gives, found, step, one) ↦
        let w' = (settle_access env penv email listed w).1 in
        let h = resolves (ap (λ r. (r, w')) gives) in
        inl (
          subst Resolved (sym h)
            (a, created, refl, found, one, in_step-admin a step, in_step-role a step))
    | inr (breaks, reason) ↦ let (e, same) = refuses breaks in inr (e, same, reason)
  ]

  demoted_out_of_step :
      (a : TenantUserAccess) → a.is_platform_admin ≡ true → is_out_of_sync false a ≡ true
  demoted_out_of_step a h = ground (arith, h)

  -- An account that the list no longer names and whose record is a platform admin's is refused.
  pub demotion-Refused :
      (a : TenantUserAccess)
      → is_platform_admin_email penv email ≡ false
      → access_of env email w ≡ some a
      → a.is_platform_admin ≡ true
      → a.tenant_id ≡ none
      → ((resolve_account env penv email w).0 ≡ thrown access_scope_violated)
        × ((resolve_account env penv email w).1.user_access ≡ w.user_access)
  demotion-Refused a unlisted found was nowhere = refuses (
      updated_not env penv email listed w found (rw unlisted (demoted_out_of_step a was))
        (stores_not env penv email listed w a (rw (unlisted, nowhere) refl)))
