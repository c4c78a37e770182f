-- ===== src/Workflows/Onboarding.antt =====
-- What the onboarding workflow leaves, whether it returns or throws.
use medusa_multi_tenancy.Prelude.{
  suc, ◌+◌, ◌≡◌, refl, ap, sym, ◌∙◌, ◌⊎◌, inl, inr, String, Bool, true, ◌&&◌, Option, none, some,
  [], ◌∷◌, one_if, arith, and_true, str_eq, eq_refl,
}
use medusa_multi_tenancy.Prelude.Text.{is_truthy}
use medusa_multi_tenancy.Schema.{Tenant, Membership, AuditEntry}
use medusa_multi_tenancy.Sql.{Sql}
use medusa_multi_tenancy.Sql.Rows.{rows, first, rows_mono, rows-delete_split}
use medusa_multi_tenancy.World.{
  Env, World, PayloadValue, Result, ok, thrown, ServiceError, slug_taken,
}
use medusa_multi_tenancy.AuditLog.{audit_entry, audit_actor}
use medusa_multi_tenancy.TenantManagement.Tenants.{has_slug, new_tenant, owner_membership}
use medusa_multi_tenancy.Workflows.{
  CreateTenantWorkflowInput, CreateTenantStepOutput, Framework, Onboarded, and_then,
  create_default_sales_channel_step, configure_default_store_step, finish_onboarding, channel_id,
  respond, create_tenant_step, compensate_create_tenant, compensated, complete_onboarding,
  create_tenant_onboarding,
}

module _ (sql : Sql) {Row : Type 0} where
  -- A table has the same rows after, or one row more.
  abbrev pub Keeps : sql.Table Row → sql.Table Row → Type 0
  Keeps before after = (q : Row → Bool) → rows sql q after ≡ rows sql q before

  abbrev pub Gains : sql.Table Row → sql.Table Row → Row → Type 0
  Gains before after r = (q : Row → Bool) → rows sql q after ≡ one_if (q r) + rows sql q before

  -- To delete by a key that only the inserted row has undoes the insertion.
  delete-insert-Keeps :
      (k : Row → Bool) (r : Row) (t : sql.Table Row)
      → k r ≡ true
      → rows sql k t ≡ 0
      → Keeps t (sql.delete k (sql.insert r t))
  delete-insert-Keeps k r t key fresh q = ground (
    arith,
    key,
    rows-delete_split sql q k (sql.insert r t),
    sql.rows-insert q r t,
    sql.rows-insert (λ x. k x && q x) r t,
    rows_mono sql (λ x. k x && q x) k t (λ x h. (and_true (k x) (q x) h).0),
    fresh,
  )

ok-inj : {A : Type 0} {a b : A} → ok a ≡ ok b → a ≡ b
ok-inj h = cc

and_then-ok :
    {A B : Type 0} (r : Result A) (next : A → Result B) {b : B}
    → and_then r next ≡ ok b
    → (a : A) × (next a ≡ ok b)
and_then-ok (ok a) next h = (a, h)
and_then-ok (thrown e) next h = cc

module _ (env : Env) (framework : Framework) (input : CreateTenantWorkflowInput)
    (w : World env) where
  abbrev tenant_id : String
  tenant_id = env.random_uuid w.drawn

  abbrev pub created_tenant : Tenant
  created_tenant = new_tenant tenant_id input.name input.slug input.owner_email w.now

  abbrev pub created_owner : Membership
  created_owner = owner_membership (env.random_uuid (suc w.drawn)) tenant_id input.owner_email w.now

  abbrev pub created_output : CreateTenantStepOutput
  created_output = record { tenant = created_tenant; membership_id = env.random_uuid (suc w.drawn) }

  -- `randomUUID()` returns a text that no tenant and no membership has.
  abbrev pub HasFreshId : Type 0
  HasFreshId =
      (is_truthy tenant_id ≡ true)
      × (rows env.sql (λ t. str_eq t.id tenant_id) w.tenants ≡ 0)
      × (rows env.sql (λ m. str_eq m.tenant_id tenant_id) w.memberships ≡ 0)

  abbrev pub onboarded : Result Onboarded × World env
  onboarded = create_tenant_onboarding env framework input w

  abbrev begun : World env
  begun = (create_tenant_step env input w).1

  creates :
      first env.sql (has_slug input.slug) w.tenants ≡ none
      → create_tenant_step env input w ≡ (ok created_output, begun)
  unfolding create_tenant_step
  creates h = ground arith

  goes_on :
      first env.sql (has_slug input.slug) w.tenants ≡ none
      → onboarded ≡ compensated env tenant_id (complete_onboarding framework created_output) begun
  unfolding create_tenant_onboarding create_tenant_step
  goes_on h = ground arith

  refuses :
      {t : Tenant}
      → first env.sql (has_slug input.slug) w.tenants ≡ some t
      → onboarded ≡ (thrown (slug_taken input.slug), w)
  unfolding create_tenant_onboarding create_tenant_step
  refuses h = ground arith

  abbrev pub creation_event : AuditEntry
  creation_event =
      audit_entry env (env.random_uuid (suc (suc w.drawn))) (audit_actor (some input.owner_email))
        tenant_id "tenant_created" tenant_id
        (("name", PayloadValue.text input.name)
          ∷ ("slug", PayloadValue.text input.slug)
          ∷ ("owner_email", PayloadValue.text input.owner_email)
          ∷ [])
        w

  writes :
      first env.sql (has_slug input.slug) w.tenants ≡ none
      → (begun.tenants ≡ env.sql.insert created_tenant w.tenants)
        × (begun.memberships ≡ env.sql.insert created_owner w.memberships)
        × (begun.audit_log ≡ env.sql.insert creation_event w.audit_log)
  unfolding create_tenant_step
  writes h = (ground arith, ground arith, ground arith)

  complete_onboarding-tenant :
      {o : Onboarded}
      → complete_onboarding framework created_output ≡ ok o
      → o.tenant ≡ created_tenant
  unfolding complete_onboarding
  complete_onboarding-tenant h =
      let (channel, later) =
        and_then-ok (create_default_sales_channel_step framework created_tenant)
          (finish_onboarding framework created_output) h in
      let (store, response) =
        and_then-ok (configure_default_store_step framework created_tenant (channel_id channel))
          (λ s. ok (respond created_output channel s)) later in
      ap (λ (o : Onboarded). o.tenant) (sym (ok-inj response))

  -- Nothing of the tenant is left but the audit event.
  abbrev pub IsUndone : ServiceError → Type 0
  IsUndone e =
      (onboarded.0 ≡ thrown e)
      × Keeps env.sql w.tenants onboarded.1.tenants
      × Keeps env.sql w.memberships onboarded.1.memberships

  abbrev pub IsDone : Onboarded → Type 0
  IsDone o =
      (onboarded.0 ≡ ok o)
      × (o.tenant ≡ created_tenant)
      × Gains env.sql w.tenants onboarded.1.tenants created_tenant
      × Gains env.sql w.memberships onboarded.1.memberships created_owner

  undoes :
      {e : ServiceError}
      → first env.sql (has_slug input.slug) w.tenants ≡ none
      → HasFreshId
      → complete_onboarding framework created_output ≡ thrown e
      → IsUndone e × Gains env.sql w.audit_log onboarded.1.audit_log creation_event
  unfolding compensated compensate_create_tenant
  undoes {e} free (id, no_tenant, no_member) h =
      let (tenants, memberships, audit) = writes free in
      let ends : onboarded ≡ (thrown e, compensate_create_tenant env tenant_id begun) =
        goes_on free ∙ ap (λ r. compensated env tenant_id r begun) h in
      rw ends (
        rw id (
          rw tenants (
            rw memberships (
              rw audit (
                (
                  refl,
                  delete-insert-Keeps env.sql (λ t. str_eq t.id tenant_id) created_tenant w.tenants
                      (eq_refl tenant_id) no_tenant,
                  delete-insert-Keeps env.sql (λ m. str_eq m.tenant_id tenant_id) created_owner
                      w.memberships (eq_refl tenant_id) no_member,
                ),
                λ q. env.sql.rows-insert q creation_event w.audit_log,
              )))))

  does :
      {o : Onboarded}
      → first env.sql (has_slug input.slug) w.tenants ≡ none
      → complete_onboarding framework created_output ≡ ok o
      → IsDone o × Gains env.sql w.audit_log onboarded.1.audit_log creation_event
  unfolding compensated
  does {o} free h =
      let (tenants, memberships, audit) = writes free in
      let ends : onboarded ≡ (ok o, begun) =
        goes_on free ∙ ap (λ r. compensated env tenant_id r begun) h in
      rw ends (
        rw tenants (
          rw memberships (
            rw audit (
              (
                refl,
                complete_onboarding-tenant h,
                λ q. env.sql.rows-insert q created_tenant w.tenants,
                λ q. env.sql.rows-insert q created_owner w.memberships,
              ),
              λ q. env.sql.rows-insert q creation_event w.audit_log,
            ))))

  -- Onboarding is refused, or ends in an error or a result after the event of the creation.
  abbrev pub Outcome : Type 0
  Outcome =
      ((t : Tenant) × (first env.sql (has_slug input.slug) w.tenants ≡ some t)
        × (onboarded ≡ (thrown (slug_taken input.slug), w)))
      ⊎ ((first env.sql (has_slug input.slug) w.tenants ≡ none)
          × Gains env.sql w.audit_log onboarded.1.audit_log creation_event
          × (((e : ServiceError) × (complete_onboarding framework created_output ≡ thrown e)
                × IsUndone e)
              ⊎ ((o : Onboarded) × (complete_onboarding framework created_output ≡ ok o)
                  × IsDone o)))

  ends :
      first env.sql (has_slug input.slug) w.tenants ≡ none
      → HasFreshId
      → (r : Result Onboarded) → complete_onboarding framework created_output ≡ r
      → Outcome
  ends free fresh (ok o) h = let (done, audit) = does free h in inr (free, audit, inr (o, h, done))
  ends free fresh (thrown e) h =
      let (undone, audit) = undoes free fresh h in inr (free, audit, inl (e, h, undone))

  outcome :
      HasFreshId → (t : Option Tenant) → first env.sql (has_slug input.slug) w.tenants ≡ t → Outcome
  outcome fresh none h = ends h fresh (complete_onboarding framework created_output) refl
  outcome fresh (some t) h = inl (t, h, refuses h)

  -- Where the drawn tenant identifier is a new, non-empty text, onboarding does one of three things.
  -- If a tenant has the slug, it throws and changes nothing. Otherwise the event `tenant_created` is
  -- recorded, and stays: if the sales channel or the store step throws, so does onboarding, and the
  -- tenants and the memberships are those from before; if they return, it returns the new tenant, which
  -- is stored with its owner's membership, and all else in both tables is as before.
  pub onboarding_cases : HasFreshId → Outcome
  onboarding_cases fresh = outcome fresh (first env.sql (has_slug input.slug) w.tenants) refl
