-- ===== src/Workflows.antt =====
-- workflows/tenant/create-tenant.ts: the workflow that creates a tenant with its sales channel and store.
--
-- A workflow runs its steps in order. Where a step throws, the compensations of the completed steps
-- run, the last step's first, and the workflow throws. Only the first step here has one. What the
-- steps ask of the framework's own workflows and of its store module is a parameter.
pub mod Onboarding
use Prim.Native.String.{◌++◌ as text_append}
use medusa_multi_tenancy.Prelude.{
  ℕ, String, Bool, false, Option, none, some, List, [], ◌∷◌, head?, or_default, if◌then◌else◌,
  is_some, str_eq,
}
use medusa_multi_tenancy.Prelude.Text.{is_truthy}
use medusa_multi_tenancy.Schema.{Tenant, Membership}
use medusa_multi_tenancy.Sql.Rows.{first}
use medusa_multi_tenancy.World.{
  Env, World, Exec, Result, ok, thrown, PayloadValue, ◌>>=◌, ◌>>◌, pure, gets, throw_if, modify,
  draw_uuid, slug_taken, no_store_found,
}
use medusa_multi_tenancy.AuditLog.{record_event}
use medusa_multi_tenancy.TenantManagement.Tenants.{has_slug, new_tenant, owner_membership}

pub record SalesChannelInput : Type 0 where
  pub name : String
  pub description : String
  pub is_disabled : Bool

pub record SalesChannel : Type 0 where
  pub id : String
  pub name : String

pub record Store : Type 0 where
  pub id : String
  pub name : String
  pub default_sales_channel_id : Option String

-- The framework: what `createSalesChannelsWorkflow` returns, the stores that `listStores` finds, and
-- what `updateStoresWorkflow` returns for a store's identifier, name and sales channel.
pub record Framework : Type 0 where
  pub create_sales_channels : List SalesChannelInput → Result (List SalesChannel)
  pub stores : List Store
  pub update_stores : String → String → Option String → Result (List Store)

pub record CreateTenantWorkflowInput : Type 0 where
  pub name : String
  pub slug : String
  pub owner_email : String

pub record CreateTenantStepOutput : Type 0 where
  pub tenant : Tenant
  pub membership_id : String

pub record Onboarded : Type 0 where
  pub tenant : Tenant
  pub owner_membership_id : String
  pub default_sales_channel : Option SalesChannel
  pub store : Store

-- `createTenantStep`
unfoldable pub create_tenant_step :
    (env : Env) → CreateTenantWorkflowInput → Exec env CreateTenantStepOutput
create_tenant_step env input = do
  existing_tenant ← gets λ w. first env.sql (has_slug input.slug) w.tenants
  throw_if (is_some existing_tenant) (slug_taken input.slug)
  tenant_id ← draw_uuid
  membership_id ← draw_uuid
  tenant ← gets λ w. new_tenant tenant_id input.name input.slug input.owner_email w.now
  modify λ w. record w { tenants = env.sql.insert tenant w.tenants }
  modify λ w. record w {
    memberships =
        env.sql.insert (owner_membership membership_id tenant_id input.owner_email w.now)
          w.memberships;
  }
  record_event env (some input.owner_email) tenant_id "tenant_created" tenant_id (
      ("name", PayloadValue.text input.name)
      ∷ ("slug", PayloadValue.text input.slug)
      ∷ ("owner_email", PayloadValue.text input.owner_email)
      ∷ [])
  pure (record { tenant = tenant; membership_id = membership_id })

-- the compensation of `createTenantStep`
unfoldable pub compensate_create_tenant : (env : Env) → String → World env → World env
compensate_create_tenant env tenant_id w =
    if is_truthy tenant_id
    then record w {
      memberships = env.sql.delete (λ (m : Membership). str_eq m.tenant_id tenant_id) w.memberships;
      tenants = env.sql.delete (λ (t : Tenant). str_eq t.id tenant_id) w.tenants;
    }
    else w

-- The next step of a workflow, where the one before returned.
abbrev pub and_then : {A B : Type 0} → Result A → (A → Result B) → Result B
and_then r next = elim r [ ok a ↦ next a | thrown e ↦ thrown e ]

-- `createDefaultSalesChannelStep`
unfoldable pub create_default_sales_channel_step : Framework → Tenant → Result (Option SalesChannel)
create_default_sales_channel_step framework tenant =
    and_then
      (framework.create_sales_channels (
        record {
          name = text_append tenant.name " Sales Channel";
          description = text_append "Default sales channel for " tenant.name;
          is_disabled = false;
        }
        ∷ []))
      (λ channels. ok (head? channels))

configure_store : Framework → Tenant → Option String → Option Store → Result Store
configure_store framework tenant channel_id none = thrown no_store_found
configure_store framework tenant channel_id (some store) =
    if is_truthy store.id
    then and_then (framework.update_stores store.id tenant.name channel_id)
        (λ stores. ok (or_default (head? stores) store))
    else thrown no_store_found

-- `configureDefaultStoreStep`
unfoldable pub configure_default_store_step : Framework → Tenant → Option String → Result Store
unfolding configure_store
configure_default_store_step framework tenant channel_id =
    configure_store framework tenant channel_id (head? framework.stores)

-- `sales_channel.id`, undefined where no channel was returned
abbrev pub channel_id : Option SalesChannel → Option String
channel_id none = none
channel_id (some channel) = some channel.id

-- the response
abbrev pub respond : CreateTenantStepOutput → Option SalesChannel → Store → Onboarded
respond created channel store = record {
  tenant = created.tenant;
  owner_membership_id = created.membership_id;
  default_sales_channel = channel;
  store = store;
}

-- the last step, and the response
abbrev pub finish_onboarding :
    Framework → CreateTenantStepOutput → Option SalesChannel → Result Onboarded
finish_onboarding framework created channel =
    and_then (configure_default_store_step framework created.tenant (channel_id channel))
      (λ store. ok (respond created channel store))

-- the steps after the first, and the response
unfoldable pub complete_onboarding : Framework → CreateTenantStepOutput → Result Onboarded
unfolding create_default_sales_channel_step configure_default_store_step
complete_onboarding framework created =
    and_then (create_default_sales_channel_step framework created.tenant)
      (finish_onboarding framework created)

-- A step's result after `createTenantStep`: where it is an error, the compensation runs.
unfoldable pub compensated : {A : Type 0} → (env : Env) → String → Result A → Exec env A
compensated env tenant_id (ok a) w = (ok a, w)
compensated env tenant_id (thrown e) w = (thrown e, compensate_create_tenant env tenant_id w)

-- `createTenantOnboardingWorkflow`
unfoldable pub create_tenant_onboarding :
    (env : Env) → Framework → CreateTenantWorkflowInput → Exec env Onboarded
unfolding create_tenant_step compensated complete_onboarding compensate_create_tenant
create_tenant_onboarding env framework input = do
  created ← create_tenant_step env input
  compensated env created.tenant.tenant_id (complete_onboarding framework created)
