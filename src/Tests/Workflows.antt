-- ===== src/Tests/Workflows.antt =====
-- The onboarding of Bond, where the framework has no store to configure.
use medusa_multi_tenancy.Prelude.{◌≡◌, refl, false, [], ◌∷◌, none}
use medusa_multi_tenancy.Schema.{TenantStatus}
use medusa_multi_tenancy.World.{ok, thrown, no_store_found}
use medusa_multi_tenancy.Workflows.{
  CreateTenantWorkflowInput, Framework, Store, create_tenant_onboarding,
}
use medusa_multi_tenancy.Workflows.Onboarding.{Outcome, onboarding_cases}
use medusa_multi_tenancy.Tests.Fixtures.{env, office}

abbrev storeless : Framework
storeless = record {
  create_sales_channels = λ _. ok (record { id = "sc1"; name = "Bond Sales Channel" } ∷ []);
  stores = [];
  update_stores = λ _ _ _. ok [];
}

abbrev main_store : Store
main_store = record { id = "s1"; name = "Main"; default_sales_channel_id = none }

abbrev stocked : Framework
stocked = record storeless { stores = main_store ∷ [] }

abbrev bond : CreateTenantWorkflowInput
bond = record { name = "Bond"; slug = "bond"; owner_email = "bo@bond.io" }

throws_without_store :
    (create_tenant_onboarding env storeless bond (office TenantStatus.active false)).0
    ≡ thrown no_store_found
unfolding create_tenant_onboarding
throws_without_store = refl

keeps_unreturned_store :
    (o : _) × ((create_tenant_onboarding env stocked bond (office TenantStatus.active false)).0
      ≡ ok o)
    × (o.store ≡ main_store)
unfolding create_tenant_onboarding
keeps_unreturned_store = (_, refl, refl)

onboarding_cases_example : Outcome env storeless bond (office TenantStatus.active false)
onboarding_cases_example =
    onboarding_cases env storeless bond (office TenantStatus.active false) (refl, refl, refl)
