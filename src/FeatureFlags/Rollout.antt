-- ===== src/FeatureFlags/Rollout.antt =====
-- How a rollout grows, and who it is for.
use medusa_multi_tenancy.Prelude.{
  ℕ, ◌+◌, eq_refl, ◌≤◌, ◌≡◌, String, Bool, false, not, ◌&&◌, Option, none, some, arith, str_eq,
  or_default,
}
use medusa_multi_tenancy.Prelude.Maps.{Map, set}
use medusa_multi_tenancy.FeatureFlags.{
  canary, Environment, percent, TenantFlagRule, FeatureFlagDefinition, normalize_percentage,
  resolve_rule, stable_percent, is_feature_enabled_for_tenant,
}

-- The flag with this percentage.
abbrev pub with_percentage : ℕ → FeatureFlagDefinition → FeatureFlagDefinition
with_percentage n d = record d { canary_percentage = some (percent n) }

module _ (digest_prefix : String → ℕ) (registry : Map FeatureFlagDefinition)
    (flag tenant_id : String) (subject : Option String) (target : Option Environment) where
  abbrev pub has_at : FeatureFlagDefinition → ℕ → Bool
  has_at d n =
      is_feature_enabled_for_tenant digest_prefix (set flag (with_percentage n d) registry) flag
        tenant_id subject target

  -- For a tenant that a flag has no rule for, raising the percentage of the flag takes the feature from
  -- nobody. If the flag's strategy is a canary, nobody of the tenant has it at 0, and from 100 on
  -- everybody does if the flag is enabled by default, and nobody otherwise.
  pub canary_grows :
      (d : FeatureFlagDefinition) (n m : ℕ)
      → d.tenants tenant_id ≡ none
      → n ≤ m
      → ((has_at d n && not (has_at d m)) ≡ false)
        × (has_at (record d { strategy = some canary }) 0 ≡ false)
        × (has_at (record d { strategy = some canary }) (100 + m)
            ≡ or_default d.default_enabled false)
  unfolding is_feature_enabled_for_tenant resolve_rule normalize_percentage stable_percent
  canary_grows d n m no_rule_here h =
      (ground (arith, eq_refl flag), ground (arith, eq_refl flag), ground (arith, eq_refl flag))

  -- A rule for one tenant changes nothing for the others.
  pub tenant_rule_is_local :
      (d : FeatureFlagDefinition) (other : String) (rule : TenantFlagRule)
      → str_eq other tenant_id ≡ false
      → is_feature_enabled_for_tenant digest_prefix
          (set flag (record d { tenants = set other rule d.tenants }) registry)
          flag
          tenant_id
          subject
          target
        ≡ is_feature_enabled_for_tenant digest_prefix
            (set flag d registry)
            flag
            tenant_id
            subject
            target
  unfolding is_feature_enabled_for_tenant resolve_rule
  tenant_rule_is_local d other rule h = ground (arith, eq_refl flag)
