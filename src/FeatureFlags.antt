-- ===== src/FeatureFlags.antt =====
-- tenant-context/feature-flags.ts: which features a tenant has. Percentages are whole numbers here.
pub mod Rollout
use Prim.Native.String.{◌++◌ as text_append}
use medusa_multi_tenancy.Prelude.{
  ℕ, ◌%◌, String, Bool, true, false, not, ◌||◌, Option, none, some, if◌then◌else◌, ltb, or_default,
}
use medusa_multi_tenancy.Prelude.Text.{or_else}
use medusa_multi_tenancy.Prelude.Maps.{Map}

pub data ReleaseStrategy : Type 0 where
  off all canary blue_green : ReleaseStrategy

pub data Environment : Type 0 where
  blue green : Environment

-- A number as it may stand in the configuration.
pub data Percentage : Type 0 where
  negative not_a_number : Percentage
  percent : ℕ → Percentage

pub record TenantFlagRule : Type 0 where
  pub enabled : Option Bool
  pub strategy : Option ReleaseStrategy
  pub canary_percentage : Option Percentage
  pub blue_environment : Option Environment

-- no fields at all, `{}`
abbrev pub no_rule : TenantFlagRule
no_rule = record {
  enabled = none;
  strategy = none;
  canary_percentage = none;
  blue_environment = none;
}

pub record FeatureFlagDefinition : Type 0 where
  pub default_enabled : Option Bool
  pub strategy : Option ReleaseStrategy
  pub canary_percentage : Option Percentage
  pub blue_environment : Option Environment
  pub tenants : Map TenantFlagRule

-- the resolved rule, every field given
pub record Rule : Type 0 where
  pub enabled : Bool
  pub strategy : ReleaseStrategy
  pub canary_percentage : ℕ
  pub blue_environment : Environment

-- `a ?? b`
abbrev pub either : {A : Type 0} → Option A → Option A → Option A
either none b = b
either (some a) b = some a

unfoldable pub normalize_percentage : Option Percentage → ℕ
normalize_percentage none = 0
normalize_percentage (some negative) = 0
normalize_percentage (some not_a_number) = 0
normalize_percentage (some (percent n)) = if ltb 100 n then 100 else n

unfoldable pub resolve_rule : FeatureFlagDefinition → String → Rule
resolve_rule flag tenant_id =
    let rule = or_default (flag.tenants tenant_id) no_rule in
    let enabled = or_default (either rule.enabled flag.default_enabled) false in
    record {
      enabled = enabled;
      strategy = or_default (either rule.strategy flag.strategy) (if enabled then all else off);
      canary_percentage =
          normalize_percentage (either rule.canary_percentage flag.canary_percentage);
      blue_environment = or_default (either rule.blue_environment flag.blue_environment) blue;
    }

abbrev pub same_environment : Environment → Environment → Bool
same_environment blue blue = true
same_environment green green = true
same_environment _ _ = false

-- `!targetEnvironment || targetEnvironment === blue_environment`
abbrev pub is_target : Option Environment → Environment → Bool
is_target none e = true
is_target (some target) e = same_environment target e

-- The number that the first eight hexadecimal digits of a SHA-256 digest spell is a parameter.
module _ (digest_prefix : String → ℕ) where
  unfoldable pub stable_percent : String → ℕ
  stable_percent seed = digest_prefix seed % 100

  -- `${flag}:${tenantId}:${identity}`
  abbrev pub seed_of : String → String → Option String → String
  seed_of flag tenant_id subject_id = text_append flag (
      text_append ":"
        (text_append tenant_id (text_append ":" (or_else (or_default subject_id "") tenant_id))))

  abbrev pub released : Rule → String → String → Option String → Option Environment → Bool
  released rule flag tenant_id subject_id target = elim rule.strategy [
    | off ↦ false
    | all ↦ true
    | blue_green ↦ is_target target rule.blue_environment
    | canary ↦ ltb (stable_percent (seed_of flag tenant_id subject_id)) rule.canary_percentage
  ]

  unfoldable pub is_feature_enabled_for_tenant :
      Map FeatureFlagDefinition → String → String → Option String → Option Environment → Bool
  unfolding resolve_rule
  is_feature_enabled_for_tenant registry flag tenant_id subject_id target = elim (registry flag) [
    | none ↦ false
    | some definition ↦
        let rule = resolve_rule definition tenant_id in
        if rule.enabled then released rule flag tenant_id subject_id target else false
  ]
