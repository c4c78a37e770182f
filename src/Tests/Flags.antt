-- ===== src/Tests/Flags.antt =====
-- A feature in a canary of thirty percent.
use medusa_multi_tenancy.Prelude.{
  ℕ, ◌≡◌, refl, ◌&&◌, ◌+◌, not, String, true, false, none, some, arith, or_default,
}
use medusa_multi_tenancy.Prelude.Maps.{empty_map, set}
use medusa_multi_tenancy.FeatureFlags.{canary, no_rule, FeatureFlagDefinition}
use medusa_multi_tenancy.FeatureFlags.Rollout.{has_at, canary_grows}

abbrev digest_17 : String → ℕ
digest_17 _ = 4217

-- The feature is on by default, with a rule for another tenant alone.
abbrev search : FeatureFlagDefinition
search = record {
  default_enabled = some true;
  strategy = some canary;
  canary_percentage = none;
  blue_environment = none;
  tenants = set "beta" no_rule empty_map;
}

acme_has_no_rule : search.tenants "acme" ≡ none
acme_has_no_rule = refl

canary_grows_example :
    ((has_at digest_17 empty_map "search" "acme" none none search 10
        && not (has_at digest_17 empty_map "search" "acme" none none search 30))
      ≡ false)
    × (has_at digest_17 empty_map "search" "acme" none none
          (record search { strategy = some canary })
          0
        ≡ false)
    × (has_at digest_17 empty_map "search" "acme" none none
          (record search { strategy = some canary })
          (100 + 30)
        ≡ or_default search.default_enabled false)
canary_grows_example =
    canary_grows digest_17 empty_map "search" "acme" none none search 10 30 acme_has_no_rule
      (omega arith)
