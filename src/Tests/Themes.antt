-- ===== src/Tests/Themes.antt =====
-- A theme that Acme uploads over an older one, and edits.
use medusa_multi_tenancy.Prelude.{suc, ◌<◌, ◌⊎◌, ◌≡◌, refl, true, false, none, [], ◌∷◌, arith}
use medusa_multi_tenancy.Schema.{TenantStatus, ThemeMetadata}
use medusa_multi_tenancy.Sql.Rows.{rows}
use medusa_multi_tenancy.Sql.Memory.{update_rows}
use medusa_multi_tenancy.World.{World, ok, thrown, theme_slug_taken}
use medusa_multi_tenancy.Themes.{
  UploadInput, Theme, write_upload, get_theme_by_id, upload_and_activate_theme, edit_theme_settings,
}
use medusa_multi_tenancy.Themes.Activation.{upload, taken, IsSwitchedOver, upload_activates_one}
use medusa_multi_tenancy.Themes.Settings.{HasUniqueConfigs, edited, edited_settings_are_shown}
use medusa_multi_tenancy.Tests.Fixtures.{env, office}

abbrev older : ThemeMetadata
older = record {
  id = "t1";
  tenant_id = "acme";
  name = "Plain";
  slug = "plain";
  version = "1.0.0";
  author = none;
  description = none;
  is_active = true;
  created_at = 0;
  updated_at = 0;
}

abbrev decorated : World env
decorated = record (office TenantStatus.active false) { themes = older ∷ [] }

abbrev bright : UploadInput
bright = record {
  tenant_id = "acme";
  name = "Bright";
  slug = "bright";
  version = "";
  author = "";
  description = "";
  config_json = none;
}

upload_activates_one_example :
    ((0 < rows env.sql (taken env bright decorated) decorated.themes)
      × (upload env bright decorated
          ≡ (thrown theme_slug_taken, record decorated { drawn = suc decorated.drawn })))
    ⊎ ((rows env.sql (taken env bright decorated) decorated.themes ≡ 0)
        × IsSwitchedOver env bright decorated "other")
upload_activates_one_example = upload_activates_one env bright decorated "other" refl

-- Here the tenant gets the new theme; under the slug of the old one the upload is refused.
slug_is_free : rows env.sql (taken env bright decorated) decorated.themes ≡ 0
slug_is_free = refl

slug_is_taken :
    (upload_and_activate_theme env (record bright { slug = "plain" }) decorated).0
    ≡ thrown theme_slug_taken
unfolding upload_and_activate_theme write_upload update_rows
slug_is_taken = refl

no_configs : HasUniqueConfigs env "acme" "{blue}" none decorated
no_configs = (λ id. omega arith, λ id. omega arith)

edited_settings_are_shown_example :
    (theme : Theme) × ((edit_theme_settings env "acme" "{blue}" none decorated).0 ≡ ok theme)
    × (theme.config ≡ "{blue}")
    × ((get_theme_by_id env "acme" "t1" (edited env "acme" "{blue}" none decorated)).0 ≡ ok theme)
edited_settings_are_shown_example =
    edited_settings_are_shown env "acme" "{blue}" none decorated older refl no_configs
