-- ===== src/Themes/Settings.antt =====
-- What `editThemeSettings` stores and shows.
use medusa_multi_tenancy.Prelude.{
  ◌≤◌, ◌≡◌, ◌∙◌, refl, ap, String, Option, none, some, arith, str_eq, eq_iff, eq_refl,
}
use medusa_multi_tenancy.Schema.{ThemeMetadata, ThemeConfig}
use medusa_multi_tenancy.Sql.Rows.{rows, first, first_meets, first-none}
use medusa_multi_tenancy.Sql.Single.{update-Finds, insert-Finds}
use medusa_multi_tenancy.World.{Env, World, ok}
use medusa_multi_tenancy.Themes.{
  Theme, chosen, config_of, has_config_id, with_config, write_config, new_config, shown_config,
  get_theme_by_id, edit_theme_settings,
}

module _ (env : Env) (tenant_id config : String) (theme_id : Option String) (w : World env) where
  -- The primary key of `theme_config`, and one configuration for each theme.
  abbrev pub HasUniqueConfigs : Type 0
  HasUniqueConfigs =
      ((id : String) → rows env.sql (has_config_id env id) w.theme_configs ≤ 1)
      × ((id : String) → rows env.sql (config_of id tenant_id) w.theme_configs ≤ 1)

  abbrev pub edited : World env
  edited = (edit_theme_settings env tenant_id config theme_id w).1

  abbrev stored : ThemeMetadata → World env → Option ThemeConfig
  stored t w' = first env.sql (config_of t.id tenant_id) w'.theme_configs

  module _ (t : ThemeMetadata) (found : chosen env tenant_id theme_id w ≡ some t) where
    edits :
        (existing : Option ThemeConfig)
        → stored t w ≡ existing
        → edit_theme_settings env tenant_id config theme_id w
          ≡ get_theme_by_id env tenant_id t.id (write_config env tenant_id t.id config existing w).1
    unfolding edit_theme_settings get_theme_by_id
    edits none h = ground arith
    edits (some c) h = ground arith

    finds :
        (existing : Option ThemeConfig)
        → stored t w ≡ existing
        → HasUniqueConfigs
        → (c : ThemeConfig) × (stored t (write_config env tenant_id t.id config existing w).1
            ≡ some c)
          × (c.config_json ≡ config)
    finds none absent u =
        let new = new_config (env.random_uuid w.drawn) tenant_id t.id config w.now in
        let (c, h, alike, _) =
          insert-Finds env.sql (config_of t.id tenant_id) new w.theme_configs
            (first-none env.sql (config_of t.id tenant_id) w.theme_configs absent)
            (ground (arith, eq_refl t.id, eq_refl tenant_id)) in
        (c, h, (eq_iff _ _).0 (alike (λ x. str_eq x.config_json config) ∙ eq_refl config))
    finds (some e) there (ids, configs) =
        let (c, h, alike, _) =
          update-Finds env.sql (config_of t.id tenant_id) (has_config_id env e.id)
            (with_config env config w.now) w.theme_configs there (configs t.id) (eq_refl e.id)
            (ids e.id) (first_meets env.sql (config_of t.id tenant_id) w.theme_configs there) in
        (c, h, (eq_iff _ _).0 (alike (λ x. str_eq x.config_json config) ∙ eq_refl config))

    shows :
        (w' : World env) {c : ThemeConfig}
        → stored t w' ≡ some c
        → (theme : Theme) × (get_theme_by_id env tenant_id t.id w' ≡ (ok theme, w'))
          × (theme.config ≡ c.config_json)
    unfolding get_theme_by_id
    shows w' h = (_, refl, ap shown_config h)

  -- Where a theme is found, `editThemeSettings` returns the theme with the given settings, and so does
  -- `getThemeById` afterwards. The identifiers of configurations are unique, and a theme has one at
  -- most.
  pub edited_settings_are_shown :
      (t : ThemeMetadata)
      → chosen env tenant_id theme_id w ≡ some t
      → HasUniqueConfigs
      → (theme : Theme) × ((edit_theme_settings env tenant_id config theme_id w).0 ≡ ok theme)
        × (theme.config ≡ config)
        × ((get_theme_by_id env tenant_id t.id edited).0 ≡ ok theme)
  edited_settings_are_shown t found u =
      let (c, there, same) = finds t found (stored t w) refl u in
      let w' = (write_config env tenant_id t.id config (stored t w) w).1 in
      let (theme, gives, config_shown) = shows t found w' there in
      let e = edits t found (stored t w) refl ∙ gives in
      (theme, ap (λ r. r.0) e, config_shown ∙ same, rw (ap (λ r. r.1) e) (ap (λ r. r.0) gives))
