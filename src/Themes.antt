-- ===== src/Themes.antt =====
-- modules/theme/service.ts: the themes of a tenant's storefront, their settings and whether they are
-- published.
pub mod Activation
pub mod Settings
use medusa_multi_tenancy.Prelude.{
  ℕ, String, Bool, true, false, ◌&&◌, Option, none, some, if◌then◌else◌, str_eq, or_default,
  is_some,
}
use medusa_multi_tenancy.Prelude.Text.{or_else, or_null, is_truthy}
use medusa_multi_tenancy.Schema.{
  ThemeMetadata, ThemeConfig, ThemePublishStatus, PublishStatus, published, unpublished,
}
use medusa_multi_tenancy.Sql.Rows.{first}
use medusa_multi_tenancy.World.{
  Env, World, Exec, ◌>>=◌, ◌>>◌, pure, gets, or_throw, throw_if, modify, draw_uuid, transaction,
  active_theme_not_found, theme_slug_taken,
}
use medusa_multi_tenancy.Apps.Joins.{latest}

-- `UploadAndActivateThemeInput`; an absent text is an empty one, an absent configuration is none
pub record UploadInput : Type 0 where
  pub tenant_id : String
  pub name : String
  pub slug : String
  pub version : String
  pub author : String
  pub description : String
  pub config_json : Option String

-- what `getThemeById` returns; no configuration is an empty one
pub record Theme : Type 0 where
  pub metadata : Option ThemeMetadata
  pub config : String
  pub publish_status : Option ThemePublishStatus

-- `where({ id, tenant_id })` on `theme_metadata`
abbrev pub is_theme : String → String → ThemeMetadata → Bool
is_theme theme_id tenant_id t = str_eq t.id theme_id && str_eq t.tenant_id tenant_id

-- `where({ tenant_id, is_active: true })`
abbrev pub is_active_theme : String → ThemeMetadata → Bool
is_active_theme tenant_id t = str_eq t.tenant_id tenant_id && t.is_active

-- the columns of the unique index `idx_theme_metadata_tenant_slug_unique`
abbrev pub has_theme_slug : String → String → ThemeMetadata → Bool
has_theme_slug tenant_id slug t = str_eq t.tenant_id tenant_id && str_eq t.slug slug

-- `where({ theme_id, tenant_id })` on the two tables that belong to a theme
abbrev pub config_of : String → String → ThemeConfig → Bool
config_of theme_id tenant_id c = str_eq c.theme_id theme_id && str_eq c.tenant_id tenant_id

abbrev pub publish_status_of : String → String → ThemePublishStatus → Bool
publish_status_of theme_id tenant_id s = str_eq s.theme_id theme_id && str_eq s.tenant_id tenant_id

abbrev pub shown_config : Option ThemeConfig → String
shown_config none = "{}"
shown_config (some c) = c.config_json

abbrev pub new_theme : String → UploadInput → ℕ → ThemeMetadata
new_theme id input now = record {
  id = id;
  tenant_id = input.tenant_id;
  name = input.name;
  slug = input.slug;
  version = or_else input.version "1.0.0";
  author = or_null input.author;
  description = or_null input.description;
  is_active = true;
  created_at = now;
  updated_at = now;
}

abbrev pub new_config : String → String → String → String → ℕ → ThemeConfig
new_config id tenant_id theme_id config now = record {
  id = id;
  tenant_id = tenant_id;
  theme_id = theme_id;
  config_json = config;
  updated_at = now;
}

abbrev new_publish_status :
    String → String → String → PublishStatus → Option ℕ → Option ℕ → ℕ → ThemePublishStatus
new_publish_status id tenant_id theme_id status published_at unpublished_at now = record {
  id = id;
  tenant_id = tenant_id;
  theme_id = theme_id;
  status = status;
  published_at = published_at;
  unpublished_at = unpublished_at;
  updated_at = now;
}

abbrev pub deactivated : ℕ → ThemeMetadata → ThemeMetadata
deactivated now t = record t { is_active = false; updated_at = now }

module _ (env : Env) where
  unfoldable pub get_theme_by_id : String → String → Exec env Theme
  get_theme_by_id tenant_id theme_id = gets λ w. record {
    metadata = first env.sql (is_theme theme_id tenant_id) w.themes;
    config = shown_config (first env.sql (config_of theme_id tenant_id) w.theme_configs);
    publish_status = first env.sql (publish_status_of theme_id tenant_id) w.theme_publish_statuses;
  }

  -- The insert into `theme_metadata`: the unique index refuses a slug that the tenant has already.
  abbrev pub insert_theme : ThemeMetadata → Exec env Unit
  insert_theme theme = do
    same ← gets λ w. first env.sql (has_theme_slug theme.tenant_id theme.slug) w.themes
    throw_if (is_some same) theme_slug_taken
    modify λ w. record w { themes = env.sql.insert theme w.themes }

  -- the rows of the two tables that belong to a theme
  abbrev pub write_theme_rows : UploadInput → String → Exec env Unit
  write_theme_rows input theme_id = do
    config_id ← draw_uuid
    modify λ w. record w {
      theme_configs =
          env.sql.insert
            (new_config config_id input.tenant_id theme_id (or_default input.config_json "{}")
              w.now)
            w.theme_configs;
    }
    status_id ← draw_uuid
    modify λ w. record w {
      theme_publish_statuses =
          env.sql.insert
            (new_publish_status status_id input.tenant_id theme_id unpublished none (some w.now)
              w.now)
            w.theme_publish_statuses;
    }

  -- the transaction of `uploadAndActivateTheme`
  unfoldable pub write_upload : UploadInput → String → Exec env Unit
  write_upload input theme_id = do
    modify λ w. record w {
      themes =
          env.sql.update (λ t. str_eq t.tenant_id input.tenant_id) (deactivated w.now) w.themes;
    }
    now ← gets (λ w. w.now)
    insert_theme (new_theme theme_id input now)
    write_theme_rows input theme_id

  unfoldable pub upload_and_activate_theme : UploadInput → Exec env Theme
  upload_and_activate_theme input = do
    theme_id ← draw_uuid
    transaction (write_upload input theme_id)
    get_theme_by_id input.tenant_id theme_id

  -- the theme that is named, or else an active one of the tenant
  abbrev pub chosen : String → Option String → World env → Option ThemeMetadata
  chosen tenant_id none w = first env.sql (is_active_theme tenant_id) w.themes
  chosen tenant_id (some theme_id) w =
      if is_truthy theme_id
      then first env.sql (is_theme theme_id tenant_id) w.themes
      else first env.sql (is_active_theme tenant_id) w.themes

  abbrev pub with_config : String → ℕ → ThemeConfig → ThemeConfig
  with_config config now c = record c { config_json = config; updated_at = now }

  abbrev pub has_config_id : String → ThemeConfig → Bool
  has_config_id id c = str_eq c.id id

  abbrev pub write_config : String → String → String → Option ThemeConfig → Exec env Unit
  write_config tenant_id theme_id config (some c) = modify λ w. record w {
    theme_configs = env.sql.update (has_config_id c.id) (with_config config w.now) w.theme_configs;
  }
  write_config tenant_id theme_id config none = do
    id ← draw_uuid
    modify λ w. record w {
      theme_configs =
          env.sql.insert (new_config id tenant_id theme_id config w.now) w.theme_configs;
    }

  unfoldable pub edit_theme_settings : String → String → Option String → Exec env Theme
  edit_theme_settings tenant_id config theme_id = do
    found ← gets (chosen tenant_id theme_id)
    theme ← or_throw found active_theme_not_found
    existing ← gets (λ w. first env.sql (config_of theme.id tenant_id) w.theme_configs)
    write_config tenant_id theme.id config existing
    get_theme_by_id tenant_id theme.id

  abbrev pub status_for : Bool → PublishStatus
  status_for publish = if publish then published else unpublished

  abbrev with_publish_status :
      Bool → ℕ → ThemePublishStatus → ThemePublishStatus → ThemePublishStatus
  with_publish_status publish now existing s = record s {
    status = status_for publish;
    published_at = if publish then some now else existing.published_at;
    unpublished_at = if publish then existing.unpublished_at else some now;
    updated_at = now;
  }

  abbrev write_status : String → String → Bool → Option ThemePublishStatus → Exec env Unit
  write_status tenant_id theme_id publish (some e) = modify λ w. record w {
    theme_publish_statuses =
        env.sql.update (λ s. str_eq s.id e.id && str_eq s.tenant_id tenant_id)
          (with_publish_status publish w.now e) w.theme_publish_statuses;
  }
  write_status tenant_id theme_id publish none = do
    id ← draw_uuid
    modify λ w. record w {
      theme_publish_statuses =
          env.sql.insert
            (new_publish_status id tenant_id theme_id (status_for publish)
              (if publish then some w.now else none) (if publish then none else some w.now) w.now)
            w.theme_publish_statuses;
    }

  unfoldable pub set_theme_publish_status : String → Bool → Option String → Exec env Theme
  set_theme_publish_status tenant_id publish theme_id = do
    found ← gets (chosen tenant_id theme_id)
    theme ← or_throw found active_theme_not_found
    existing ←
        gets λ w. first env.sql (publish_status_of theme.id tenant_id) w.theme_publish_statuses
    write_status tenant_id theme.id publish existing
    get_theme_by_id tenant_id theme.id

  abbrev show_theme : String → Option ThemeMetadata → Exec env (Option Theme)
  show_theme tenant_id none = pure none
  show_theme tenant_id (some t) = get_theme_by_id tenant_id t.id >>= λ theme. pure (some theme)

  unfoldable pub get_active_theme_for_tenant : String → Exec env (Option Theme)
  get_active_theme_for_tenant tenant_id = do
    found ← gets λ w.
        latest (λ (t : ThemeMetadata). t.created_at)
          (env.sql.select (is_active_theme tenant_id) w.themes)
    show_theme tenant_id found
