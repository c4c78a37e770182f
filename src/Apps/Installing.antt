-- ===== src/Apps/Installing.antt =====
-- modules/apps/service.ts: `installApp`, `uninstallApp`, `rotateAppSecret`.
pub mod Credentials
pub mod Secrets
pub mod Reinstalling
use medusa_multi_tenancy.Prelude.{
  ℕ, String, Bool, true, false, not, ◌&&◌, Option, none, some, List, [], ◌∷◌, ◌++◌, map, filter,
  if◌then◌else◌, str_eq, or_default, is_some,
}
use medusa_multi_tenancy.Prelude.Text.{trim, is_truthy, or_null, or_else, unique}
use medusa_multi_tenancy.Schema.{
  AppInstallation, installed, uninstalled, is_installed, AppScope, AppWebhook, AppCredential,
}
use medusa_multi_tenancy.Sql.{Sql}
use medusa_multi_tenancy.Sql.Rows.{first}
use medusa_multi_tenancy.World.{
  Env, World, Exec, ◌>>=◌, ◌>>◌, pure, gets, or_throw, throw_if, modify, draw_uuid, draw_bytes,
  transaction, app_already_installed, installed_app_not_found,
}
use Prim.Native.String.{◌++◌ as append}

-- an entry of `webhooks`
pub record Hook : Type 0 where
  pub event_name : String
  pub target_url : String

-- `InstallAppInput`; absent lists are empty ones, an absent URL is an empty one
pub record InstallAppInput : Type 0 where
  pub tenant_id : String
  pub app_name : String
  pub app_identifier : String
  pub app_url : String
  pub scopes : List String
  pub webhooks : List Hook

-- what `installApp` returns
pub record InstalledApp : Type 0 where
  pub app_id : String
  pub key_id : String
  pub secret : String
  pub events : List String
  pub scopes : List String

-- what `rotateAppSecret` returns
pub record RotatedSecret : Type 0 where
  pub app_id : String
  pub key_id : String
  pub secret : String

abbrev pub default_events : List String
default_events = "order.created" ∷ "product.updated" ∷ "customer.created" ∷ []

unfoldable pub normalized_scopes : List String → List String
unfolding unique trim
normalized_scopes scopes = unique (filter is_truthy (map trim scopes))

-- `${hook.event_name}:${hook.target_url}`
abbrev hook_key : Hook → String
hook_key h = append h.event_name (append ":" h.target_url)

-- `map.set(key, hook)`: the value of a key that is there is replaced at its place
abbrev set_hook : Hook → List Hook → List Hook
set_hook h [] = h ∷ []
set_hook h (g ∷ gs) =
    let rest = set_hook h gs in if str_eq (hook_key g) (hook_key h) then h ∷ gs else g ∷ rest

-- `new Map(...).values()`
abbrev set_hooks : List Hook → List Hook → List Hook
set_hooks [] kept = kept
set_hooks (h ∷ hs) kept = set_hooks hs (set_hook h kept)

abbrev default_hook : String → String → Hook
default_hook url event_name = record { event_name = event_name; target_url = url }

abbrev is_complete : Hook → Bool
is_complete h = is_truthy h.event_name && is_truthy h.target_url

unfoldable pub normalized_webhooks : InstallAppInput → List Hook
normalized_webhooks input =
    set_hooks
      (filter is_complete (input.webhooks ++ map (default_hook input.app_url) default_events)) []

-- `where({ tenant_id, app_identifier })`
abbrev pub is_app : String → String → AppInstallation → Bool
is_app tenant_id app_identifier a =
    str_eq a.tenant_id tenant_id && str_eq a.app_identifier app_identifier

-- `where({ id, tenant_id })`
abbrev pub is_installation : String → String → AppInstallation → Bool
is_installation app_id tenant_id a = str_eq a.id app_id && str_eq a.tenant_id tenant_id

-- `where({ app_id, tenant_id })` on `app_credential`
abbrev pub is_credential : String → String → AppCredential → Bool
is_credential app_id tenant_id c = str_eq c.app_id app_id && str_eq c.tenant_id tenant_id

abbrev pub new_installation : String → InstallAppInput → ℕ → AppInstallation
new_installation app_id input now = record {
  id = app_id;
  tenant_id = input.tenant_id;
  app_name = input.app_name;
  app_identifier = input.app_identifier;
  app_url = or_null input.app_url;
  status = installed;
  installed_at = now;
  uninstalled_at = none;
  updated_at = now;
}

abbrev pub new_credential : String → String → String → String → String → ℕ → AppCredential
new_credential id tenant_id app_id key_id secret now = record {
  id = id;
  tenant_id = tenant_id;
  app_id = app_id;
  key_id = key_id;
  secret = secret;
  is_active = true;
  rotated_at = none;
  created_at = now;
  updated_at = now;
}

-- what a rotation and an uninstallation write into a credential
abbrev pub retired : ℕ → AppCredential → AppCredential
retired now c = record c { is_active = false; rotated_at = some now; updated_at = now }

abbrev pub retired_unmarked : ℕ → AppCredential → AppCredential
retired_unmarked now c = record c { is_active = false; rotated_at = some now }

module _ (env : Env) where
  -- `createAppSecret`
  abbrev pub create_app_secret : Exec env String
  create_app_secret = draw_bytes 32

  -- `createKeyId`
  unfoldable pub create_key_id : Exec env String
  create_key_id = draw_bytes 8 >>= λ hex. pure (append "app_key_" hex)

  -- one identifier and one row for each entry
  unfoldable pub insert_scopes : String → String → List String → Exec env Unit
  insert_scopes tenant_id app_id [] = pure tt
  insert_scopes tenant_id app_id (scope ∷ scopes) = do
    id ← draw_uuid
    modify λ w. record w {
      app_scopes =
          env.sql.insert (record { id = id; tenant_id = tenant_id; app_id = app_id; scope = scope })
            w.app_scopes;
    }
    insert_scopes tenant_id app_id scopes

  unfoldable pub insert_webhooks : String → String → List Hook → Exec env Unit
  insert_webhooks tenant_id app_id [] = pure tt
  insert_webhooks tenant_id app_id (hook ∷ hooks) = do
    id ← draw_uuid
    modify λ w. record w {
      app_webhooks =
          env.sql.insert
            (record {
              id = id;
              tenant_id = tenant_id;
              app_id = app_id;
              event_name = hook.event_name;
              target_url = hook.target_url;
              is_active = true;
            })
            w.app_webhooks;
    }
    insert_webhooks tenant_id app_id hooks

  abbrev pub insert_credential : String → String → String → String → Exec env Unit
  insert_credential tenant_id app_id key_id secret = do
    id ← draw_uuid
    modify λ w. record w {
      app_credentials =
          env.sql.insert (new_credential id tenant_id app_id key_id secret w.now) w.app_credentials;
    }

  -- the transaction of `installApp`
  unfoldable pub write_installation : InstallAppInput → String → String → String → Exec env Unit
  write_installation input app_id key_id secret = do
    modify λ w. record w {
      app_installations = env.sql.insert (new_installation app_id input w.now) w.app_installations;
    }
    insert_scopes input.tenant_id app_id (normalized_scopes input.scopes)
    insert_webhooks input.tenant_id app_id (normalized_webhooks input)
    insert_credential input.tenant_id app_id key_id secret

  unfoldable pub install_app : InstallAppInput → Exec env InstalledApp
  install_app input = do
    existing ←
        gets (λ w. first env.sql (is_app input.tenant_id input.app_identifier) w.app_installations)
    throw_if (is_some existing) (app_already_installed input.app_identifier)
    app_id ← draw_uuid
    key_id ← create_key_id
    secret ← create_app_secret
    transaction (write_installation input app_id key_id secret)
    pure (record {
      app_id = app_id;
      key_id = key_id;
      secret = secret;
      events = map (λ h. h.event_name) (normalized_webhooks input);
      scopes = normalized_scopes input.scopes;
    })

  abbrev pub uninstalled_at : ℕ → AppInstallation → AppInstallation
  uninstalled_at now a = record a {
    status = uninstalled;
    uninstalled_at = some now;
    updated_at = now;
  }

  -- the transaction of `uninstallApp`
  unfoldable pub write_uninstallation : String → String → Exec env Unit
  write_uninstallation tenant_id app_id = do
    modify λ w. record w {
      app_installations =
          env.sql.update (is_installation app_id tenant_id) (uninstalled_at w.now)
            w.app_installations;
    }
    modify λ w. record w {
      app_scopes =
          env.sql.delete (λ s. str_eq s.app_id app_id && str_eq s.tenant_id tenant_id) w.app_scopes;
    }
    modify λ w. record w {
      app_webhooks =
          env.sql.delete (λ h. str_eq h.app_id app_id && str_eq h.tenant_id tenant_id)
            w.app_webhooks;
    }
    modify λ w. record w {
      app_credentials =
          env.sql.update (is_credential app_id tenant_id) (retired_unmarked w.now)
            w.app_credentials;
    }

  unfoldable pub uninstall_app : String → String → Exec env Unit
  uninstall_app tenant_id app_id = do
    found ← gets (λ w. first env.sql (is_installation app_id tenant_id) w.app_installations)
    _ ← or_throw found installed_app_not_found
    transaction (write_uninstallation tenant_id app_id)

  -- the transaction of `rotateAppSecret`
  unfoldable pub write_rotation : String → String → String → String → Exec env Unit
  write_rotation tenant_id app_id key_id secret = do
    modify λ w. record w {
      app_credentials =
          env.sql.update (λ c. is_credential app_id tenant_id c && c.is_active) (retired w.now)
            w.app_credentials;
    }
    insert_credential tenant_id app_id key_id secret

  unfoldable pub rotate_app_secret : String → String → Exec env RotatedSecret
  rotate_app_secret tenant_id app_id = do
    found ← gets λ w.
        first env.sql (λ a. is_installation app_id tenant_id a && is_installed a.status)
          w.app_installations
    _ ← or_throw found installed_app_not_found
    secret ← create_app_secret
    key_id ← create_key_id
    transaction (write_rotation tenant_id app_id key_id secret)
    pure (record { app_id = app_id; key_id = key_id; secret = secret })
