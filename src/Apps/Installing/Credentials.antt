-- ===== src/Apps/Installing/Credentials.antt =====
-- What installing, rotating and uninstalling do to the credentials of an app.
use medusa_multi_tenancy.Prelude.{
  suc, ◌≡◌, ◌∙◌, refl, String, none, some, List, [], ◌∷◌, map, arith,
}
use medusa_multi_tenancy.Schema.{AppInstallation}
use medusa_multi_tenancy.Sql.Rows.{first}
use medusa_multi_tenancy.World.{Env, World, Result, ok, thrown, app_already_installed}
use medusa_multi_tenancy.Apps.Installing.{
  Hook, InstallAppInput, InstalledApp, is_app, new_installation, new_credential, create_key_id,
  insert_scopes, insert_webhooks, insert_credential, write_installation, install_app,
  normalized_scopes, normalized_webhooks,
}

module _ (env : Env) where
  -- the tables that the entries of scopes and webhooks leave alone
  abbrev Same : World env → World env → Type 0
  Same w w' =
      (w'.app_credentials ≡ w.app_credentials)
      × (w'.app_installations ≡ w.app_installations)
      × (w'.now ≡ w.now)
      × (w'.tenants ≡ w.tenants)

  pub insert_scopes-Same :
      (tenant_id app_id : String) (scopes : List String) (w : World env)
      → ((insert_scopes env tenant_id app_id scopes w).0 ≡ ok tt)
        × Same w (insert_scopes env tenant_id app_id scopes w).1
  unfolding insert_scopes
  insert_scopes-Same tenant_id app_id [] w = (refl, (refl, refl, refl, refl))
  insert_scopes-Same tenant_id app_id (s ∷ ss) w = insert_scopes-Same tenant_id app_id ss _

  pub insert_webhooks-Same :
      (tenant_id app_id : String) (hooks : List Hook) (w : World env)
      → ((insert_webhooks env tenant_id app_id hooks w).0 ≡ ok tt)
        × Same w (insert_webhooks env tenant_id app_id hooks w).1
  unfolding insert_webhooks
  insert_webhooks-Same tenant_id app_id [] w = (refl, (refl, refl, refl, refl))
  insert_webhooks-Same tenant_id app_id (h ∷ hs) w = insert_webhooks-Same tenant_id app_id hs _

module _ (env : Env) (input : InstallAppInput) (w : World env) where
  abbrev before_write : World env
  before_write = record w { drawn = suc w.drawn; random_drawn = suc (suc w.random_drawn) }

  abbrev pub new_app_id : String
  new_app_id = env.random_uuid w.drawn

  abbrev new_key_id : String
  new_key_id = Prim.Native.String.◌++◌ "app_key_" (env.random_bytes w.random_drawn 8)

  abbrev pub new_secret : String
  new_secret = env.random_bytes (suc w.random_drawn) 32

  abbrev w1 : World env
  w1 = record before_write {
    app_installations =
        env.sql.insert (new_installation new_app_id input w.now) w.app_installations;
  }

  abbrev w2 : World env
  w2 = (insert_scopes env input.tenant_id new_app_id (normalized_scopes input.scopes) w1).1

  abbrev w3 : World env
  w3 = (insert_webhooks env input.tenant_id new_app_id (normalized_webhooks input) w2).1

  abbrev w4 : World env
  w4 = (insert_credential env input.tenant_id new_app_id new_key_id new_secret w3).1

  writes : write_installation env input new_app_id new_key_id new_secret before_write ≡ (ok tt, w4)
  unfolding write_installation
  writes = ground (
    arith,
    (insert_scopes-Same env input.tenant_id new_app_id (normalized_scopes input.scopes) w1).0,
    (insert_webhooks-Same env input.tenant_id new_app_id (normalized_webhooks input) w2).0,
  )

  -- Where the app is not there yet, `installApp` stores it with one credential.
  abbrev pub Installs : Result InstalledApp × World env → Type 0
  Installs (r, w') =
      (installed_app : InstalledApp) × (r ≡ ok installed_app)
      × (installed_app.app_id ≡ new_app_id)
      × (installed_app.secret ≡ new_secret)
      × (w'.app_credentials
          ≡ env.sql.insert
              (new_credential (env.random_uuid w3.drawn) input.tenant_id new_app_id new_key_id
                new_secret w.now)
              w.app_credentials)
      × (w'.app_installations
          ≡ env.sql.insert (new_installation new_app_id input w.now) w.app_installations)
      × (w'.tenants ≡ w.tenants)

  abbrev result : InstalledApp
  result = record {
    app_id = new_app_id;
    key_id = new_key_id;
    secret = new_secret;
    events = map (λ h. h.event_name) (normalized_webhooks input);
    scopes = normalized_scopes input.scopes;
  }

  runs :
      first env.sql (is_app input.tenant_id input.app_identifier) w.app_installations ≡ none
      → install_app env input w ≡ (ok result, w4)
  unfolding install_app create_key_id
  runs absent = ground (arith, writes)

  pub install_app-Installs :
      first env.sql (is_app input.tenant_id input.app_identifier) w.app_installations ≡ none
      → Installs (install_app env input w)
  install_app-Installs absent =
      let (_, (c2, i2, n2, t2)) =
        insert_scopes-Same env input.tenant_id new_app_id (normalized_scopes input.scopes) w1 in
      let (_, (c3, i3, n3, t3)) =
        insert_webhooks-Same env input.tenant_id new_app_id (normalized_webhooks input) w2 in
      rw (runs absent) (result, refl, refl, refl, rw (c3 ∙ c2, n3 ∙ n2) refl, i3 ∙ i2, t3 ∙ t2)

  pub install_app-thrown :
      {a : AppInstallation}
      → first env.sql (is_app input.tenant_id input.app_identifier) w.app_installations ≡ some a
      → install_app env input w ≡ (thrown (app_already_installed input.app_identifier), w)
  unfolding install_app
  install_app-thrown found = ground arith
