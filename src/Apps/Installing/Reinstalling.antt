-- ===== src/Apps/Installing/Reinstalling.antt =====
-- An app that is installed, uninstalled and installed again.
use medusa_multi_tenancy.Prelude.{
  ℕ, ◌<◌, ◌≡◌, refl, Bool, true, false, ◌&&◌, none, arith, eq_refl, if◌then◌else◌,
}
use medusa_multi_tenancy.Schema.{AppInstallation}
use medusa_multi_tenancy.Sql.Rows.{rows, first, rows_congr, first_of_pos}
use medusa_multi_tenancy.World.{Env, World, ok, thrown, app_already_installed}
use medusa_multi_tenancy.Apps.Installing.{
  InstallAppInput, is_app, is_installation, new_installation, uninstalled_at, install_app,
  uninstall_app,
}
use medusa_multi_tenancy.Apps.Installing.Credentials.{
  new_app_id, install_app-Installs, install_app-thrown,
}
use medusa_multi_tenancy.Apps.Installing.Secrets.{uninstalls}

module _ (env : Env) (input : InstallAppInput) (w : World env) where
  abbrev pub after_install : World env
  after_install = (install_app env input w).1

  abbrev pub after_uninstall : World env
  after_uninstall = (uninstall_app env input.tenant_id (new_app_id env input w) after_install).1

  abbrev installed_row : AppInstallation
  installed_row = new_installation (new_app_id env input w) input w.now

  same_app :
      (b : Bool) (now : ℕ) (a : AppInstallation)
      → is_app input.tenant_id input.app_identifier (if b then uninstalled_at env now a else a)
        ≡ is_app input.tenant_id input.app_identifier a
  same_app true now a = refl
  same_app false now a = refl

  stored :
      (p : AppInstallation → Bool)
      → p installed_row ≡ true
      → 0 < rows env.sql p (env.sql.insert installed_row w.app_installations)
  stored p h = ground (arith, env.sql.rows-insert p installed_row w.app_installations)

  both : {a b : Bool} → a ≡ true → b ≡ true → (a && b) ≡ true
  both h h' = ground arith

  -- An app that was installed and uninstalled is not installed again: the second `installApp` throws
  -- that the app is already installed.
  pub reinstall_fails :
      first env.sql (is_app input.tenant_id input.app_identifier) w.app_installations ≡ none
      → ((uninstall_app env input.tenant_id (new_app_id env input w) after_install).0 ≡ ok tt)
        × (install_app env input after_uninstall
            ≡ (thrown (app_already_installed input.app_identifier), after_uninstall))
  reinstall_fails absent =
      let (_, _, _, _, _, i1, _) = install_app-Installs env input w absent in
      let id = new_app_id env input w in
      let here = is_installation id input.tenant_id in
      let app = is_app input.tenant_id input.app_identifier in
      let (_, found) =
        first_of_pos env.sql here after_install.app_installations
          (rw i1 (stored here (both (eq_refl id) (eq_refl input.tenant_id)))) in
      let (gone, _, i2, _) = uninstalls env input.tenant_id id after_install found in
      let kept : 0 < rows env.sql app after_uninstall.app_installations = rw i2 (
        rw
          (env.sql.rows-update app here (uninstalled_at env after_install.now)
            after_install.app_installations)
          (rw
            (rows_congr env.sql
              (λ a. app (if here a then uninstalled_at env after_install.now a else a)) app
              after_install.app_installations (λ a. same_app (here a) after_install.now a))
            (rw i1
              (stored app (both (eq_refl input.tenant_id) (eq_refl input.app_identifier)))))) in
      let (_, still) = first_of_pos env.sql app after_uninstall.app_installations kept in
      (gone, install_app-thrown env input after_uninstall still)
