-- ===== src/Apps/Inbound/Uninstalled.antt =====
-- A webhook of an app that has been uninstalled.
use medusa_multi_tenancy.Prelude.{
  ◌≤◌, ◌≡◌, inl, inr, String, Bool, not, ◌&&◌, none, some, arith, str_eq, Option-cases,
}
use medusa_multi_tenancy.Schema.{AppInstallation}
use medusa_multi_tenancy.Sql.Rows.{
  rows, first, first_pos, rows_mono, rows_none, rows_split, rows-update_split,
}
use medusa_multi_tenancy.World.{Env, World}
use medusa_multi_tenancy.Apps.Installing.{is_installation, uninstalled_at, uninstall_app}
use medusa_multi_tenancy.Apps.Installing.Secrets.{uninstalls}
use medusa_multi_tenancy.Apps.Inbound.{verify_inbound_webhook}
use medusa_multi_tenancy.Apps.Inbound.Verified.{installed_in, verified_means}

module _ (env : Env) (tenant_id app_id raw_body signature : String) (w : World env) where
  abbrev here : AppInstallation → Bool
  here = is_installation app_id tenant_id

  abbrev pub after_uninstall : World env
  after_uninstall = (uninstall_app env tenant_id app_id w).1

  nowhere_installed :
      (tenant : String) {a : AppInstallation}
      → first env.sql here w.app_installations ≡ some a
      → rows env.sql (λ i. str_eq i.id app_id) w.app_installations ≤ 1
      → rows env.sql
          (installed_in env app_id raw_body signature w tenant)
          after_uninstall.app_installations
        ≡ 0
  nowhere_installed tenant found one =
      let p = installed_in env app_id raw_body signature w tenant in
      rw (uninstalls env tenant_id app_id w found).2 (
        omega (
          arith,
          one,
          rows-update_split env.sql p here (uninstalled_at env w.now) w.app_installations,
          rows_none env.sql (λ i. here i && p (uninstalled_at env w.now i)) w.app_installations
              (λ i. ground arith),
          first_pos env.sql here w.app_installations found,
          rows_split env.sql (λ i. str_eq i.id app_id) here w.app_installations,
          rows_split env.sql p here w.app_installations,
          rows_mono env.sql here (λ i. here i && str_eq i.id app_id) w.app_installations
              (λ i h. ground (arith, h)),
          rows_mono env.sql (λ i. not (here i) && p i) (λ i. not (here i) && str_eq i.id app_id)
              w.app_installations (λ i h. ground (arith, h)),
        ))

  -- Once an app has been uninstalled, no webhook of it is accepted, whatever its body and signature.
  -- The identifiers of installations are unique.
  pub uninstalled_is_rejected :
      {a : AppInstallation}
      → first env.sql (is_installation app_id tenant_id) w.app_installations ≡ some a
      → rows env.sql (λ i. str_eq i.id app_id) w.app_installations ≤ 1
      → verify_inbound_webhook env app_id raw_body signature after_uninstall ≡ none
  uninstalled_is_rejected found one =
      elim (Option-cases (verify_inbound_webhook env app_id raw_body signature after_uninstall)) [
        | inl rejected ↦ rejected
        | inr (tenant, accepted) ↦
            let (_, still, _) =
              verified_means env app_id raw_body signature after_uninstall accepted in
            absurd (omega (arith, still, nowhere_installed tenant found one))
      ]
