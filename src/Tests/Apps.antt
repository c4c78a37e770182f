-- ===== src/Tests/Apps.antt =====
-- An app that Acme installs, rotates the secret of, and uninstalls.
use medusa_multi_tenancy.Prelude.{
  ◌+◌, ◌*◌, ◌<◌, ◌≤◌, ◌≡◌, refl, ℕ, String, true, false, ◌&&◌, none, some, [], ◌∷◌, length, count,
  arith,
}
use medusa_multi_tenancy.Schema.{
  TenantStatus, AppInstallation, AppCredential, AppWebhook, installed,
}
use medusa_multi_tenancy.Sql.Rows.{rows}
use medusa_multi_tenancy.World.{World, ok, thrown, app_already_installed}
use medusa_multi_tenancy.Apps.Installing.{
  InstallAppInput, RotatedSecret, new_credential, install_app, uninstall_app, rotate_app_secret,
}
use medusa_multi_tenancy.Apps.Installing.Credentials.{new_app_id}
use medusa_multi_tenancy.Apps.Installing.Secrets.{
  HasOneSecret, rotate, run_app_call, apps_keep_one_secret,
}
use medusa_multi_tenancy.Apps.Installing.Reinstalling.{
  after_install, after_uninstall, reinstall_fails,
}
use medusa_multi_tenancy.Apps.Inbound.{
  active_credential, active_tenant, candidates, from_hex, same_bytes, provided_of, is_signed,
  verify_inbound_webhook,
}
use medusa_multi_tenancy.Apps.Inbound.Verified.{installed_in, verified_means}
use medusa_multi_tenancy.Apps.Inbound.Rotated.{rotated_secret_verifies}
use medusa_multi_tenancy.Apps.Inbound.Uninstalled.{uninstalled_is_rejected}
use medusa_multi_tenancy.Apps.Publishing.{subscriptions}
use medusa_multi_tenancy.Apps.Publishing.Attempts.{
  is_at, delivered_count, dead_letter_count, attempt_count,
}
use medusa_multi_tenancy.Apps.Publishing.Settling.{published, publish_ends}
use medusa_multi_tenancy.Tests.Fixtures.{env, office}
use Prim.Native.String.{◌++◌ as append}

abbrev installation : AppInstallation
installation = record {
  id = "app";
  tenant_id = "acme";
  app_name = "Sync";
  app_identifier = "sync";
  app_url = none;
  status = installed;
  installed_at = 0;
  uninstalled_at = none;
  updated_at = 0;
}

abbrev credential : AppCredential
credential = new_credential "c1" "acme" "app" "app_key_00" "ff" 0

abbrev webhook : AppWebhook
webhook = record {
  id = "h1";
  tenant_id = "acme";
  app_id = "app";
  event_name = "order.created";
  target_url = "https://sync.io";
  is_active = true;
}

abbrev equipped : World env
equipped = record (office TenantStatus.active false) {
  app_installations = installation ∷ [];
  app_webhooks = webhook ∷ [];
  app_credentials = credential ∷ [];
}

one_secret : HasOneSecret env equipped
one_secret a t = ground arith

apps_keep_one_secret_example : HasOneSecret env (run_app_call env (rotate "acme" "app") equipped)
apps_keep_one_secret_example =
    apps_keep_one_secret env equipped (rotate "acme" "app") one_secret refl

abbrev input : InstallAppInput
input = record {
  tenant_id = "acme";
  app_name = "Mail";
  app_identifier = "mail";
  app_url = "https://mail.io";
  scopes = "orders" ∷ " orders" ∷ [];
  webhooks = [];
}

reinstall_fails_example :
    ((uninstall_app env "acme" (new_app_id env input equipped) (after_install env input equipped)).0
      ≡ ok tt)
    × (install_app env input (after_uninstall env input equipped)
        ≡ (thrown (app_already_installed "mail"), after_uninstall env input equipped))
reinstall_fails_example = reinstall_fails env input equipped refl

verified : verify_inbound_webhook env "app" "{}" "sha256=ff" equipped ≡ some "acme"
unfolding verify_inbound_webhook candidates is_signed provided_of from_hex
verified = refl

verified_means_example :
    (0
      < rows env.sql
          (λ c.
            active_credential "app" c
            && same_bytes (from_hex (env.hmac "{}" c.secret)) (from_hex (provided_of "sha256=ff")))
          equipped.app_credentials)
    × (0
        < rows env.sql
            (installed_in env "app" "{}" "sha256=ff" equipped "acme")
            equipped.app_installations)
    × (0 < rows env.sql (active_tenant "acme") equipped.tenants)
verified_means_example = verified_means env "app" "{}" "sha256=ff" equipped verified

rotated_secret_verifies_example :
    (r : RotatedSecret) × ((rotate_app_secret env "acme" "app" equipped).0 ≡ ok r)
    × (verify_inbound_webhook env "app" "{}"
          (append "sha256=" (env.hmac "{}" r.secret))
          (rotate_app_secret env "acme" "app" equipped).1
        ≡ some "acme")
rotated_secret_verifies_example =
    rotated_secret_verifies env "acme" "app" equipped "{}" (omega arith, refl) refl (omega arith)

uninstalled_is_rejected_example :
    verify_inbound_webhook env "app" "{}" "sha256=ff" (uninstall_app env "acme" "app" equipped).1
    ≡ none
uninstalled_is_rejected_example =
    uninstalled_is_rejected env "acme" "app" "{}" "sha256=ff" equipped refl (omega arith)

abbrev show : ℕ → String
show _ = "503"

publish_ends_example :
    let after = (published env show "acme" "order.created" "{}" equipped).1 in
    let sent = subscriptions env "acme" "order.created" equipped in
    ((published env show "acme" "order.created" "{}" equipped).0 ≡ ok (length sent))
    × (delivered_count "app" webhook.target_url env after
          + dead_letter_count "app" webhook.target_url env after
        ≡ delivered_count "app" webhook.target_url env equipped
          + dead_letter_count "app" webhook.target_url env equipped
          + count (is_at "app" webhook.target_url) sent)
    × (attempt_count "app" webhook.target_url env after
        ≤ attempt_count "app" webhook.target_url env equipped
          + 3 * count (is_at "app" webhook.target_url) sent)
    × (after.fetched ≤ equipped.fetched + 3 * length sent)
publish_ends_example =
    publish_ends env show "acme" "order.created" "{}" equipped "app" webhook.target_url
