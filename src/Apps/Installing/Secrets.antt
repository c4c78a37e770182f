-- ===== src/Apps/Installing/Secrets.antt =====
-- How many active secrets the methods on apps leave an app with.
use medusa_multi_tenancy.Prelude.{
  suc, ◌≤◌, ◌≡◌, ◌∙◌, refl, sym, ap, String, Bool, true, false, ◌&&◌, none, some, arith, str_eq,
  eq_iff, eq_refl, Bool-cases, Option-cases, inl, inr, and_true, one_if,
}
use medusa_multi_tenancy.Schema.{AppInstallation, AppCredential, is_installed}
use medusa_multi_tenancy.Sql.Rows.{rows, first, rows_mono, rows_none, rows-update_split}
use medusa_multi_tenancy.World.{Env, World, ok, thrown, installed_app_not_found}
use medusa_multi_tenancy.Apps.Installing.{
  InstallAppInput, RotatedSecret, is_app, is_installation, is_credential, new_credential, retired,
  retired_unmarked, uninstalled_at, create_key_id, install_app, write_uninstallation, uninstall_app,
  write_rotation, rotate_app_secret,
}
use medusa_multi_tenancy.Apps.Installing.Credentials.{
  new_app_id, install_app-Installs, install_app-thrown,
}

-- an active credential of an app of a tenant
abbrev pub active_of : String → String → AppCredential → Bool
active_of app_id tenant_id c = is_credential app_id tenant_id c && c.is_active

and_false : (a b : Bool) → b ≡ false → (a && b) ≡ false
and_false a b h = ground arith

module _ (env : Env) where
  -- An app has one active credential at most.
  abbrev pub HasOneSecret : World env → Type 0
  HasOneSecret w =
      (app_id tenant_id : String) → rows env.sql (active_of app_id tenant_id) w.app_credentials ≤ 1

  module _ (q : AppCredential → Bool) (f : AppCredential → AppCredential)
      (retires : (c : AppCredential) → (f c).is_active ≡ false) (app_id tenant_id : String)
      (t : env.sql.Table AppCredential) where
    none_retired : rows env.sql (λ c. q c && active_of app_id tenant_id (f c)) t ≡ 0
    none_retired =
        rows_none env.sql (λ c. q c && active_of app_id tenant_id (f c)) t
          λ c. and_false (q c) _ (and_false (is_credential app_id tenant_id (f c)) _ (retires c))

    pub retire_le :
        rows env.sql (active_of app_id tenant_id) (env.sql.update q f t)
        ≤ rows env.sql (active_of app_id tenant_id) t
    retire_le =
        omega (arith, rows-update_split env.sql (active_of app_id tenant_id) q f t, none_retired)

    pub retire_all :
        ((c : AppCredential) → active_of app_id tenant_id c ≡ true → q c ≡ true)
        → rows env.sql (active_of app_id tenant_id) (env.sql.update q f t) ≡ 0
    retire_all covers = omega (
      arith,
      rows-update_split env.sql (active_of app_id tenant_id) q f t,
      none_retired,
      rows_mono env.sql (active_of app_id tenant_id) (λ c. q c && active_of app_id tenant_id c) t
          (λ c h. both (covers c h) h),
    )
      where
        both : {a b : Bool} → a ≡ true → b ≡ true → (a && b) ≡ true
        both h h' = ground arith

  one_if_le : (b : Bool) → one_if b ≤ 1
  one_if_le b = ground arith

  module _ (c : AppCredential) (t : env.sql.Table AppCredential) where
    add_one :
        rows env.sql (active_of c.app_id c.tenant_id) t ≡ 0
        → ((app_id tenant_id : String) → rows env.sql (active_of app_id tenant_id) t ≤ 1)
        → (app_id tenant_id : String)
        → rows env.sql (active_of app_id tenant_id) (env.sql.insert c t) ≤ 1
    add_one none_yet one app_id tenant_id = elim (Bool-cases (is_credential app_id tenant_id c)) [
      | inl own ↦
          let (a, b) = and_true _ _ own in
          let same =
            ap (λ x. rows env.sql (active_of x tenant_id) t) (sym ((eq_iff _ _).0 a))
            ∙ ap (λ x. rows env.sql (active_of c.app_id x) t) (sym ((eq_iff _ _).0 b)) in
          omega (
            arith,
            env.sql.rows-insert (active_of app_id tenant_id) c t,
            one_if_le (active_of app_id tenant_id c),
            same,
            none_yet,
          )
      | inr other ↦ omega (
        arith,
        env.sql.rows-insert (active_of app_id tenant_id) c t,
        one app_id tenant_id,
        ap (λ b. one_if (b && c.is_active)) other,
      )
    ]

module _ (env : Env) (tenant_id app_id : String) (w : World env) where
  abbrev pub next_credential : AppCredential
  next_credential =
      new_credential (env.random_uuid w.drawn) tenant_id app_id
        (Prim.Native.String.◌++◌ "app_key_" (env.random_bytes (suc w.random_drawn) 8))
        (env.random_bytes w.random_drawn 32) w.now

  abbrev pub rotated_credentials : env.sql.Table AppCredential
  rotated_credentials =
      env.sql.insert next_credential
        (env.sql.update (active_of app_id tenant_id) (retired w.now) w.app_credentials)

  abbrev pub is_rotatable : AppInstallation → Bool
  is_rotatable a = is_installation app_id tenant_id a && is_installed a.status

  pub rotates :
      {a : AppInstallation}
      → first env.sql is_rotatable w.app_installations ≡ some a
      → rotate_app_secret env tenant_id app_id w ≡ (
        ok (record {
          app_id = app_id;
          key_id = next_credential.key_id;
          secret = next_credential.secret;
        }),
        record w {
          app_credentials = rotated_credentials;
          drawn = suc w.drawn;
          random_drawn = suc (suc w.random_drawn);
        },
      )
  unfolding rotate_app_secret write_rotation create_key_id
  rotates found = ground arith

  rotates_not :
      first env.sql is_rotatable w.app_installations ≡ none
      → rotate_app_secret env tenant_id app_id w ≡ (thrown installed_app_not_found, w)
  unfolding rotate_app_secret
  rotates_not absent = ground arith

  abbrev uninstalled_credentials : env.sql.Table AppCredential
  uninstalled_credentials =
      env.sql.update (is_credential app_id tenant_id) (retired_unmarked w.now) w.app_credentials

  pub uninstalls :
      {a : AppInstallation}
      → first env.sql (is_installation app_id tenant_id) w.app_installations ≡ some a
      → ((uninstall_app env tenant_id app_id w).0 ≡ ok tt)
        × ((uninstall_app env tenant_id app_id w).1.app_credentials ≡ uninstalled_credentials)
        × ((uninstall_app env tenant_id app_id w).1.app_installations
            ≡ env.sql.update
                (is_installation app_id tenant_id)
                (uninstalled_at env w.now)
                w.app_installations)
        × ((uninstall_app env tenant_id app_id w).1.tenants ≡ w.tenants)
  unfolding uninstall_app write_uninstallation
  uninstalls found = ground arith

  uninstalls_not :
      first env.sql (is_installation app_id tenant_id) w.app_installations ≡ none
      → uninstall_app env tenant_id app_id w ≡ (thrown installed_app_not_found, w)
  unfolding uninstall_app
  uninstalls_not absent = ground arith

-- the calls that change credentials
pub data AppCall : Type 0 where
  install : InstallAppInput → AppCall
  rotate uninstall : String → String → AppCall  -- of a tenant and an app

module _ (env : Env) where
  abbrev pub run_app_call : AppCall → World env → World env
  run_app_call (install input) w = (install_app env input w).1
  run_app_call (rotate tenant_id app_id) w = (rotate_app_secret env tenant_id app_id w).1
  run_app_call (uninstall tenant_id app_id) w = (uninstall_app env tenant_id app_id w).1

  -- The next identifier is no app's yet.
  abbrev pub IsFresh : World env → Type 0
  IsFresh w = rows env.sql (λ c. str_eq c.app_id (env.random_uuid w.drawn)) w.app_credentials ≡ 0

module _ (env : Env) (w : World env) (one : HasOneSecret env w) where
  install_keeps :
      (input : InstallAppInput) → IsFresh env w → HasOneSecret env (install_app env input w).1
  install_keeps input fresh a t =
      elim (Option-cases
        (first env.sql (is_app input.tenant_id input.app_identifier) w.app_installations)) [
          | inr (_, found) ↦ rw (ap (λ r. r.1) (install_app-thrown env input w found)) (one a t)
          | inl absent ↦
              let (_, _, _, _, stored, _, _) = install_app-Installs env input w absent in
              rw stored (
                add_one env _ w.app_credentials
                  (omega (
                    arith,
                    fresh,
                    rows_mono env.sql (active_of (new_app_id env input w) input.tenant_id)
                        (λ c. str_eq c.app_id (new_app_id env input w)) w.app_credentials
                        (λ c h. (and_true _ _ (and_true _ _ h).0).0),
                  ))
                  one a t)
        ]

  retires_all :
      (tenant_id app_id : String)
      → rows env.sql
          (active_of app_id tenant_id)
          (env.sql.update (active_of app_id tenant_id) (retired w.now) w.app_credentials)
        ≡ 0
  retires_all tenant_id app_id =
      retire_all env (active_of app_id tenant_id) (retired w.now) (λ c. refl) app_id tenant_id
        w.app_credentials (λ c h. h)

  rotate_keeps :
      (tenant_id app_id : String) → HasOneSecret env (rotate_app_secret env tenant_id app_id w).1
  rotate_keeps tenant_id app_id a t =
      elim (Option-cases
        (first env.sql (is_rotatable env tenant_id app_id w) w.app_installations)) [
          | inl absent ↦ rw (ap (λ r. r.1) (rotates_not env tenant_id app_id w absent)) (one a t)
          | inr (_, found) ↦
              let rest =
                env.sql.update (active_of app_id tenant_id) (retired w.now) w.app_credentials in
              rw (ap (λ r. r.1) (rotates env tenant_id app_id w found)) (
                add_one env (next_credential env tenant_id app_id w) rest
                  (retires_all tenant_id app_id)
                  (λ a' t'. omega (
                    arith,
                    one a' t',
                    retire_le env (active_of app_id tenant_id) (retired w.now) (λ c. refl) a' t'
                        w.app_credentials,
                  ))
                  a t)
        ]

  uninstall_keeps :
      (tenant_id app_id : String) → HasOneSecret env (uninstall_app env tenant_id app_id w).1
  uninstall_keeps tenant_id app_id a t =
      elim (Option-cases (first env.sql (is_installation app_id tenant_id) w.app_installations)) [
        | inl absent ↦ rw (ap (λ r. r.1) (uninstalls_not env tenant_id app_id w absent)) (one a t)
        | inr (_, found) ↦ rw (uninstalls env tenant_id app_id w found).1 (
            omega (
              arith,
              one a t,
              retire_le env (is_credential app_id tenant_id) (retired_unmarked w.now) (λ c. refl) a
                  t w.app_credentials,
            ))
      ]

module _ (env : Env) (w : World env) where
  -- Installing an app, rotating its secret and uninstalling it, whether they return or throw, leave no
  -- app of a tenant with two active credentials, where none had two and the next identifier is no
  -- app's yet.
  pub apps_keep_one_secret :
      (call : AppCall)
      → HasOneSecret env w
      → IsFresh env w
      → HasOneSecret env (run_app_call env call w)
  apps_keep_one_secret (install input) one fresh = install_keeps env w one input fresh
  apps_keep_one_secret (rotate tenant_id app_id) one fresh = rotate_keeps env w one tenant_id app_id
  apps_keep_one_secret (uninstall tenant_id app_id) one fresh =
      uninstall_keeps env w one tenant_id app_id

module _ (env : Env) (tenant_id app_id : String) (w : World env) where
  -- Where the app is installed, `rotateAppSecret` returns a secret, and the app has one active
  -- credential afterwards, which holds it.
  pub rotate_app_secret_replaces :
      {a : AppInstallation}
      → first env.sql (is_rotatable env tenant_id app_id w) w.app_installations ≡ some a
      → (r : RotatedSecret) × ((rotate_app_secret env tenant_id app_id w).0 ≡ ok r)
        × (rows env.sql
              (active_of app_id tenant_id)
              (rotate_app_secret env tenant_id app_id w).1.app_credentials
            ≡ 1)
        × (rows env.sql
              (λ c. active_of app_id tenant_id c && str_eq c.secret r.secret)
              (rotate_app_secret env tenant_id app_id w).1.app_credentials
            ≡ 1)
  rotate_app_secret_replaces found =
      let e = rotates env tenant_id app_id w found in
      let c = next_credential env tenant_id app_id w in
      let active = active_of app_id tenant_id in
      let rest = env.sql.update active (retired w.now) w.app_credentials in
      let retired_all =
        retire_all env active (retired w.now) (λ c. refl) app_id tenant_id w.app_credentials
          (λ c h. h) in
      (
        record { app_id = app_id; key_id = c.key_id; secret = c.secret },
        ap (λ r. r.0) e,
        rw (ap (λ r. r.1) e) (
            ground (
              arith,
              env.sql.rows-insert active c rest,
              retired_all,
              eq_refl app_id,
              eq_refl tenant_id,
            )),
        rw (ap (λ r. r.1) e) (
            ground (
              arith,
              env.sql.rows-insert (λ c'. active c' && str_eq c'.secret c.secret) c rest,
              retired_all,
              rows_mono env.sql (λ c'. active c' && str_eq c'.secret c.secret) active rest
                  (λ c' h. (and_true _ _ h).0),
              eq_refl app_id,
              eq_refl tenant_id,
              eq_refl c.secret,
            )),
      )
