-- ===== src/Apps/Inbound/Rotated.antt =====
-- A webhook that is signed with the secret of `rotateAppSecret`.
use medusa_multi_tenancy.Prelude.{
  ℕ, suc, ◌≤◌, ◌<◌, ◌≡◌, ◌∙◌, refl, sym, ap, String, Bool, true, not, ◌&&◌, some, List, [], ◌∷◌,
  length, arith, str_eq, eq_iff, eq_refl, and_true, if◌then◌else◌, ◌==◌,
}
use medusa_multi_tenancy.Schema.{AppCredential, AppInstallation, is_installed}
use medusa_multi_tenancy.Sql.Rows.{rows, first, first_pos, rows_mono, rows_split}
use medusa_multi_tenancy.World.{Env, World, ok}
use medusa_multi_tenancy.Apps.Installing.{RotatedSecret, retired, rotate_app_secret}
use medusa_multi_tenancy.Apps.Installing.Secrets.{active_of, is_rotatable, next_credential, rotates}
use medusa_multi_tenancy.Apps.Joins.{
  latest_of_pos, Every, latest-Every, flat_map-Every, flat_map_pos, select-Every, Every-map_same,
  length-map_same,
}
use medusa_multi_tenancy.Apps.Inbound.{
  Candidate, from_hex, same_bytes, provided_of, active_credential, installation_of, active_tenant,
  in_tenants, in_installations, candidates, is_signed, verify_inbound_webhook,
}
use Prim.Native.String.{◌++◌ as append}
use text.Mathlib.TextPositions.{slice-append_right, starts_with-append, len-append}

eq_self : (n : ℕ) → (n == n) ≡ true
eq_self n = ground arith

same_bytes_refl : (bs : List ℕ) → same_bytes bs bs ≡ true
same_bytes_refl [] = refl
same_bytes_refl (b ∷ bs) = ground (arith, eq_self b, same_bytes_refl bs)

provided_of-append : (s : String) → provided_of (append "sha256=" s) ≡ s
unfolding provided_of
provided_of-append s =
    rw (starts_with-append "sha256=" s, len-append "sha256=" s) (slice-append_right "sha256=" s)

module _ (env : Env) where
  signed_with :
      (raw_body : String) (c : AppCredential)
      → is_signed env raw_body (append "sha256=" (env.hmac raw_body c.secret)) c ≡ true
  unfolding is_signed
  signed_with raw_body c = rw (provided_of-append (env.hmac raw_body c.secret)) (
      ground (
        arith,
        eq_self (length (from_hex (env.hmac raw_body c.secret))),
        same_bytes_refl (from_hex (env.hmac raw_body c.secret)),
      ))

module _ (env : Env) (tenant_id app_id : String) (w : World env) where
  -- The identifiers of installations are unique, and the credentials of the app are its tenant's.
  abbrev pub IsOwned : Type 0
  IsOwned =
      (rows env.sql (λ i. str_eq i.id app_id) w.app_installations ≤ 1)
      × (rows env.sql (λ c. str_eq c.app_id app_id && not (str_eq c.tenant_id tenant_id))
            w.app_credentials
          ≡ 0)

  abbrev next : AppCredential
  next = next_credential env tenant_id app_id w

  abbrev rest : env.sql.Table AppCredential
  rest = env.sql.update (active_of app_id tenant_id) (retired w.now) w.app_credentials

  no_active_left : IsOwned → rows env.sql (active_credential app_id) rest ≡ 0
  no_active_left (_, owned) = omega (
    arith,
    owned,
    env.sql.rows-update (active_credential app_id) (active_of app_id tenant_id) (retired w.now)
        w.app_credentials,
    rows_mono env.sql
        (λ c.
          active_credential app_id (if active_of app_id tenant_id c then retired w.now c else c))
        (λ c. str_eq c.app_id app_id && not (str_eq c.tenant_id tenant_id)) w.app_credentials
        (λ c h. ground (arith, h)),
  )

  abbrev credentials' : env.sql.Table AppCredential
  credentials' = env.sql.insert next rest

  only_next :
      IsOwned
      → Every
          (λ c. str_eq c.secret next.secret && str_eq c.app_id app_id)
          (env.sql.select (active_credential app_id) credentials')
  only_next o =
      let q = λ (c : AppCredential). str_eq c.secret next.secret && str_eq c.app_id app_id in
      select-Every env.sql (active_credential app_id) credentials' q (
        ground (
          arith,
          env.sql.rows-insert (λ c. active_credential app_id c && not (q c)) next rest,
          rows_mono env.sql (λ c. active_credential app_id c && not (q c))
              (active_credential app_id) rest (λ c h. (and_true _ _ h).0),
          no_active_left o,
          eq_refl next.secret,
          eq_refl app_id,
        ))

  one_next : 0 < length (env.sql.select (active_credential app_id) credentials')
  one_next =
      ground (arith, env.sql.rows-insert (active_credential app_id) next rest, eq_refl app_id)

  module _ (o : IsOwned) {a : AppInstallation}
      (found : first env.sql (is_rotatable env tenant_id app_id w) w.app_installations
        ≡ some a) where
    installed_rows :
        0 < rows env.sql (λ i. str_eq i.id app_id && is_installed i.status) w.app_installations
    installed_rows = omega (
      arith,
      first_pos env.sql (is_rotatable env tenant_id app_id w) w.app_installations found,
      rows_mono env.sql (is_rotatable env tenant_id app_id w)
          (λ i. str_eq i.id app_id && is_installed i.status) w.app_installations
          (λ i h. ground (arith, h)),
    )

    none_elsewhere :
        rows env.sql
          (λ i. (str_eq i.id app_id && is_installed i.status) && not (str_eq i.tenant_id tenant_id))
          w.app_installations
        ≡ 0
    none_elsewhere = omega (
      arith,
      o.0,
      first_pos env.sql (is_rotatable env tenant_id app_id w) w.app_installations found,
      rows_split env.sql (λ i. str_eq i.id app_id) (is_rotatable env tenant_id app_id w)
          w.app_installations,
      rows_mono env.sql (is_rotatable env tenant_id app_id w)
          (λ i. is_rotatable env tenant_id app_id w i && str_eq i.id app_id) w.app_installations
          (λ i h. ground (arith, h)),
      rows_mono env.sql
          (λ i. (str_eq i.id app_id && is_installed i.status) && not (str_eq i.tenant_id tenant_id))
          (λ i. not (is_rotatable env tenant_id app_id w i) && str_eq i.id app_id)
          w.app_installations (λ i h. ground (arith, h)),
    )

    abbrev w' : World env
    w' = record w {
      app_credentials = credentials';
      drawn = suc w.drawn;
      random_drawn = suc (suc w.random_drawn);
    }

    abbrev is_ours : Candidate → Bool
    is_ours x = str_eq x.credential.secret next.secret && str_eq x.tenant_id tenant_id

    abbrev g : AppCredential → Bool
    g c = str_eq c.secret next.secret && str_eq c.app_id app_id

    both : {a b : Bool} → a ≡ true → b ≡ true → (a && b) ≡ true
    both h h' = ground arith

    ours_in_tenant :
        (c : AppCredential)
        → c.app_id ≡ app_id
        → Every
            (λ i. str_eq i.tenant_id tenant_id)
            (env.sql.select (installation_of c) w.app_installations)
    ours_in_tenant c own =
        select-Every env.sql (installation_of c) w.app_installations
          (λ i. str_eq i.tenant_id tenant_id) (rw own none_elsewhere)

    all_ours : Every is_ours (candidates env w' app_id)
    unfolding candidates
    all_ours =
        flat_map-Every (in_installations env w') g is_ours
          (env.sql.select (active_credential app_id) credentials') (only_next o)
          (λ c h.
            let (same, own) = and_true _ _ h in
            flat_map-Every (in_tenants env w' c) (λ i. str_eq i.tenant_id tenant_id) is_ours
              (env.sql.select (installation_of c) w.app_installations)
              (ours_in_tenant c ((eq_iff _ _).0 own))
              (λ i here.
                Every-map_same (record { credential = c; tenant_id = i.tenant_id }) is_ours _
                  (both same here)))

    some_candidate :
        0 < rows env.sql (active_tenant tenant_id) w.tenants → 0 < length (candidates env w' app_id)
    unfolding candidates
    some_candidate open' =
        flat_map_pos (in_installations env w') g
          (env.sql.select (active_credential app_id) credentials') (only_next o) one_next
          (λ c h.
            let own : c.app_id ≡ app_id = (eq_iff _ _).0 (and_true _ _ h).1 in
            flat_map_pos (in_tenants env w' c) (λ i. str_eq i.tenant_id tenant_id)
              (env.sql.select (installation_of c) w.app_installations) (ours_in_tenant c own)
              (rw own installed_rows)
              (λ i here. omega (
                arith,
                open',
                length-map_same {B = Candidate} (record { credential = c; tenant_id = i.tenant_id })
                    (env.sql.select (active_tenant i.tenant_id) w.tenants),
                ap (λ t. rows env.sql (active_tenant t) w.tenants)
                    ((eq_iff i.tenant_id tenant_id).0 here),
              )))

    accepts :
        (raw_body : String)
        → 0 < rows env.sql (active_tenant tenant_id) w.tenants
        → verify_inbound_webhook env app_id raw_body
            (append "sha256=" (env.hmac raw_body next.secret))
            w'
          ≡ some tenant_id
    unfolding verify_inbound_webhook
    accepts raw_body open' =
        let (x, found) =
          latest_of_pos (λ x. x.credential.created_at) (candidates env w' app_id)
            (some_candidate open') in
        let (same, here) = and_true _ _ (
          latest-Every is_ours (λ x. x.credential.created_at) (candidates env w' app_id) x all_ours
            found) in
        let signed =
          ap (λ s. is_signed env raw_body (append "sha256=" (env.hmac raw_body s)) x.credential)
            (sym ((eq_iff _ _).0 same))
          ∙ signed_with env raw_body x.credential in
        rw (found, signed) (ap some ((eq_iff _ _).0 here))

  -- Where the app is installed in an active tenant, `rotateAppSecret` returns a secret such that a
  -- webhook of the app, whatever its body, is accepted for that tenant when it is signed with the HMAC
  -- of the body under that secret. The identifiers of installations are unique, and the app's
  -- credentials are its tenant's.
  pub rotated_secret_verifies :
      (raw_body : String) {a : AppInstallation}
      → IsOwned
      → first env.sql (is_rotatable env tenant_id app_id w) w.app_installations ≡ some a
      → 0 < rows env.sql (active_tenant tenant_id) w.tenants
      → (r : RotatedSecret) × ((rotate_app_secret env tenant_id app_id w).0 ≡ ok r)
        × (verify_inbound_webhook env app_id raw_body
              (append "sha256=" (env.hmac raw_body r.secret))
              (rotate_app_secret env tenant_id app_id w).1
            ≡ some tenant_id)
  rotated_secret_verifies raw_body o found open' =
      let e = rotates env tenant_id app_id w found in
      (
        record { app_id = app_id; key_id = next.key_id; secret = next.secret },
        ap (λ r. r.0) e,
        rw (ap (λ r. r.1) e) (accepts o found raw_body open'),
      )
