-- ===== src/Apps/Inbound/Verified.antt =====
-- What it takes for `verifyInboundWebhook` to accept a webhook.
use medusa_multi_tenancy.Prelude.{
  ◌<◌, ◌≡◌, ◌∙◌, refl, sym, ap, inl, inr, String, Bool, true, not, ◌&&◌, Option, none, some, arith,
  str_eq, eq_iff, Bool-cases, and_true,
}
use medusa_multi_tenancy.Schema.{AppCredential, AppInstallation, is_installed}
use medusa_multi_tenancy.Sql.Rows.{rows, rows_mono}
use medusa_multi_tenancy.World.{Env, World}
use medusa_multi_tenancy.Apps.Joins.{
  latest, Every, latest-Every, flat_map-Every, select-Every, select-Every_self, Every-map_same,
  Every-map_empty, zero_or_pos,
}
use medusa_multi_tenancy.Apps.Inbound.{
  Candidate, active_credential, installation_of, active_tenant, in_tenants, in_installations,
  candidates, from_hex, same_bytes, provided_of, is_signed, accept, verify_inbound_webhook,
}

module _ (env : Env) (app_id raw_body signature : String) (w : World env) where
  accepted :
      (o : Option Candidate) {tenant : String}
      → accept env raw_body signature o ≡ some tenant
      → (x : Candidate) × (o ≡ some x)
        × (is_signed env raw_body signature x.credential ≡ true)
        × (x.tenant_id ≡ tenant)
  accepted none h = cc
  accepted (some x) {tenant} h = elim (Bool-cases (is_signed env raw_body signature x.credential)) [
    | inl signed ↦ (x, refl, signed, some_inj (sym (rw signed refl) ∙ h))
    | inr unsigned ↦ absurd (none≢some (sym (rw unsigned refl) ∙ h))
  ]
    where
      some_inj : {a b : String} → some a ≡ some b → a ≡ b
      some_inj h = cc

      none≢some : {b : String} → none ≡ some b → ⊥
      none≢some h = cc

  undo_negation : (b : Bool) → not (not b) ≡ true → b ≡ true
  undo_negation b h = ground arith

  -- A candidate that is accepted would pass every test that all candidates pass.
  refuted :
      (q : Candidate → Bool) {x : Candidate}
      → Every q (candidates env w app_id)
      → latest (λ x. x.credential.created_at) (candidates env w app_id) ≡ some x
      → q x ≡ true
  refuted q {x} every found =
      latest-Every q (λ x. x.credential.created_at) (candidates env w app_id) x every found

  -- the bytes of the signature are those of the HMAC under the credential's secret
  abbrev has_signed : AppCredential → Bool
  has_signed c =
      same_bytes (from_hex (env.hmac raw_body c.secret)) (from_hex (provided_of signature))

  signed-has_signed :
      (c : AppCredential) → is_signed env raw_body signature c ≡ true → has_signed c ≡ true
  unfolding is_signed
  signed-has_signed c h = (and_true _ _ h).1

  signed_somewhere :
      rows env.sql (λ c. active_credential app_id c && has_signed c) w.app_credentials ≡ 0
      → Every (λ x. not (has_signed x.credential)) (candidates env w app_id)
  unfolding candidates
  signed_somewhere nowhere =
      let g = λ (c : AppCredential). not (has_signed c) in
      flat_map-Every (in_installations env w) g (λ x. not (has_signed x.credential))
        (env.sql.select (active_credential app_id) w.app_credentials)
        (select-Every env.sql (active_credential app_id) w.app_credentials g (
          omega (
            arith,
            nowhere,
            rows_mono env.sql (λ c. active_credential app_id c && not (g c))
                (λ c. active_credential app_id c && has_signed c) w.app_credentials
                (λ c h. ground (arith, h)),
          )))
        (λ c unsigned.
          flat_map-Every (in_tenants env w c) (installation_of c) _
            (env.sql.select (installation_of c) w.app_installations)
            (select-Every_self env.sql (installation_of c) w.app_installations)
            (λ i h.
              Every-map_same (record { credential = c; tenant_id = i.tenant_id })
                (λ x. not (has_signed x.credential)) _ unsigned))

  -- the app's installation in a tenant, still installed
  abbrev pub installed_in : String → AppInstallation → Bool
  installed_in tenant i = (str_eq i.id app_id && is_installed i.status) && str_eq i.tenant_id tenant

  abbrev elsewhere : String → Candidate → Bool
  elsewhere tenant x = not (str_eq x.tenant_id tenant)

  installed_somewhere :
      (tenant : String)
      → rows env.sql (installed_in tenant) w.app_installations ≡ 0
      → Every (elsewhere tenant) (candidates env w app_id)
  unfolding candidates
  installed_somewhere tenant nowhere =
      flat_map-Every (in_installations env w) (active_credential app_id) (elsewhere tenant)
        (env.sql.select (active_credential app_id) w.app_credentials)
        (select-Every_self env.sql (active_credential app_id) w.app_credentials)
        (λ c own.
          let of_app = (eq_iff c.app_id app_id).0 (and_true _ _ own).0 in
          let g = λ (i : AppInstallation). not (str_eq i.tenant_id tenant) in
          flat_map-Every (in_tenants env w c) g (elsewhere tenant)
            (env.sql.select (installation_of c) w.app_installations)
            (select-Every env.sql (installation_of c) w.app_installations g (
              omega (
                arith,
                nowhere,
                rows_mono env.sql (λ i. installation_of c i && not (g i)) (installed_in tenant)
                    w.app_installations (λ i h. rw (sym of_app) (ground (arith, h))),
              )))
            (λ i h.
              Every-map_same (record { credential = c; tenant_id = i.tenant_id }) (elsewhere tenant)
                _ h))

  active_somewhere :
      (tenant : String)
      → rows env.sql (active_tenant tenant) w.tenants ≡ 0
      → Every (elsewhere tenant) (candidates env w app_id)
  unfolding candidates
  active_somewhere tenant nowhere =
      flat_map-Every (in_installations env w) (active_credential app_id) (elsewhere tenant)
        (env.sql.select (active_credential app_id) w.app_credentials)
        (select-Every_self env.sql (active_credential app_id) w.app_credentials)
        (λ c own.
          flat_map-Every (in_tenants env w c) (installation_of c) (elsewhere tenant)
            (env.sql.select (installation_of c) w.app_installations)
            (select-Every_self env.sql (installation_of c) w.app_installations)
            (λ i _. elim (Bool-cases (str_eq i.tenant_id tenant)) [
              | inr other ↦
                  Every-map_same (record { credential = c; tenant_id = i.tenant_id })
                    (elsewhere tenant) _ (ap not other)
              | inl same ↦
                  Every-map_empty (record { credential = c; tenant_id = i.tenant_id })
                    (elsewhere tenant) (env.sql.select (active_tenant i.tenant_id) w.tenants)
                    (rw ((eq_iff i.tenant_id tenant).0 same) nowhere)
            ]))

  both_ways : {b : Bool} → b ≡ true → not b ≡ true → ⊥
  both_ways h h' = cc

  -- What `verifyInboundWebhook` accepts, for a tenant, is signed under an active secret of the app,
  -- which is installed in that tenant, and the tenant is active.
  pub verified_means :
      {tenant : String}
      → verify_inbound_webhook env app_id raw_body signature w ≡ some tenant
      → (0
          < rows env.sql
              (λ c.
                active_credential app_id c
                && same_bytes
                    (from_hex (env.hmac raw_body c.secret))
                    (from_hex (provided_of signature)))
              w.app_credentials)
        × (0 < rows env.sql (installed_in tenant) w.app_installations)
        × (0 < rows env.sql (active_tenant tenant) w.tenants)
  unfolding verify_inbound_webhook
  verified_means {tenant} h =
      let (x, found, signed, named) = accepted _ h in
      let here : str_eq x.tenant_id tenant ≡ true = (eq_iff x.tenant_id tenant).1 named in
      (
        elim (zero_or_pos _) [
          | inr pos ↦ pos
          | inl nowhere ↦ absurd (
              both_ways (signed-has_signed x.credential signed)
                (refuted _ (signed_somewhere nowhere) found))
        ],
        elim (zero_or_pos _) [
          | inr pos ↦ pos
          | inl nowhere ↦ absurd (
              both_ways here
                (refuted (elsewhere tenant) (installed_somewhere tenant nowhere) found))
        ],
        elim (zero_or_pos _) [
          | inr pos ↦ pos
          | inl nowhere ↦
              absurd (
                both_ways here (refuted (elsewhere tenant) (active_somewhere tenant nowhere) found))
        ],
      )
