-- ===== src/TenantContext/Isolation.antt =====
-- Which tenant `tenantContextMiddleware` lets a request into.
use medusa_multi_tenancy.Prelude.{
  ◌≡◌, ◌∙◌, refl, sym, ap, ◌⊎◌, inl, inr, String, Bool, true, false, not, ◌&&◌, ◌||◌, Option, none,
  some, arith, and_true, Bool-cases,
}
use medusa_multi_tenancy.Schema.{Membership}
use medusa_multi_tenancy.Sql.Rows.{first}
use medusa_multi_tenancy.World.{Env, World, ServiceError, ok, thrown, tenant_access_blocked, ◌>>=◌}
use medusa_multi_tenancy.World.Runs.{bind_returns}
use medusa_multi_tenancy.TenantManagement.Lifecycle.{is_tenant_access_blocked}
use medusa_multi_tenancy.TenantManagement.Tenants.{is_tenant, status_of}
use medusa_multi_tenancy.TenantManagement.Members.{active_member_with_email}
use medusa_multi_tenancy.TenantAccess.Requests.{single, AdminRequest, get_actor_email}
use medusa_multi_tenancy.TenantAccess.Records.{ProcessEnv}
use medusa_multi_tenancy.TenantContext.Routes.{is_tenant_optional_route, allows_lifecycle_override}
use medusa_multi_tenancy.TenantContext.Entry.{
  TenantContext, Admitted, admitted_to, enforce_tenant_scope, enforce_tenant_lifecycle_state,
  get_membership_for_tenant, resolve_effective_tenant_for_authenticated_user, tenant_or_fallback,
  enter, tenant_context_middleware,
}

ok_inj : {a b : Admitted} → ok a ≡ ok b → a ≡ b
ok_inj h = cc

not_ok : {e : ServiceError} {a : Admitted} → thrown e ≡ ok a → ⊥
not_ok h = cc

none≢some : {c : TenantContext} → none ≡ some c → ⊥
none≢some h = cc

context_tenant : {b c : TenantContext} → some b ≡ some c → b.tenant_id ≡ c.tenant_id
context_tenant h = ap (λ x. x.tenant_id) (some_inj h)
  where
    some_inj : {b c : TenantContext} → some b ≡ some c → b ≡ c
    some_inj h = cc

unblocked : {a b : Bool} → a ≡ true → (a && b) ≡ false → b ≡ false
unblocked h h' = ground arith

module _ (env : Env) (penv : ProcessEnv) (req : AdminRequest) where
  abbrev pub blocked : String → World env → Bool
  blocked tenant_id w =
      is_tenant_access_blocked (status_of env (first env.sql (is_tenant tenant_id) w.tenants))

  -- The route asks for an active tenant.
  abbrev pub is_guarded : Bool
  is_guarded = not (is_tenant_optional_route req || allows_lifecycle_override req)

  pub enters_blocked :
      (tenant_id : String) (w : World env)
      → is_guarded ≡ true
      → blocked tenant_id w ≡ true
      → enter env penv req (some tenant_id) w ≡ (
        thrown
            (tenant_access_blocked (status_of env (first env.sql (is_tenant tenant_id) w.tenants))),
        w,
      )
  unfolding enter enforce_tenant_scope enforce_tenant_lifecycle_state
  enters_blocked tenant_id w guarded h = ground arith

  abbrev membership_of : String → Option String → World env → Option Membership
  membership_of tenant_id none w = none
  membership_of tenant_id (some email) w =
      first env.sql (active_member_with_email tenant_id email) w.memberships

  reads_membership :
      (tenant_id : String) (email : Option String) (w : World env)
      → get_membership_for_tenant env penv req tenant_id email w
        ≡ (ok (membership_of tenant_id email w), w)
  unfolding get_membership_for_tenant
  reads_membership tenant_id none w = refl
  reads_membership tenant_id (some email) w = refl

  -- what the handlers get in a tenant
  abbrev pub inside : String → World env → Admitted
  inside tenant_id w =
      admitted_to tenant_id (get_actor_email req) (membership_of tenant_id (get_actor_email req) w)
        req

  abbrev pub passed : String → World env → Bool
  passed tenant_id w = is_guarded && blocked tenant_id w

  pub enters :
      (tenant_id : String) (w : World env)
      → passed tenant_id w ≡ false
      → enter env penv req (some tenant_id) w ≡ (ok (inside tenant_id w), w)
  unfolding enter enforce_tenant_scope enforce_tenant_lifecycle_state
  enters tenant_id w h = ground (arith, reads_membership tenant_id (get_actor_email req) w)

  abbrev no_tenant : Admitted
  no_tenant = record { request = req; context = none }

  enters_nowhere :
      (w : World env) {m : Admitted} → (enter env penv req none w).0 ≡ ok m → m ≡ no_tenant
  unfolding enter enforce_tenant_lifecycle_state
  enters_nowhere w {m} h =
      let (u, _, e) =
        bind_returns (λ _. λ w1. (ok no_tenant, w1)) (enforce_tenant_scope env penv req none) w h in
      ok_inj (sym h ∙ ap (λ r. r.0) e)

  -- What passes the checks runs without a tenant, or inside the one that was resolved.
  entered :
      (o : Option String) (w : World env) {m : Admitted}
      → (enter env penv req o w).0 ≡ ok m
      → (m ≡ no_tenant)
        ⊎ ((tenant_id : String) × (o ≡ some tenant_id)
            × (m ≡ inside tenant_id w)
            × (passed tenant_id w ≡ false)
            × ((enter env penv req o w).1 ≡ w))
  entered none w h = inl (enters_nowhere w h)
  entered (some tenant_id) w h = elim (Bool-cases (passed tenant_id w)) [
    | inl stop ↦
        let (guarded, b) = and_true _ _ stop in
        absurd (not_ok (sym (ap (λ r. r.0) (enters_blocked tenant_id w guarded b)) ∙ h))
    | inr open' ↦
        let e = enters tenant_id w open' in
        inr (tenant_id, refl, ok_inj (sym h ∙ ap (λ r. r.0) e), open', ap (λ r. r.1) e)
  ]

  -- Where `tenantContextMiddleware` lets a request into a tenant, and the route is neither one of
  -- those that need no tenant nor the reactivation of a tenant, the tenant is stored as active; the
  -- handlers read its identifier in the header `x-tenant-id`.
  pub context_is_active :
      (w : World env) {m : Admitted} {c : TenantContext}
      → is_guarded ≡ true
      → (tenant_context_middleware env penv req w).0 ≡ ok m
      → m.context ≡ some c
      → (blocked c.tenant_id (tenant_context_middleware env penv req w).1 ≡ false)
        × (m.request.x_tenant_id ≡ single c.tenant_id)
  unfolding tenant_context_middleware
  context_is_active w {m} {c} guarded h in_tenant =
      let rest = λ (resolved : Option String).
        tenant_or_fallback env penv req resolved >>= enter env penv req in
      let (resolved, _, e1) =
        bind_returns rest (resolve_effective_tenant_for_authenticated_user env penv req) w h in
      let w1 = (resolve_effective_tenant_for_authenticated_user env penv req w).1 in
      let (o, _, e2) =
        bind_returns (enter env penv req) (tenant_or_fallback env penv req resolved) w1
          (sym (ap (λ r. r.0) e1) ∙ h) in
      let w2 = (tenant_or_fallback env penv req resolved w1).1 in
      let e = e1 ∙ e2 in
      elim (entered o w2 (sym (ap (λ r. r.0) e) ∙ h)) [
        | inl nowhere ↦ absurd (none≢some (sym (ap (λ x. x.context) nowhere) ∙ in_tenant))
        | inr (t, _, inside_t, open', same) ↦
            let named = context_tenant (sym (ap (λ x. x.context) inside_t) ∙ in_tenant) in
            (
              rw (sym named, ap (λ r. r.1) e ∙ same) (unblocked guarded open'),
              ap (λ x. x.request.x_tenant_id) inside_t ∙ ap single named,
            )
      ]
