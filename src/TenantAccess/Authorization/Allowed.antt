-- ===== src/TenantAccess/Authorization/Allowed.antt =====
-- When `authorizeTenantAction` grants an action.
use medusa_multi_tenancy.Prelude.{
  ◌≡◌, refl, ap, sym, ◌∙◌, subst, ◌↔◌, String, Bool, true, false, not, ◌&&◌, Option, none, some,
  inl, inr, Bool-cases, if◌then◌else◌,
}
use medusa_multi_tenancy.Prelude.Text.{is_truthy, normalize_email}
use medusa_multi_tenancy.Schema.{Membership, is_enabled}
use medusa_multi_tenancy.Sql.Rows.{first}
use medusa_multi_tenancy.World.{Env, World, ok}
use medusa_multi_tenancy.TenantManagement.Lifecycle.{is_tenant_access_blocked}
use medusa_multi_tenancy.TenantManagement.Members.{
  get_tenant_membership_by_email, member_with_email,
}
use medusa_multi_tenancy.TenantManagement.Tenants.{
  is_tenant, status_of, active_memberships, get_tenant_status, list_active_memberships_by_email,
}
use medusa_multi_tenancy.TenantAccess.Requests.{
  AdminRequest, get_actor_email, get_active_tenant_id_from_auth_context,
}
use medusa_multi_tenancy.TenantAccess.Authorization.{
  tenant_id_required, tenant_mismatch, not_an_active_member, TenantAction, Decision, Refusal,
  Access, granted, refused, guard, with_active, is_mismatched, is_reactivation, has_role,
  action_permissions, member_decision, decide_action, authorize_actor, authorize_tenant_action,
}

guard-granted :
    (b : Bool) (r : Refusal) {d : Decision} {a : Access}
    → guard b r d ≡ granted a
    → (b ≡ false) × (d ≡ granted a)
guard-granted true r h = cc
guard-granted false r h = (refl, h)

granted_inj : {a b : Access} → granted a ≡ granted b → a ≡ b
granted_inj h = cc

ok_inj : {d e : Decision} → ok d ≡ ok e → d ≡ e
ok_inj h = cc

true_of_negation : {b : Bool} → not b ≡ false → b ≡ true
true_of_negation {b = true} h = refl
true_of_negation {b = false} h = cc

module _ (next : Membership → Decision) {a : Access} where
  with_enabled :
      (m : Membership) (b : Bool)
      → (if b then next m else refused not_an_active_member) ≡ granted a
      → (b ≡ true) × (next m ≡ granted a)
  with_enabled m true h = (refl, h)
  with_enabled m false h = cc

  with_active-granted :
      (o : Option Membership)
      → with_active o next ≡ granted a
      → (m : Membership) × (o ≡ some m) × (is_enabled m.status ≡ true) × (next m ≡ granted a)
  with_active-granted none h = cc
  with_active-granted (some m) h =
      let (enabled, e) = with_enabled m (is_enabled m.status) h in (m, refl, enabled, e)

module _ (env : Env) (req : AdminRequest) (action : TenantAction) (w : World env) where
  -- The caller is an active member of the tenant that the path names, has a role that the action
  -- needs, is not in a session of another tenant if there are several active memberships, and the
  -- tenant is active unless it is reactivated.
  abbrev pub Permitted : Access → Type 0
  Permitted a =
      (req.tenant_param ≡ some a.tenant_id)
      × (is_truthy a.tenant_id ≡ true)
      × (get_actor_email req ≡ some a.actor_email)
      × (is_mismatched (active_memberships env a.actor_email w)
            (get_active_tenant_id_from_auth_context req) a.tenant_id
          ≡ false)
      × (m : Membership) × (first env.sql
            (member_with_email a.tenant_id (normalize_email a.actor_email)) w.memberships
          ≡ some m)
      × (is_enabled m.status ≡ true)
      × ((not (is_reactivation action)
            && is_tenant_access_blocked
                (status_of env (first env.sql (is_tenant a.tenant_id) w.tenants)))
          ≡ false)
      × (has_role m.role (action_permissions action) ≡ true)
      × (m.role ≡ a.actor_role)

  grants :
      (a : Access) → Permitted a → authorize_tenant_action env req action w ≡ (ok (granted a), w)
  unfolding authorize_tenant_action authorize_actor member_decision list_active_memberships_by_email
      get_tenant_membership_by_email get_tenant_status get_active_tenant_id_from_auth_context
  grants a (named, id, email, matches, m, found, enabled, open', role, same) =
      rw (email, named, id, matches, found, enabled, open', role, same) refl

  abbrev decision : String → String → Decision
  decision id email =
      guard
        (is_mismatched (active_memberships env email w) (get_active_tenant_id_from_auth_context req)
          id)
        tenant_mismatch
        (with_active (first env.sql (member_with_email id (normalize_email email)) w.memberships) (
          decide_action env action id email
            (status_of env (first env.sql (is_tenant id) w.tenants))))

  unnamed_is_refused :
      (id email : String)
      → is_truthy id ≡ false
      → authorize_actor env (some id) (some email) req action w
        ≡ (ok (refused tenant_id_required), w)
  unfolding authorize_actor
  unnamed_is_refused id email empty = rw empty refl

  named_is_decided :
      (id email : String)
      → is_truthy id ≡ true
      → authorize_actor env (some id) (some email) req action w ≡ (ok (decision id email), w)
  unfolding authorize_actor member_decision list_active_memberships_by_email
      get_tenant_membership_by_email get_tenant_status
  named_is_decided id email given = rw given refl

  grants_only :
      (id email : String) {a : Access}
      → req.tenant_param ≡ some id
      → get_actor_email req ≡ some email
      → is_truthy id ≡ true
      → decision id email ≡ granted a
      → Permitted a
  grants_only id email named called given h =
      let status = status_of env (first env.sql (is_tenant id) w.tenants) in
      let (matches, e) = guard-granted _ _ h in
      let (m, found, enabled, e1) =
        with_active-granted (decide_action env action id email status) _ e in
      let (usable, e2) = guard-granted _ _ e1 in
      let (role, e3) = guard-granted (not (has_role m.role (action_permissions action))) _ e2 in
      subst Permitted (granted_inj e3)
        (named, given, called, matches, m, found, enabled, usable, true_of_negation role, refl)

  granted_decision :
      (o e : Option String) {a : Access}
      → req.tenant_param ≡ o
      → get_actor_email req ≡ e
      → (authorize_actor env o e req action w).0 ≡ ok (granted a)
      → Permitted a
  unfolding authorize_actor
  granted_decision none e named called h = cc
  granted_decision (some id) none named called h = elim (Bool-cases (is_truthy id)) [
    | inl t ↦ cc
    | inr f ↦ cc
  ]
  granted_decision (some id) (some email) named called h = elim (Bool-cases (is_truthy id)) [
    | inr empty ↦ cc
    | inl given ↦
        grants_only id email named called given
          (ok_inj (sym (ap (λ p. p.0) (named_is_decided id email given)) ∙ h))
  ]

  -- `authorizeTenantAction` grants an action exactly where the path names a tenant, the request gives
  -- an address, that address has at most one active membership or the session names no other tenant
  -- than the path, the address has an active membership of the tenant with a role that the action
  -- needs, and the tenant is active or the action reactivates it.
  pub authorize_tenant_action_iff :
      (a : Access) → ((authorize_tenant_action env req action w).0 ≡ ok (granted a)) ↔ Permitted a
  unfolding authorize_tenant_action
  authorize_tenant_action_iff a = (granted_decision _ _ refl refl, λ p. ap (λ r. r.0) (grants a p))
