-- ===== src/TenantManagement/Lifecycle/Refinement.antt =====
-- The service methods of the lifecycle, beside the abstract machine of `Standing`.
use medusa_multi_tenancy.Prelude.{
  ℕ, ◌≤◌, ◌≡◌, refl, ap, sym, ◌∙◌, String, Bool, true, false, Option, none, some, if◌then◌else◌,
  arith, str_eq, eq_iff, Bool-cases, Option-cases, inl, inr,
}
use medusa_multi_tenancy.Schema.{Tenant}
use medusa_multi_tenancy.Sql.Rows.{rows, first, rows_congr}
use medusa_multi_tenancy.World.{Env, World}
use medusa_multi_tenancy.TenantManagement.Lifecycle.{has_id}
use medusa_multi_tenancy.TenantManagement.Lifecycle.Standing.{
  LifecycleOp, deactivate, suspend, reactivate, request_deletion, Standing, standing, allows,
  target, next, map_standing, standing_of, change, apply, view, HasUniqueTenants, apply_missing,
  apply_refused, apply_allowed, standing_of_counts, counts_after_change,
}

-- What an operation on `id` does to the standing of `j`.
abbrev pub effect : LifecycleOp → String → String → Standing → Standing
effect op id j s = if str_eq j id then next op s else s

module _ (env : Env) (op : LifecycleOp) (id : String) (actor : Option String) (w : World env)
    (u : HasUniqueTenants env w) where
  map_standing_id :
      (f : Standing → Standing)
      → ((s : Standing) → f s ≡ s)
      → (o : Option Standing) → o ≡ map_standing f o
  map_standing_id f h none = refl
  map_standing_id f h (some s) = ap some (sym (h s))

  keeps_ids :
      (change' : Tenant → Tenant)
      → ((r : Tenant) → (change' r).id ≡ r.id)
      → (j : String) → rows env.sql (has_id j) (env.sql.update (has_id id) change' w.tenants) ≤ 1
  keeps_ids c h j =
      rw
        (env.sql.rows-update (has_id j) (has_id id) c w.tenants
          ∙ rows_congr env.sql _ (has_id j) w.tenants (λ r. kept (has_id id r) r))
        (u j)
    where
      kept : (b : Bool) (r : Tenant) → has_id j (if b then c r else r) ≡ has_id j r
      kept true r = rw (h r) refl
      kept false r = refl

  change_id : (op : LifecycleOp) (now : ℕ) (r : Tenant) → (change op now r).id ≡ r.id
  change_id deactivate now r = refl
  change_id suspend now r = refl
  change_id reactivate now r = refl
  change_id request_deletion now r = refl

  pub apply-HasUniqueTenants : HasUniqueTenants env (apply env op id actor w)
  apply-HasUniqueTenants j = elim (Option-cases (first env.sql (has_id id) w.tenants)) [
    | inl missing ↦ rw (apply_missing env op id actor w missing) (u j)
    | inr (t, found) ↦ elim (Bool-cases (allows op (standing t))) [
      | inl yes' ↦
          rw (apply_allowed env op id actor w found yes')
            (keeps_ids (change op w.now) (change_id op w.now) j)
      | inr no' ↦ rw (apply_refused env op id actor w found no') (u j)
    ]
  ]

  moved : String → Standing → Standing
  moved j s = if str_eq j id then record { status = target op; legal_hold = s.legal_hold } else s

  view_self :
      (j : String)
      → str_eq j id ≡ true
      → view env j w ≡ standing_of (first env.sql (has_id id) w.tenants)
  unfolding view
  view_self j e = rw ((eq_iff j id).0 e) refl

  -- Where nothing happens, the machine does not move either.
  idle :
      (j : String) (o : Option Standing)
      → ((s : Standing) → o ≡ some s → str_eq j id ≡ true → allows op s ≡ false)
      → map_standing (effect op id j) o ≡ o
  idle j none h = refl
  idle j (some s) h = ground (arith, h s refl)

  -- Where the operation is allowed, it moves the tenant to its target.
  moves :
      (j : String) (o : Option Standing)
      → ((s : Standing) → o ≡ some s → str_eq j id ≡ true → allows op s ≡ true)
      → map_standing (moved j) o ≡ map_standing (effect op id j) o
  unfolding moved
  moves j none h = refl
  moves j (some s) h = ground (arith, h s refl)

  -- Whatever the operation, the tenant, the actor and the state: if tenant ids are unique, then the
  -- standing of every tenant `j` after the call is the standing before it, moved by the abstract
  -- machine if `j` is the tenant that the call is about, and the same otherwise.
  pub view-apply :
      (j : String)
      → view env j (apply env op id actor w) ≡ map_standing (effect op id j) (view env j w)
  view-apply j = elim (Option-cases (first env.sql (has_id id) w.tenants)) [
    | inl missing ↦
        rw (apply_missing env op id actor w missing) (
          sym
            (idle j (view env j w) (λ s e same. cc (view_self j same, e, ap standing_of missing))))
    | inr (t, found) ↦ elim (Bool-cases (allows op (standing t))) [
      | inr no' ↦ rw (apply_refused env op id actor w found no') (
          sym (idle j (view env j w) (λ s e same. ground (arith, no', view_self j same, found, e))))
      | inl yes' ↦
          standing_of_counts env j (moved j) w (apply env op id actor w) (u j)
            (apply-HasUniqueTenants j)
            (λ p.
              unfold moved in
              rw (apply_allowed env op id actor w found yes') (counts_after_change env op id j w p))
          ∙ moves j (view env j w) (λ s e same. ground (arith, yes', view_self j same, found, e))
    ]
  ]
