-- ===== src/TenantManagement/Lifecycle/Sequences.antt =====
-- Sequences of lifecycle calls.
use medusa_multi_tenancy.Prelude.{
  ◌≡◌, refl, ap, ◌∙◌, String, Bool, true, false, not, ◌&&◌, Option, none, some, List, [], ◌∷◌,
  arith, eq_refl,
}
use medusa_multi_tenancy.Schema.{active, pending_deletion}
use medusa_multi_tenancy.World.{Env, World}
use medusa_multi_tenancy.TenantManagement.Lifecycle.{is_deleting, is_blocked_status}
use medusa_multi_tenancy.TenantManagement.Lifecycle.Standing.{
  LifecycleOp, suspend, reactivate, Standing, map_standing, apply, view, HasUniqueTenants,
}
use medusa_multi_tenancy.TenantManagement.Lifecycle.Refinement.{
  effect, view-apply, apply-HasUniqueTenants,
}

pub record LifecycleCall : Type 0 where
  pub op : LifecycleOp
  pub id : String
  pub actor : Option String

-- the abstract machine on one tenant, over a sequence of calls
abbrev pub effects : List LifecycleCall → String → Standing → Standing
effects [] j s = s
effects (c ∷ cs) j s = effects cs j (effect c.op c.id j s)

abbrev pub is_reactivate : LifecycleOp → Bool
is_reactivate reactivate = true
is_reactivate _ = false

-- None of the calls reactivates a tenant.
abbrev pub no_reactivation : List LifecycleCall → Bool
no_reactivation [] = true
no_reactivation (c ∷ cs) = not (is_reactivate c.op) && no_reactivation cs

-- A tenant under legal hold that is not being deleted.
abbrev pub is_retained : Standing → Bool
is_retained s = s.legal_hold && not (is_deleting s.status)

effect_retained :
    (op : LifecycleOp) (id j : String) (s : Standing)
    → is_retained s ≡ true
    → is_retained (effect op id j s) ≡ true
effect_retained op id j s h = ground arith

effects_retained :
    (cs : List LifecycleCall) (j : String) (s : Standing)
    → is_retained s ≡ true
    → is_retained (effects cs j s) ≡ true
effects_retained [] j s h = h
effects_retained (c ∷ cs) j s h =
    effects_retained cs j (effect c.op c.id j s) (effect_retained c.op c.id j s h)

effect_blocked :
    (op : LifecycleOp) (id j : String) (s : Standing)
    → is_reactivate op ≡ false
    → is_blocked_status s.status ≡ true
    → is_blocked_status (effect op id j s).status ≡ true
effect_blocked op id j s r h = ground arith

effects_blocked :
    (cs : List LifecycleCall) (j : String) (s : Standing)
    → no_reactivation cs ≡ true
    → is_blocked_status s.status ≡ true
    → is_blocked_status (effects cs j s).status ≡ true
effects_blocked [] j s r h = h
effects_blocked (c ∷ cs) j s r h =
    effects_blocked cs j (effect c.op c.id j s) (ground (arith, r))
      (effect_blocked c.op c.id j s (ground (arith, r)) h)

module _ (env : Env) where
  unfoldable pub run_lifecycle : List LifecycleCall → World env → World env
  run_lifecycle [] w = w
  run_lifecycle (c ∷ cs) w = run_lifecycle cs (apply env c.op c.id c.actor w)

  map_standing_twice :
      (f g : Standing → Standing) (o : Option Standing)
      → map_standing g (map_standing f o) ≡ map_standing (λ s. g (f s)) o
  map_standing_twice f g none = refl
  map_standing_twice f g (some s) = refl

  map_standing_id : (o : Option Standing) → map_standing (λ s. s) o ≡ o
  map_standing_id none = refl
  map_standing_id (some s) = refl

  view-run_lifecycle :
      (cs : List LifecycleCall) (w : World env)
      → HasUniqueTenants env w
      → (j : String) → view env j (run_lifecycle cs w) ≡ map_standing (effects cs j) (view env j w)
  unfolding run_lifecycle
  view-run_lifecycle [] w u j = rw map_standing_id
  view-run_lifecycle (c ∷ cs) w u j =
      view-run_lifecycle cs (apply env c.op c.id c.actor w)
        (apply-HasUniqueTenants env c.op c.id c.actor w u) j
      ∙ ap (map_standing (effects cs j)) (view-apply env c.op c.id c.actor w u j)
      ∙ map_standing_twice (effect c.op c.id j) (effects cs j) (view env j w)

  module _ (cs : List LifecycleCall) (w : World env) (u : HasUniqueTenants env w) (j : String)
      {s : Standing} (at : view env j w ≡ some s) where
    after_run : view env j (run_lifecycle cs w) ≡ some (effects cs j s)
    after_run = view-run_lifecycle cs w u j ∙ ap (map_standing (effects cs j)) at

    -- With unique tenant ids: a tenant that is under legal hold and not being deleted is still so
    -- after any sequence of lifecycle calls, on it and on others.
    pub legal_hold_retains :
        is_retained s ≡ true
        → (s' : Standing) × (view env j (run_lifecycle cs w) ≡ some s') × (is_retained s' ≡ true)
    legal_hold_retains h = (effects cs j s, after_run, effects_retained cs j s h)

    -- With unique tenant ids: a tenant whose access is blocked stays blocked through any sequence of
    -- lifecycle calls that has no reactivation.
    pub blocked_until_reactivated :
        is_blocked_status s.status ≡ true
        → no_reactivation cs ≡ true
        → (s' : Standing) × (view env j (run_lifecycle cs w) ≡ some s')
          × (is_blocked_status s'.status ≡ true)
    blocked_until_reactivated h r = (effects cs j s, after_run, effects_blocked cs j s r h)

  -- With unique tenant ids: a reactivation is refused while a tenant's deletion is pending, but
  -- suspending the tenant first lets the reactivation through, and the deletion is off.
  pub suspension_lifts_deletion :
      (j : String) (actor : Option String) (w : World env) {s : Standing}
      → HasUniqueTenants env w
      → view env j w ≡ some s
      → s.status ≡ pending_deletion
      → (view env j (apply env reactivate j actor w) ≡ some s)
        × (view env j (apply env reactivate j actor (apply env suspend j actor w))
            ≡ some (record { status = active; legal_hold = s.legal_hold }))
  suspension_lifts_deletion j actor w {s} u at p = (
    ground (arith, view-apply env reactivate j actor w u j, eq_refl j),
    ground (
      arith,
      view-apply env suspend j actor w u j,
      view-apply env reactivate j actor (apply env suspend j actor w)
          (apply-HasUniqueTenants env suspend j actor w u) j,
      eq_refl j,
    ),
  )
