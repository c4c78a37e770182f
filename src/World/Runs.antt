-- ===== src/World/Runs.antt =====
-- Runs of a method step by step.
use medusa_multi_tenancy.Prelude.{◌≡◌, refl, ap}
use medusa_multi_tenancy.World.{
  Env, World, Exec, Result, ServiceError, ok, thrown, ◌>>=◌, transaction,
}

module _ {env : Env} {A B : Type 0} (f : A → Exec env B) where
  -- the rest of a method, after a step
  abbrev resume : Result A × World env → Result B × World env
  resume p = elim p.0 [ ok a ↦ f a p.1 | thrown e ↦ (thrown e, p.1) ]

  -- A method that returns has got through its first step.
  abbrev Passes : Result A × World env → Type 0
  Passes p = (a : A) × (p.0 ≡ ok a) × (resume p ≡ f a p.1)

  passes : (p : Result A × World env) {b : B} → (resume p).0 ≡ ok b → Passes p
  passes (ok a, w) h = (a, refl, refl)
  passes (thrown e, w) h = cc

  pub bind-ok :
      (m : Exec env A) (w : World env) {a : A} {w' : World env}
      → m w ≡ (ok a, w')
      → (m >>= f) w ≡ f a w'
  bind-ok m w h = ap resume h

  pub bind_returns :
      (m : Exec env A) (w : World env) {b : B}
      → ((m >>= f) w).0 ≡ ok b
      → (a : A) × ((m w).0 ≡ ok a) × ((m >>= f) w ≡ f a (m w).1)
  bind_returns m w h = passes (m w) h

  pub bind-thrown :
      (m : Exec env A) (w : World env) {e : ServiceError} {w' : World env}
      → m w ≡ (thrown e, w')
      → (m >>= f) w ≡ (thrown e, w')
  bind-thrown m w h = ap resume h

module _ {env : Env} {A : Type 0} (m : Exec env A) (w : World env) where
  -- how a transaction ends, after the statements in it
  abbrev commit : Result A × World env → Result A × World env
  commit p = elim p.0 [ ok a ↦ (ok a, p.1) | thrown e ↦ (thrown e, record w { drawn = p.1.drawn }) ]

  pub transaction-ok : {a : A} {w' : World env} → m w ≡ (ok a, w') → transaction m w ≡ (ok a, w')
  transaction-ok h = ap commit h

  pub transaction-thrown :
      {e : ServiceError} {w' : World env}
      → m w ≡ (thrown e, w')
      → transaction m w ≡ (thrown e, record w { drawn = w'.drawn })
  transaction-thrown h = ap commit h
