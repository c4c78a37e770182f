-- ===== src/Apps/Publishing/Attempts.antt =====
-- modules/apps/service.ts: what the attempts to deliver an event leave in the delivery log.
use medusa_multi_tenancy.Prelude.{
  ℕ, zero, suc, ◌+◌, ◌≤◌, ◌≡◌, ◌∙◌, refl, ap, String, Bool, true, false, Option, some, arith,
  one_if, if◌then◌else◌, str_eq, not, ◌&&◌, inl, inr, Bool-cases,
}
use medusa_multi_tenancy.Schema.{AppWebhookDeliveryLog}
use medusa_multi_tenancy.Sql.Rows.{rows}
use medusa_multi_tenancy.World.{Env, World, Result, FetchOutcome, responded, rejected, ok}
use medusa_multi_tenancy.Apps.Publishing.{
  Subscription, Attempt, is_delivered, is_dead_letter, attempt_of, request_of, log_row,
  attempt_delivery, attempt_deliveries,
}

pub none_of : (a b : Bool) → b ≡ false → one_if (a && b) ≡ 0
none_of a b h = ground arith

pub all_of : (a b : Bool) → b ≡ true → one_if (a && b) ≡ one_if a
all_of a b h = ground arith

negate_false : (b : Bool) → b ≡ false → not b ≡ true
negate_false b h = ground arith

-- A destination is an app and the address of its webhook.
module _ (app_id target_url : String) where
  abbrev pub is_to : AppWebhookDeliveryLog → Bool
  is_to l = str_eq l.app_id app_id && str_eq l.target_url target_url

  abbrev pub is_at : Subscription → Bool
  is_at s = str_eq s.app_id app_id && str_eq s.target_url target_url

  module _ (env : Env) where
    -- The rows of the log for the destination: those that say delivered, the dead letters, and the
    -- attempts, delivered or failed.
    abbrev pub delivered_count : World env → ℕ
    delivered_count w =
        rows env.sql (λ l. is_to l && is_delivered l.delivery_status) w.webhook_deliveries

    abbrev pub dead_letter_count : World env → ℕ
    dead_letter_count w =
        rows env.sql (λ l. is_to l && is_dead_letter l.delivery_status) w.webhook_deliveries

    abbrev pub attempt_count : World env → ℕ
    attempt_count w =
        rows env.sql (λ l. is_to l && not (is_dead_letter l.delivery_status)) w.webhook_deliveries

module _ (app_id target_url : String) (env : Env) (show : ℕ → String)
    (event_name payload : String) where
  abbrev delivered_here : World env → ℕ
  delivered_here = delivered_count app_id target_url env

  abbrev dead_here : World env → ℕ
  dead_here = dead_letter_count app_id target_url env

  abbrev attempts_here : World env → ℕ
  attempts_here = attempt_count app_id target_url env

  module _ (s : Subscription) where
    -- the subscription is at the destination
    abbrev here : Bool
    here = is_at app_id target_url s

    abbrev outcome : World env → Attempt
    outcome w = attempt_of show (env.fetch w.fetched (request_of env show event_name payload s))

    abbrev logged : ℕ → World env → World env
    logged n w = record w {
      fetched = suc w.fetched;
      drawn = suc w.drawn;
      webhook_deliveries =
          env.sql.insert
            (log_row env show event_name payload (env.random_uuid w.drawn) s
              (outcome w).delivery_status n (outcome w).response_status (outcome w).error_message
              w.now)
            w.webhook_deliveries;
    }

    stops :
        (k n : ℕ) (last : Option Attempt) (w : World env)
        → is_delivered (outcome w).delivery_status ≡ true
        → attempt_deliveries env show event_name payload s (suc k) n last w
          ≡ (ok (true, some (outcome w)), logged n w)
    unfolding attempt_deliveries attempt_delivery
    stops k n last w h = rw h refl

    goes_on :
        (k n : ℕ) (last : Option Attempt) (w : World env)
        → is_delivered (outcome w).delivery_status ≡ false
        → attempt_deliveries env show event_name payload s (suc k) n last w
          ≡ attempt_deliveries env show event_name payload s k
              (suc n)
              (some (outcome w))
              (logged n w)
    unfolding attempt_deliveries attempt_delivery
    goes_on k n last w h = rw h refl

    not_buried : (o : FetchOutcome) → is_dead_letter (attempt_of show o).delivery_status ≡ false
    unfolding attempt_of
    not_buried (responded status) = ground arith
    not_buried (rejected message) = refl

    -- After so many attempts at most, one of them delivered or none did, and each is logged.
    abbrev Attempted : ℕ → World env → Result (Bool × Option Attempt) × World env → Type 0
    Attempted k w (r, w') =
        (b : Bool) × (last : Option Attempt) × (r ≡ ok (b, last))
        × (delivered_here w' ≡ delivered_here w + one_if (here && b))
        × (dead_here w' ≡ dead_here w)
        × (attempts_here w' ≤ attempts_here w + (if here then k else 0))
        × (w'.fetched ≤ w.fetched + k)

    gives_up :
        (n : ℕ) (last : Option Attempt) (w : World env)
        → attempt_deliveries env show event_name payload s zero n last w ≡ (ok (false, last), w)
    unfolding attempt_deliveries
    gives_up n last w = refl

    abbrev row_of : ℕ → World env → AppWebhookDeliveryLog
    row_of n w =
        log_row env show event_name payload (env.random_uuid w.drawn) s (outcome w).delivery_status
          n (outcome w).response_status (outcome w).error_message w.now

    delivered_logged :
        (n : ℕ) (w : World env)
        → delivered_here (logged n w)
          ≡ one_if (here && is_delivered (outcome w).delivery_status) + delivered_here w
    delivered_logged n w =
        env.sql.rows-insert (λ l. is_to app_id target_url l && is_delivered l.delivery_status) _
          w.webhook_deliveries

    dead_logged : (n : ℕ) (w : World env) → dead_here (logged n w) ≡ dead_here w
    dead_logged n w = omega (
      arith,
      env.sql.rows-insert (λ l. is_to app_id target_url l && is_dead_letter l.delivery_status)
            (row_of n w) w.webhook_deliveries
          ∙ ap (λ more. more + dead_here w)
              (none_of here (is_dead_letter (outcome w).delivery_status)
                (not_buried (env.fetch w.fetched (request_of env show event_name payload s)))),
    )

    attempt_logged :
        (n : ℕ) (w : World env) → attempts_here (logged n w) ≡ one_if here + attempts_here w
    attempt_logged n w =
        env.sql.rows-insert
          (λ l. is_to app_id target_url l && not (is_dead_letter l.delivery_status)) (row_of n w)
          w.webhook_deliveries
        ∙ ap (λ more. more + attempts_here w)
            (all_of here (not (is_dead_letter (outcome w).delivery_status)) (
              negate_false (is_dead_letter (outcome w).delivery_status)
                (not_buried (env.fetch w.fetched (request_of env show event_name payload s)))))

    pub attempt_deliveries-Attempted :
        (k n : ℕ) (last : Option Attempt) (w : World env)
        → Attempted k w (attempt_deliveries env show event_name payload s k n last w)
    attempt_deliveries-Attempted zero n last w =
        rw (gives_up n last w) (false, last, refl, ground arith, refl, ground arith, omega arith)
    attempt_deliveries-Attempted (suc k) n last w =
        elim (Bool-cases (is_delivered (outcome w).delivery_status)) [
          | inl yes' ↦ rw (stops k n last w yes') (
            true,
            some (outcome w),
            refl,
            ground (arith, delivered_logged n w, yes'),
            dead_logged n w,
            ground (arith, attempt_logged n w),
            omega arith,
          )
          | inr no' ↦
              let (b, l, gives, d, dead, tried, calls) =
                attempt_deliveries-Attempted k (suc n) (some (outcome w)) (logged n w) in
              rw (goes_on k n last w no') (
                b,
                l,
                gives,
                ground (arith, d, delivered_logged n w, no'),
                dead ∙ dead_logged n w,
                ground (arith, tried, attempt_logged n w),
                omega (arith, calls),
              )
        ]
