-- ===== src/Apps/Publishing/Settling.antt =====
-- modules/apps/service.ts: how the deliveries of an event end.
use medusa_multi_tenancy.Prelude.{
  ℕ, ◌+◌, ◌*◌, ◌≤◌, ◌≡◌, ◌∙◌, refl, sym, ap, String, Bool, true, false, Option, none, List, [], ◌∷◌,
  length, count, arith, one_if, if◌then◌else◌, not, ◌&&◌, subst,
}
use medusa_multi_tenancy.Schema.{AppWebhookDeliveryLog}
use medusa_multi_tenancy.Sql.Rows.{rows}
use medusa_multi_tenancy.World.{Env, World, Result, ok}
use medusa_multi_tenancy.World.Runs.{bind-ok}
use medusa_multi_tenancy.Apps.Publishing.{
  Subscription, Attempt, is_delivered, is_dead_letter, attempt_deliveries,
  max_webhook_delivery_attempts, bury, deliver, deliver_all, subscriptions,
  publish_event_to_subscribers,
}
use medusa_multi_tenancy.Apps.Publishing.Attempts.{
  none_of, all_of, is_to, is_at, delivered_count, dead_letter_count, attempt_count,
  attempt_deliveries-Attempted,
}

module _ (app_id target_url : String) (env : Env) (show : ℕ → String)
    (event_name payload : String) where
  abbrev delivered_here : World env → ℕ
  delivered_here = delivered_count app_id target_url env

  abbrev dead_here : World env → ℕ
  dead_here = dead_letter_count app_id target_url env

  abbrev attempts_here : World env → ℕ
  attempts_here = attempt_count app_id target_url env

  module _ (s : Subscription) where
    -- the subscription is at the destination
    abbrev here : Bool
    here = is_at app_id target_url s

    -- So many deliveries to the destination have ended, as delivered or as dead letters, and so many
    -- deliveries were made in all.
    abbrev Ended : ℕ → ℕ → World env → Result Unit × World env → Type 0
    Ended at_destination n w (r, w') =
        (r ≡ ok tt)
        × (delivered_here w' + dead_here w' ≡ delivered_here w + dead_here w + at_destination)
        × (attempts_here w' ≤ attempts_here w + max_webhook_delivery_attempts * at_destination)
        × (w'.fetched ≤ w.fetched + max_webhook_delivery_attempts * n)

    -- what a dead letter of the subscription adds to the counts
    dead_inserted :
        (r : AppWebhookDeliveryLog) (t : env.sql.Table AppWebhookDeliveryLog)
        → is_to app_id target_url r ≡ here
        → is_dead_letter r.delivery_status ≡ true
        → is_delivered r.delivery_status ≡ false
        → let p = is_to app_id target_url in
          (rows env.sql (λ l. p l && is_delivered l.delivery_status) (env.sql.insert r t)
            ≡ rows env.sql (λ l. p l && is_delivered l.delivery_status) t)
          × (rows env.sql (λ l. p l && is_dead_letter l.delivery_status) (env.sql.insert r t)
              ≡ one_if here + rows env.sql (λ l. p l && is_dead_letter l.delivery_status) t)
          × (rows env.sql (λ l. p l && not (is_dead_letter l.delivery_status)) (env.sql.insert r t)
              ≡ rows env.sql (λ l. p l && not (is_dead_letter l.delivery_status)) t)
    dead_inserted r t at dead undelivered =
        let p = is_to app_id target_url in
        (
          omega (
            arith,
            env.sql.rows-insert (λ l. p l && is_delivered l.delivery_status) r t,
            none_of (p r) (is_delivered r.delivery_status) undelivered,
          ),
          omega (
            arith,
            env.sql.rows-insert (λ l. p l && is_dead_letter l.delivery_status) r t,
            all_of (p r) (is_dead_letter r.delivery_status) dead,
            ap one_if at,
          ),
          omega (
            arith,
            env.sql.rows-insert (λ l. p l && not (is_dead_letter l.delivery_status)) r t,
            none_of (p r) (not (is_dead_letter r.delivery_status)) (rw dead refl),
          ),
        )

    buried :
        (last : Option Attempt) (w1 : World env)
        → let w' = (bury env show event_name payload s (false, last) w1).1 in
          (delivered_here w' ≡ delivered_here w1)
          × (dead_here w' ≡ one_if here + dead_here w1)
          × (attempts_here w' ≡ attempts_here w1)
    buried last w1 = dead_inserted _ w1.webhook_deliveries refl refl refl

    bury-Ended :
        (b : Bool) (last : Option Attempt) (w w1 : World env)
        → delivered_here w1 ≡ delivered_here w + one_if (here && b)
        → dead_here w1 ≡ dead_here w
        → attempts_here w1 ≤ attempts_here w + (if here then max_webhook_delivery_attempts else 0)
        → w1.fetched ≤ w.fetched + max_webhook_delivery_attempts
        → Ended (one_if here) 1 w (bury env show event_name payload s (b, last) w1)
    bury-Ended true last w w1 d dead tried calls =
        (refl, ground (arith, d, dead), ground (arith, tried), omega (arith, calls))
    bury-Ended false last w w1 d dead tried calls =
        let (d', dead', tried') = buried last w1 in
        (
          refl,
          ground (arith, d, dead, d', dead'),
          ground (arith, tried, tried'),
          omega (arith, calls),
        )

    deliver-Ended :
        (w : World env) → Ended (one_if here) 1 w (deliver env show event_name payload s w)
    unfolding deliver
    deliver-Ended w =
        let attempts =
          attempt_deliveries env show event_name payload s max_webhook_delivery_attempts 1 none in
        let (b, last, gives, d, dead, tried, calls) =
          attempt_deliveries-Attempted app_id target_url env show event_name payload s
            max_webhook_delivery_attempts 1 none w in
        let w1 = (attempts w).1 in
        let e = bind-ok (bury env show event_name payload s) attempts w (ap (λ r. (r, w1)) gives) in
        subst (Ended (one_if here) 1 w) (sym e) (bury-Ended b last w w1 d dead tried calls)

  deliver_all-Ended :
      (ss : List Subscription) (w : World env)
      → let p = deliver_all env show event_name payload ss w in
        (p.0 ≡ ok tt)
        × (delivered_here p.1 + dead_here p.1
            ≡ delivered_here w + dead_here w + count (is_at app_id target_url) ss)
        × (attempts_here p.1
            ≤ attempts_here w + max_webhook_delivery_attempts * count (is_at app_id target_url) ss)
        × (p.1.fetched ≤ w.fetched + max_webhook_delivery_attempts * length ss)
  unfolding deliver_all
  deliver_all-Ended [] w = (refl, omega arith, omega arith, omega arith)
  deliver_all-Ended (s ∷ ss) w =
      let (gives, ended, tried, calls) = deliver-Ended s w in
      let w1 = (deliver env show event_name payload s w).1 in
      let (gives', ended', tried', calls') = deliver_all-Ended ss w1 in
      let e =
        bind-ok (λ _. deliver_all env show event_name payload ss)
          (deliver env show event_name payload s) w (ap (λ r. (r, w1)) gives) in
      (
        ap (λ r. r.0) e ∙ gives',
        rw (ap (λ r. r.1) e) (ground (arith, ended, ended')),
        rw (ap (λ r. r.1) e) (ground (arith, tried, tried')),
        rw (ap (λ r. r.1) e) (omega (arith, calls, calls')),
      )

module _ (env : Env) (show : ℕ → String) (tenant_id event_name payload : String)
    (w : World env) where
  abbrev pub published : Result ℕ × World env
  published = publish_event_to_subscribers env show tenant_id event_name payload w

  abbrev subscribed_now : List Subscription
  subscribed_now = subscriptions env tenant_id event_name w

  publishes :
      published
      ≡ (ok (length subscribed_now), (deliver_all env show event_name payload subscribed_now w).1)
  unfolding publish_event_to_subscribers
  publishes =
      let (gives, _, _, _) = deliver_all-Ended "" "" env show event_name payload subscribed_now w in
      ground (arith, gives)

  -- Publishing an event always returns the number of subscriptions, whatever the calls of `fetch` come
  -- to. By then the log has, for every app and every address, one row more that says delivered or dead
  -- letter for each subscription of the app at the address, and at most three rows of attempts more
  -- for each of these; in all, `fetch` was called at most three times for each subscription.
  pub publish_ends :
      (app_id target_url : String)
      → (published.0 ≡ ok (length (subscriptions env tenant_id event_name w)))
        × (delivered_count app_id target_url env published.1
              + dead_letter_count app_id target_url env published.1
            ≡ delivered_count app_id target_url env w
              + dead_letter_count app_id target_url env w
              + count (is_at app_id target_url) (subscriptions env tenant_id event_name w))
        × (attempt_count app_id target_url env published.1
            ≤ attempt_count app_id target_url env w
              + 3 * count (is_at app_id target_url) (subscriptions env tenant_id event_name w))
        × (published.1.fetched ≤ w.fetched + 3 * length (subscriptions env tenant_id event_name w))
  publish_ends app_id target_url =
      let (_, ended, tried, calls) =
        deliver_all-Ended app_id target_url env show event_name payload subscribed_now w in
      (
        ap (λ r. r.0) publishes,
        rw (ap (λ r. r.1) publishes) ended,
        rw (ap (λ r. r.1) publishes) tried,
        rw (ap (λ r. r.1) publishes) calls,
      )
