-- ===== src/Apps/Publishing.antt =====
-- modules/apps/service.ts: `publishEventToSubscribers`.
pub mod Attempts
pub mod Settling
use medusa_multi_tenancy.Prelude.{
  ℕ, zero, suc, ◌+◌, String, Bool, true, false, not, ◌&&◌, Option, none, some, List, [], ◌∷◌, map,
  length, if◌then◌else◌, leb, ltb, str_eq,
}
use medusa_multi_tenancy.Prelude.Text.{or_else}
use medusa_multi_tenancy.Schema.{
  Tenant, AppCredential, AppInstallation, AppWebhook, AppWebhookDeliveryLog, DeliveryStatus,
  delivered, failed, dead_letter, is_installed,
}
use medusa_multi_tenancy.World.{
  Env, World, Exec, FetchOutcome, WebhookRequest, responded, rejected, ◌>>=◌, ◌>>◌, pure, gets,
  modify, draw_uuid, fetch,
}
use medusa_multi_tenancy.Apps.Joins.{flat_map}
use medusa_multi_tenancy.Apps.Inbound.{active_tenant}
use Prim.Native.String.{◌++◌ as append}

abbrev pub max_webhook_delivery_attempts : ℕ
max_webhook_delivery_attempts = 3

-- a row of the query on subscriptions
pub record Subscription : Type 0 where
  pub app_id : String
  pub target_url : String
  pub tenant_id : String
  pub secret : String
  pub key_id : String

-- what one attempt came to
pub record Attempt : Type 0 where
  pub delivery_status : DeliveryStatus
  pub response_status : Option ℕ
  pub error_message : Option String

-- `response.ok`
abbrev is_ok : ℕ → Bool
is_ok status = leb 200 status && leb status 299

abbrev pub is_delivered : DeliveryStatus → Bool
is_delivered delivered = true
is_delivered _ = false

abbrev pub is_dead_letter : DeliveryStatus → Bool
is_dead_letter dead_letter = true
is_dead_letter _ = false

-- `error?.message || 'Webhook delivery failed.'`
abbrev message_or : Option String → String → String
message_or none other = other
message_or (some s) other = or_else s other

-- The status is written after the text of an error; a number's text is a parameter.
unfoldable pub attempt_of : (ℕ → String) → FetchOutcome → Attempt
attempt_of show (responded status) =
    if is_ok status
    then record { delivery_status = delivered; response_status = some status; error_message = none }
    else record {
      delivery_status = failed;
      response_status = some status;
      error_message = some (append "Received non-success response: " (show status));
    }
attempt_of show (rejected message) = record {
  delivery_status = failed;
  response_status = none;
  error_message = some (message_or message "Webhook delivery failed.");
}

module _ (env : Env) where
  -- `{ event, data, sent_at }` as JSON is a parameter, `payload`.
  module _ (show : ℕ → String) (event_name payload : String) where
    abbrev pub request_of : Subscription → WebhookRequest
    request_of s = record {
      target_url = s.target_url;
      app_id = s.app_id;
      app_key = s.key_id;
      app_signature = append "sha256=" (env.hmac payload s.secret);
      tenant_id = s.tenant_id;
      body = payload;
    }

    abbrev pub log_row :
        String
        → Subscription
        → DeliveryStatus
        → ℕ
        → Option ℕ
        → Option String
        → ℕ
        → AppWebhookDeliveryLog
    log_row id s status attempt response message now = record {
      id = id;
      tenant_id = s.tenant_id;
      app_id = s.app_id;
      event_name = event_name;
      target_url = s.target_url;
      delivery_status = status;
      attempt_number = attempt;
      response_status = response;
      error_message = message;
      delivered_at = now;
    }

    abbrev pub log_delivery :
        Subscription → DeliveryStatus → ℕ → Option ℕ → Option String → Exec env Unit
    log_delivery s status attempt response message = do
      id ← draw_uuid
      modify λ w. record w {
        webhook_deliveries =
            env.sql.insert (log_row id s status attempt response message w.now)
              w.webhook_deliveries;
      }

    -- the body of the loop
    unfoldable pub attempt_delivery : Subscription → ℕ → Exec env Attempt
    attempt_delivery s attempt = do
      outcome ← fetch (request_of s)
      let a = attempt_of show outcome
      log_delivery s a.delivery_status attempt a.response_status a.error_message
      pure a

    -- The attempts from one on, so many at most: whether one delivered, and the last one.
    unfoldable pub attempt_deliveries :
        Subscription → ℕ → ℕ → Option Attempt → Exec env (Bool × Option Attempt)
    attempt_deliveries s zero attempt last = pure (false, last)
    attempt_deliveries s (suc remaining) attempt last = do
      a ← attempt_delivery s attempt
      let again = attempt_deliveries s remaining (suc attempt) (some a)
      if is_delivered a.delivery_status then pure (true, some a) else again

    abbrev last_response : Option Attempt → Option ℕ
    last_response none = none
    last_response (some a) = a.response_status

    abbrev last_message : Option Attempt → Option String
    last_message none = none
    last_message (some a) = a.error_message

    abbrev dead_letter_message : Option Attempt → String
    dead_letter_message last =
        message_or (last_message last)
          "Moved to tenant-partitioned dead-letter after retry exhaustion."

    abbrev pub bury : Subscription → Bool × Option Attempt → Exec env Unit
    bury s (delivery_succeeded, last) =
        let log =
          log_delivery s dead_letter (suc max_webhook_delivery_attempts) (last_response last)
            (some (dead_letter_message last)) in
        if delivery_succeeded then pure tt else log

    -- the event for one subscription
    unfoldable pub deliver : Subscription → Exec env Unit
    deliver s = attempt_deliveries s max_webhook_delivery_attempts 1 none >>= bury s

    -- The source starts all deliveries at once and waits for them; here they run one after another. They
    -- write rows of their own, and the order of rows is not modelled.
    unfoldable pub deliver_all : List Subscription → Exec env Unit
    deliver_all [] = pure tt
    deliver_all (s ∷ ss) = deliver s >> deliver_all ss

  -- the conditions of the query and of its joins
  abbrev subscribed : String → String → AppWebhook → Bool
  subscribed tenant_id event_name h =
      str_eq h.event_name event_name && h.is_active && str_eq h.tenant_id tenant_id

  abbrev subscriber : String → AppWebhook → AppInstallation → Bool
  subscriber tenant_id h i =
      str_eq i.id h.app_id && is_installed i.status && str_eq i.tenant_id tenant_id

  abbrev signer : String → AppInstallation → AppCredential → Bool
  signer tenant_id i c = str_eq c.app_id i.id && c.is_active && str_eq c.tenant_id tenant_id

  abbrev subscription : AppWebhook → AppInstallation → AppCredential → Subscription
  subscription h i c = record {
    app_id = h.app_id;
    target_url = h.target_url;
    tenant_id = i.tenant_id;
    secret = c.secret;
    key_id = c.key_id;
  }

  unfoldable pub subscriptions : String → String → World env → List Subscription
  subscriptions tenant_id event_name w =
      flat_map
        (λ h.
          flat_map
            (λ i.
              flat_map
                (λ c.
                  map (λ _. subscription h i c)
                    (env.sql.select (active_tenant i.tenant_id) w.tenants))
                (env.sql.select (signer tenant_id i) w.app_credentials))
            (env.sql.select (subscriber tenant_id h) w.app_installations))
        (env.sql.select (subscribed tenant_id event_name) w.app_webhooks)

  -- The subscriptions are all of one tenant, so that grouping them by tenant leaves them as they are.
  -- Returned is `delivered`.
  unfoldable pub publish_event_to_subscribers : (ℕ → String) → String → String → String → Exec env ℕ
  publish_event_to_subscribers show tenant_id event_name payload = do
    found ← gets (subscriptions tenant_id event_name)
    deliver_all show event_name payload found
    pure (length found)
