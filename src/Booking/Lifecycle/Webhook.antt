-- ===== src/Booking/Lifecycle/Webhook.antt =====
-- apps/api/src/payments/payments.service.ts, `handleWebhook`. Checking the signature and reading the
-- body are the provider's: what it answers is an argument.
use playslot.Prelude.{ℕ, String}
use playslot.Domain.Time.{Instant}
use playslot.Store.Action.{Action, app_exception, validation_failed, unauthenticated, pure, throw}
use playslot.Booking.Slot.{Env}
use playslot.Booking.Lifecycle.{confirm_paid_reservation, fail_payment}

pub data WebhookEvent : Type 0 where
  paid : ℕ → String → WebhookEvent
  failed : ℕ → WebhookEvent
  ignored : WebhookEvent

-- What the provider reads in a request: no body, a signature that is wrong, or an event.
pub data WebhookBody : Type 0 where
  missing : WebhookBody
  bad_signature : WebhookBody
  signed : WebhookEvent → WebhookBody

unfoldable pub handle_webhook : Env → Instant → WebhookBody → Action (Unit {0})
handle_webhook env now WebhookBody.missing = throw (app_exception validation_failed "missing_body")
handle_webhook env now WebhookBody.bad_signature = throw (app_exception unauthenticated "")
handle_webhook env now (WebhookBody.signed (WebhookEvent.paid id payment_ref)) =
    confirm_paid_reservation env now id payment_ref
handle_webhook env now (WebhookBody.signed (WebhookEvent.failed id)) = fail_payment id
handle_webhook env now (WebhookBody.signed WebhookEvent.ignored) = pure tt
