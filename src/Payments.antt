-- ===== src/Payments.antt =====
-- apps/api/src/payments/payments.service.ts: the checkout of a reservation. The payment provider is
-- the parameter `Provider`.
use playslot.Prelude.{ℕ, String, Option, none, some, List, ◌∷◌, any, map, ◌==◌, if◌then◌else◌}
use playslot.Prelude.Int.{ℤ}
use playslot.Store.Tables.{Payment, PaymentStatus}
use playslot.Store.Action.{Action, provider_error, ◌>>=◌, ◌>>◌, pure, or_throw, modify}

-- What the provider answers: the name of the provider, and for a reservation and an amount the
-- reference and the address of a hosted checkout, or none where the call fails.
pub record Provider : Type 0 where
  pub name : String
  pub create_checkout : ℕ → ℤ → Option (String × String)

-- `payment.upsert`: a change of the payment of the reservation, or a new one.
unfoldable pub upsert_payment : ℕ → (Payment → Payment) → Payment → List Payment → List Payment
upsert_payment reservation_id change new payments =
    if any (λ (p : Payment). p.reservation_id == reservation_id) payments
    then map (λ (p : Payment). if p.reservation_id == reservation_id then change p else p) payments
    else new ∷ payments

unfoldable pub create_checkout : Provider → ℕ → ℤ → String → Action String
create_checkout provider reservation_id amount_cents currency = do
  result ← or_throw (provider.create_checkout reservation_id amount_cents) provider_error
  modify λ s. record s {
    payments =
        upsert_payment reservation_id
          (λ p. record p {
            provider = provider.name;
            provider_ref = some result.0;
            status = PaymentStatus.pending;
          })
          (record {
            reservation_id = reservation_id;
            provider = provider.name;
            provider_ref = some result.0;
            amount_cents = amount_cents;
            currency = currency;
            status = PaymentStatus.pending;
            captured_at = none;
            refunded_at = none;
          })
          s.payments;
  }
  pure result.1
