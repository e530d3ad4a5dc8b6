-- ===== src/Booking/Lifecycle/Kept.antt =====
-- The calls that move a reservation on keep the invariant.

use playslot.Prelude.{ℕ, refl, Bool, String, Option, List}
use playslot.Prelude.Result.{ok, err}
use playslot.Domain.Time.{Instant}
use playslot.Store.Tables.{Store, Reservation, Role}
use playslot.Store.Rows.Inv.{KeepsPlace}
use playslot.Store.Rows.Keeps.{Holds, keeps_rules}
use playslot.Booking.Stable.{Stable, stable_rules, payments-Stable}
use playslot.Booking.Slot.{Env}
use playslot.Booking.Lifecycle.{
  to_confirmed, to_cancelled, to_no_show, confirm, mark_paid, mark_no_show, expire_hold,
  release_reservation, confirm_paid_reservation, fail_payment,
}
use playslot.Booking.Lifecycle.Webhook.{
  WebhookBody, missing, bad_signature, signed, paid, failed, ignored, handle_webhook,
}
use playslot.Booking.Cancel.{cancel, cancel_body, policy_refund, refunded_cents}
use playslot.Domain.Cancellation.{RefundResult, RefundError}
use playslot.Prelude.Result.{Result}
use playslot.Prelude.Int.{ℤ}

pub to_confirmed-KeepsPlace : KeepsPlace to_confirmed
to_confirmed-KeepsPlace = record { id = λ r. refl; starts_at = λ r. refl; ends_at = λ r. refl }

pub to_cancelled-KeepsPlace : (reason : String) → KeepsPlace (to_cancelled reason)
to_cancelled-KeepsPlace reason = record {
  id = λ r. refl;
  starts_at = λ r. refl;
  ends_at = λ r. refl;
}

pub to_no_show-KeepsPlace : KeepsPlace to_no_show
to_no_show-KeepsPlace = record { id = λ r. refl; starts_at = λ r. refl; ends_at = λ r. refl }

ruleset move_rules =
    (stable_rules, to_confirmed-KeepsPlace, to_cancelled-KeepsPlace, to_no_show-KeepsPlace)

refunded_cents-Keeps :
    {P : Store → Type 0} (r : Result RefundError RefundResult) → Holds P (refunded_cents r)
refunded_cents-Keeps (ok x) = record { keeps = λ s v. v }
refunded_cents-Keeps (err e) = record { keeps = λ s v. v }

module _ {P : Store → Type 0} (stable : Stable P) where
  pub confirm-Keeps : (env : Env) (club_id id staff : ℕ) → Holds P (confirm env club_id id staff)
  unfolding confirm
  confirm-Keeps env club_id id staff = search move_rules depth 24

  pub mark_paid-Keeps :
      (now : Instant) (club_id id staff : ℕ) → Holds P (mark_paid now club_id id staff)
  unfolding mark_paid
  mark_paid-Keeps now club_id id staff = search (move_rules, payments-Stable stable) depth 24

  pub mark_no_show-Keeps :
      (now : Instant) (club_id id staff : ℕ) → Holds P (mark_no_show now club_id id staff)
  unfolding mark_no_show
  mark_no_show-Keeps now club_id id staff = search move_rules depth 24

  pub expire_hold-Keeps : (now : Instant) (id : ℕ) → Holds P (expire_hold now id)
  unfolding expire_hold
  expire_hold-Keeps now id = search move_rules depth 24

  pub release-Keeps : (id : ℕ) (reason : String) → Holds P (release_reservation id reason)
  unfolding release_reservation
  release-Keeps id reason = search move_rules depth 24

  pub confirm_paid-Keeps :
      (env : Env) (now : Instant) (id : ℕ) (ref : String)
      → Holds P (confirm_paid_reservation env now id ref)
  unfolding confirm_paid_reservation
  confirm_paid-Keeps env now id ref = search (move_rules, payments-Stable stable) depth 24

  pub fail_payment-Keeps : (id : ℕ) → Holds P (fail_payment id)
  unfolding fail_payment
  fail_payment-Keeps id = search (move_rules, payments-Stable stable) depth 24

  pub webhook-Keeps :
      (env : Env) (now : Instant) (body : WebhookBody) → Holds P (handle_webhook env now body)
  unfolding handle_webhook
  webhook-Keeps env now missing = search keeps_rules
  webhook-Keeps env now bad_signature = search keeps_rules
  webhook-Keeps env now (signed (paid id ref)) = confirm_paid-Keeps env now id ref
  webhook-Keeps env now (signed (failed id)) = fail_payment-Keeps id
  webhook-Keeps env now (signed ignored) = search keeps_rules

  policy_refund-Keeps : (now : Instant) (r : Reservation) → Holds P (policy_refund now r)
  unfolding policy_refund
  policy_refund-Keeps now r = search (move_rules, refunded_cents-Keeps)

  cancel_body-Keeps :
      (now : Instant) (id user_id : ℕ) (reason : String) (cents : ℤ) (refunding : Bool)
      → Holds P (cancel_body now id user_id reason cents refunding)
  unfolding cancel_body
  cancel_body-Keeps now id user_id reason cents refunding =
      search (move_rules, payments-Stable stable) depth 24

  pub cancel-Keeps :
      (now : Instant) (id user_id : ℕ) (roles : List Role) (reason : Option String)
      → Holds P (cancel now id user_id roles reason)
  unfolding cancel
  cancel-Keeps now id user_id roles reason =
      search (move_rules, policy_refund-Keeps, cancel_body-Keeps) depth 24
