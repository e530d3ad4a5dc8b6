-- ===== src/Booking/Create.antt =====
-- reservations.service.ts, the calls that make a reservation: `createReservation` here, those of the
-- staff and of coaches in Manual and Blocks.
pub mod Blocks
pub mod Kept
pub mod Manual
pub mod Stored
use playslot.Prelude.{
  ℕ, ◌+◌, ◌*◌, Bool, true, false, not, ◌&&◌, String, Option, none, some, List, [], ◌∷◌, ◌++◌, map,
  any, find, ◌==◌, if◌then◌else◌,
}
use playslot.Prelude.Int.{ℤ, pos}
use playslot.Prelude.Text.{codes_eq, lower}
use playslot.Prelude.Result.{ok, err}
use playslot.Domain.Time.{Instant}
use playslot.Domain.Status.{ReservationStatus, status_eq, requires_online_payment}
use playslot.Memberships.{discount_percent, apply_discount}
use playslot.Standing.{assert_in_good_standing}
use playslot.Payments.{Provider, create_checkout}
use playslot.Store.Tables.{
  Store, Email, Role, User, Reservation, ReservationType, ReservationSource, Effect,
}
use playslot.Store.Action.{
  Action, app_exception, unique_violation, policy_violation, validation_failed, not_found, ◌>>=◌,
  ◌>>◌, pure, gets, throw, type_error, throw_if, or_throw, emit, for_some,
}
use playslot.Booking.Slot.{
  Env, SlotRequest, ResolvedSlot, resolve_slot, price_for, load_price_rules, resolve_coach_resource,
  lesson_price,
}
use playslot.Booking.Notices.{send, booking_received_mails, confirmation_mails}
use playslot.Booking.Transaction.{BookingArgs, FinalStatus, run_booking_transaction}

pub record Actor : Type 0 where
  pub user_id : ℕ
  pub email_verified : Bool

pub record CreateReservationInput : Type 0 where
  pub club_id : ℕ
  pub type : ReservationType
  pub starts_at : Option Instant
  pub duration_min : ℕ
  pub payment_method : String
  pub resource_ids : List ℕ
  pub coach_profile_id : Option ℕ
  pub service_id : Option ℕ
  -- what Turnstile answers for the token
  pub turnstile_verified : Bool

pub data NextAction : Type 0 where
  pay : String → NextAction
  confirmed : NextAction

pub record CreateReservationResponse : Type 0 where
  pub reservation_id : ℕ
  pub status : ReservationStatus
  pub hold_expires_at : Option Instant
  pub price_cents : ℤ
  pub currency : String
  pub next : NextAction

abbrev is_web : ReservationSource → Bool
is_web ReservationSource.web = true
is_web s = false

-- The type, the slot with the coach, and the price, for a lesson and for a court.
abbrev pub Priced : Type 0
Priced = ReservationType × ResolvedSlot × ℤ

unfoldable pub price_booking :
    Env → ReservationType → Option ℕ → Option ℕ → ResolvedSlot → Action Priced
price_booking env type none service_id slot = do
  rules ← gets (load_price_rules slot.club_id)
  price_cents ← price_for env rules slot
  pure (type, slot, price_cents)
price_booking env type (some coach_profile_id) service_id slot = do
  coach_resource_id ← resolve_coach_resource coach_profile_id slot
  let full = record slot { resource_ids = slot.resource_ids ++ coach_resource_id ∷ [] }
  price_cents ← lesson_price env coach_profile_id service_id full
  pure (ReservationType.lesson, full, price_cents)

-- `online ? 'PENDING_PAYMENT' : needsApproval ? 'PENDING_APPROVAL' : 'CONFIRMED'`
abbrev pub final_status_for : Bool → Bool → FinalStatus
final_status_for online needs_approval =
    if online
    then FinalStatus.pending_payment
    else if needs_approval
    then FinalStatus.pending_approval
    else FinalStatus.confirmed

abbrev request_of : CreateReservationInput → SlotRequest
request_of input = record {
  club_id = input.club_id;
  starts_at = input.starts_at;
  duration_min = input.duration_min;
  resource_ids = input.resource_ids;
  enforce_hours = true;
  allow_midnight_cross = false;
}

-- `createReservation` up to the transaction: the guards, the slot and the price.
unfoldable pub prepare_reservation :
    Env → Instant → CreateReservationInput → Actor → ReservationSource → Action BookingArgs
prepare_reservation env now input actor source = do
  throw_if (is_web source && not actor.email_verified)
      (app_exception policy_violation "email_not_verified")
  if is_web source then assert_in_good_standing actor.user_id else pure tt
  throw_if (is_web source && not input.turnstile_verified)
      (app_exception validation_failed "turnstile")
  slot ← resolve_slot env now (request_of input)
  (type, full, base_cents) ←
      price_booking env input.type input.coach_profile_id input.service_id slot
  discount ← gets (discount_percent slot.club_id (some actor.user_id) now)
  let online = requires_online_payment input.payment_method
  pure (record {
    slot = full;
    user_id = actor.user_id;
    actor_user_id = actor.user_id;
    type = type;
    source = source;
    price_cents = apply_discount base_cents discount;
    payment_method = input.payment_method;
    participant_name = none;
    hold_expires_at = some (now + env.hold_ttl_min * 60_000);
    final_status = final_status_for online (not online && slot.requires_booking_approval);
  })

-- What follows the live update: the checkout or the mails.
unfoldable pub next_action :
    Env → Provider → BookingArgs → Reservation → FinalStatus → Action NextAction
next_action env provider args r FinalStatus.pending_payment = do
  for_some args.hold_expires_at (λ t. emit (Effect.schedule_expiry r.id t))
  url ← create_checkout provider r.id args.price_cents args.slot.currency
  pure (NextAction.pay url)
next_action env provider args r FinalStatus.pending_approval = do
  send (booking_received_mails env r.id)
  pure NextAction.confirmed
next_action env provider args r FinalStatus.confirmed = do
  send (confirmation_mails env r.id)
  pure NextAction.confirmed

unfoldable pub create_reservation :
    Env
    → Provider
    → Instant
    → CreateReservationInput
    → Actor
    → ReservationSource
    → Action CreateReservationResponse
create_reservation env provider now input actor source = do
  args ← prepare_reservation env now input actor source
  r ← run_booking_transaction args
  emit (Effect.availability_changed args.slot.club_id)
  next ← next_action env provider args r args.final_status
  pure (record {
    reservation_id = r.id;
    status = r.status;
    hold_expires_at = r.hold_expires_at;
    price_cents = args.price_cents;
    currency = args.slot.currency;
    next = next;
  })
