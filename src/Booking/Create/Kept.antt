-- ===== src/Booking/Create/Kept.antt =====
-- The calls that make a reservation keep the invariant.

use playslot.Prelude.{
  ℕ, refl, Bool, String, Option, none, some, List, [], ◌∷◌, map, any, find, arith, Option-cases,
  Bool-cases, inl, inr,
}
use playslot.Prelude.Text.{codes_eq, lower}
use playslot.Prelude.Result.{Result, ok, err}
use playslot.Prelude.Int.{ℤ}
use playslot.Domain.Time.{Instant, Interval}
use playslot.Domain.Pricing.{PriceRuleLike, PricingError, ResolvedPrice}
use playslot.Payments.{Provider, create_checkout}
use playslot.Standing.{assert_in_good_standing}
use playslot.Store.Tables.{
  Store, Email, User, Reservation, ReservationType, ReservationSource, Resource,
}
use playslot.Store.Rows.Keeps.{Keeps, Holds, keeps_rules, >>=-Keeps}
use playslot.Booking.Stable.{Stable, Inv-Stable, stable_rules, payments-Stable}
use playslot.Booking.Slot.{
  Env, SlotRequest, ResolvedSlot, check_resource, check_resources, resolve_slot, priced, price_for,
  resolve_coach_resource, lesson_price,
}
use playslot.Booking.Transaction.{BookingArgs, FinalStatus}
use playslot.Booking.Create.{
  CreateReservationInput, Actor, price_booking, prepare_reservation, next_action,
  create_reservation,
}
use playslot.Booking.Create.Manual.{
  Customer, ManualBookingInput, create_user, by_email, new_customer, resolve_customer,
  create_manual,
}
use playslot.Booking.Create.Blocks.{
  BlockInput, CoachBlocking, create_block, create_coach_blocking_reservation,
}

module _ {P : Store → Type 0} (enforce : Bool) (weekday start_min end_min duration : ℕ)
    (period : Interval) where
  check_resource-Keeps :
      (r : Resource) → Holds P (check_resource enforce weekday start_min end_min duration period r)
  unfolding check_resource
  check_resource-Keeps r = search keeps_rules depth 24

  check_resources-Keeps :
      (rs : List Resource)
      → Holds P (check_resources enforce weekday start_min end_min duration period rs)
  unfolding check_resources
  check_resources-Keeps [] = search keeps_rules
  check_resources-Keeps (r ∷ rs) =
      >>=-Keeps (check_resource enforce weekday start_min end_min duration period r)
        (λ _. check_resources enforce weekday start_min end_min duration period rs)
        (check_resource-Keeps r) (λ _. check_resources-Keeps rs)

pub resolve_slot-Keeps :
    {P : Store → Type 0} (env : Env) (now : Instant) (opts : SlotRequest)
    → Holds P (resolve_slot env now opts)
unfolding resolve_slot
resolve_slot-Keeps env now opts = search (keeps_rules, check_resources-Keeps) depth 40

priced-Keeps : {P : Store → Type 0} (r : Result PricingError ResolvedPrice) → Holds P (priced r)
priced-Keeps (ok p) = record { keeps = λ s v. v }
priced-Keeps (err e) = record { keeps = λ s v. v }

pub price_for-Keeps :
    {P : Store → Type 0} (env : Env) (rules : List PriceRuleLike) (slot : ResolvedSlot)
    → Holds P (price_for env rules slot)
unfolding price_for
price_for-Keeps env rules slot = search priced-Keeps

module _ {P : Store → Type 0} where
  coach_resource-Keeps :
      (coach_profile_id : ℕ) (slot : ResolvedSlot)
      → Holds P (resolve_coach_resource coach_profile_id slot)
  unfolding resolve_coach_resource
  coach_resource-Keeps coach_profile_id slot = search keeps_rules depth 24

  lesson_price-Keeps :
      (env : Env) (coach_profile_id : ℕ) (service_id : Option ℕ) (slot : ResolvedSlot)
      → Holds P (lesson_price env coach_profile_id service_id slot)
  unfolding lesson_price
  lesson_price-Keeps env coach_profile_id none slot = search (keeps_rules, price_for-Keeps) depth 24
  lesson_price-Keeps env coach_profile_id (some service_id) slot = search keeps_rules depth 24

  price_booking-Keeps :
      (env : Env) (type : ReservationType) (coach service_id : Option ℕ) (slot : ResolvedSlot)
      → Holds P (price_booking env type coach service_id slot)
  unfolding price_booking
  price_booking-Keeps env type none service_id slot = search (keeps_rules, price_for-Keeps) depth 24
  price_booking-Keeps env type (some coach) service_id slot =
      search (keeps_rules, coach_resource-Keeps, lesson_price-Keeps) depth 24

  pub standing-Keeps : (user_id : ℕ) → Holds P (assert_in_good_standing user_id)
  unfolding assert_in_good_standing
  standing-Keeps user_id = search keeps_rules depth 24

  prepare-Keeps :
      (env : Env) (now : Instant) (input : CreateReservationInput) (actor : Actor)
      (source : ReservationSource)
      → Holds P (prepare_reservation env now input actor source)
  unfolding prepare_reservation
  prepare-Keeps env now input actor source =
      search (keeps_rules, standing-Keeps, resolve_slot-Keeps, price_booking-Keeps) depth 40

module _ {P : Store → Type 0} (stable : Stable P) where
  create_checkout-Keeps :
      (provider : Provider) (id : ℕ) (cents : ℤ) (currency : String)
      → Holds P (create_checkout provider id cents currency)
  unfolding create_checkout
  create_checkout-Keeps provider id cents currency =
      search (stable_rules, payments-Stable stable) depth 24

  next_action-Keeps :
      (env : Env) (provider : Provider) (args : BookingArgs) (r : Reservation)
      (status : FinalStatus)
      → Holds P (next_action env provider args r status)
  unfolding next_action
  next_action-Keeps env provider args r FinalStatus.pending_payment =
      search (stable_rules, create_checkout-Keeps) depth 24
  next_action-Keeps env provider args r FinalStatus.pending_approval =
      search (stable_rules) depth 24
  next_action-Keeps env provider args r FinalStatus.confirmed = search (stable_rules) depth 24

  pub create_reservation-Keeps :
      (env : Env) (provider : Provider) (now : Instant) (input : CreateReservationInput)
      (actor : Actor) (source : ReservationSource)
      → Holds P (create_reservation env provider now input actor source)
  unfolding create_reservation
  create_reservation-Keeps env provider now input actor source =
      search (stable_rules, prepare-Keeps, next_action-Keeps) depth 24

  create_user-Keeps : (email : Email) (name : String) → Holds P (create_user email name)
  unfolding create_user
  create_user-Keeps email name = record {
    keeps = λ s v. elim (Bool-cases (any (λ (u : User). codes_eq u.email email) s.users)) [
      | inl taken ↦ rw taken v
      | inr free ↦ rw free (
          stable.same s _
            (record {
              rows = refl;
              reservations = refl;
              group_sessions = refl;
              registrations = refl;
              later = omega arith;
            })
            v)
    ];
  }

  by_email-Keeps :
      (name : String) (email : Option Email) (placeholder : Email)
      → Holds P (by_email name email placeholder)
  unfolding by_email
  by_email-Keeps name none placeholder = create_user-Keeps placeholder name
  by_email-Keeps name (some email) placeholder = record {
    keeps = λ s v.
        elim (Option-cases (find (λ (u : User). codes_eq u.email (map lower email)) s.users)) [
          | inl missing ↦
              rw (missing, by_email) ((create_user-Keeps (map lower email) name).keeps s v)
          | inr (u, e) ↦ rw (e, by_email) v
        ];
  }

  resolve_customer-Keeps :
      (id : Option ℕ) (customer : Option Customer) (placeholder : Email)
      → Holds P (resolve_customer id customer placeholder)
  unfolding resolve_customer new_customer
  resolve_customer-Keeps (some id) customer placeholder = search keeps_rules depth 24
  resolve_customer-Keeps none none placeholder = search keeps_rules
  resolve_customer-Keeps none (some c) placeholder = by_email-Keeps c.name c.email placeholder

  pub create_manual-Keeps :
      (env : Env) (now : Instant) (club_id : ℕ) (input : ManualBookingInput) (staff : ℕ)
      → Holds P (create_manual env now club_id input staff)
  unfolding create_manual
  create_manual-Keeps env now club_id input staff =
      search (stable_rules, resolve_slot-Keeps, resolve_customer-Keeps, price_booking-Keeps) depth
        40

  pub create_block-Keeps :
      (env : Env) (now : Instant) (club_id : ℕ) (input : BlockInput) (staff : ℕ)
      → Holds P (create_block env now club_id input staff)
  unfolding create_block
  create_block-Keeps env now club_id input staff =
      search (stable_rules, resolve_slot-Keeps) depth 24

  pub coach_blocking-Keeps :
      (env : Env) (now : Instant) (args : CoachBlocking)
      → Holds P (create_coach_blocking_reservation env now args)
  unfolding create_coach_blocking_reservation
  coach_blocking-Keeps env now args =
      search (stable_rules, resolve_slot-Keeps, coach_resource-Keeps) depth 24

-- Whatever is asked, `createReservation` leaves the invariant as it was, also when it throws.
pub create_reservation-Inv :
    (env : Env) (provider : Provider) (now : Instant) (input : CreateReservationInput)
    (actor : Actor) (source : ReservationSource)
    → Keeps (create_reservation env provider now input actor source)
create_reservation-Inv env provider now input actor source =
    create_reservation-Keeps Inv-Stable env provider now input actor source
