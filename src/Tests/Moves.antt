-- ===== src/Tests/Moves.antt =====
-- The theorems on what moves a reservation on, at concrete stores.
use mathlib.Core.List.{mem-cons_self}
use playslot.Prelude.{
  ◌≡◌, ◌↔◌, inl, Bool, if◌then◌else◌, refl, true, none, some, [], ◌∷◌, map, find, all, any, filter,
  arith,
}
use playslot.Prelude.Int.{pos, round_div, ◌*ℤ◌}
use playslot.Prelude.Result.{ok, err}
use playslot.Prelude.Sort.{sort, insert}
use playslot.Domain.Status.{ReservationStatus, occupies_inventory}
use playslot.Domain.Cancellation.{
  RefundResult, compute_refund, hours_until, winning_tier, percent_of_tier, clamp_percent,
}
use playslot.Store.Tables.{Store, ReservationType, PaymentStatus, CancellationPolicy}
use playslot.Store.Action.{app_exception, forbidden}
use playslot.Store.Rows.{conflicts, exclusive, find_reservation, sync_row, update_reservation}
use playslot.Store.Rows.Inv.{Inv}
use playslot.Booking.Transaction.{BookingArgs, run_booking_transaction, finish, held}
use playslot.Booking.Transaction.Outcome.{booked}
use playslot.Booking.Lifecycle.{confirm, mark_no_show, expire_hold, to_cancelled, update_payments}
use playslot.Booking.Lifecycle.Webhook.{handle_webhook, signed, paid}
use playslot.Booking.Lifecycle.Moves.{Follows}
use playslot.Booking.Lifecycle.Freed.{expire_hold-books}
use playslot.Booking.Cancel.{cancel, is_club_staff, to_refunded}
use playslot.Booking.Cancel.Moves.{moves-Follows}
use playslot.Booking.Cancel.Outcome.{IsPaidOut, cancel-refusal, cancel-cancels}
use playslot.Tests.Fixtures.{env, with_status, args, slot, at, reservation}

abbrev booked_store : Store
booked_store = with_status ReservationStatus.confirmed

moves-Follows_example :
    Follows booked_store.reservations (confirm env 1 5 3 booked_store).1.reservations
    × Follows booked_store.reservations (mark_no_show (at 12) 1 5 3 booked_store).1.reservations
    × Follows booked_store.reservations (expire_hold (at 12) 5 booked_store).1.reservations
    × Follows booked_store.reservations (cancel (at 12) 5 3 [] none booked_store).1.reservations
    × Follows booked_store.reservations
        (handle_webhook env (at 12) (signed (paid 5 "ref")) booked_store).1.reservations
moves-Follows_example = moves-Follows env (at 12) 1 5 3 [] none (signed (paid 5 "ref")) booked_store

abbrev holding : Store
holding = with_status ReservationStatus.hold

holding-Inv : Inv holding
unfolding exclusive all find_reservation find occupies_inventory
holding-Inv = record {
  no_overlap = refl;
  synced = ((_, refl, refl, refl), tt);
  fresh = (omega arith, tt);
}

-- The slot of the reservation that holds it.
abbrev again : BookingArgs
again = record args { slot = record slot { start = at 9; end = at 10 } }

expire_hold-books_example :
    run_booking_transaction again (expire_hold (at 9) 5 holding).1
    ≡ (ok (finish again (held again 10)), booked again (expire_hold (at 9) 5 holding).1)
unfolding find_reservation find conflicts any filter
expire_hold-books_example =
    expire_hold-books (at 9) 5 again holding (reservation ReservationStatus.hold) holding-Inv refl
      refl (refl, tt) refl

abbrev half_refund : CancellationPolicy
half_refund = record {
  club_id = 1;
  applies_to = ReservationType.court;
  tiers = record { min_hours_before = pos 0; refund_percent = pos 50 } ∷ [];
}

-- A paid booking of a club that refunds half.
abbrev paid_booking : Store
paid_booking = record booked_store {
  policies = half_refund ∷ [];
  payments =
      record {
        reservation_id = 5;
        provider = "test";
        provider_ref = some "ref";
        amount_cents = pos 2_000;
        currency = "EUR";
        status = PaymentStatus.captured;
        captured_at = some (at 1);
        refunded_at = none;
      }
      ∷ [];
}

paid_booking-Inv : Inv paid_booking
unfolding exclusive all find_reservation find occupies_inventory
paid_booking-Inv = record {
  no_overlap = refl;
  synced = ((_, refl, refl, refl), tt);
  fresh = (omega arith, tt);
}

abbrev half : RefundResult
half = record { refund_percent = pos 50; refund_cents = pos 1_000 }

half_back : compute_refund half_refund.tiers (hours_until (at 9) (at 2)) (pos 2_000) ≡ ok half
unfolding compute_refund hours_until winning_tier percent_of_tier clamp_percent sort insert find
    round_div ◌*ℤ◌
half_back = refl

cancel-cancels_example :
    (paid_out : Bool) × ((paid_out ≡ true) ↔ IsPaidOut 5 (pos 1_000) paid_booking)
    × (let t = cancel (at 2) 5 3 [] none paid_booking in
        (t.0 ≡ ok (ReservationStatus.cancelled, pos 1_000, paid_out))
        × (t.1.reservations
            ≡ update_reservation 5 (to_cancelled "user_cancelled") paid_booking.reservations)
        × (t.1.rows ≡ map (sync_row 5 ReservationStatus.cancelled) paid_booking.rows)
        × (t.1.payments ≡ (
            if paid_out
            then update_payments 5 (to_refunded (at 2) (pos 1_000)) paid_booking.payments
            else paid_booking.payments)))
unfolding find_reservation find
cancel-cancels_example =
    cancel-cancels (at 2) 5 3 [] none paid_booking (reservation ReservationStatus.confirmed)
      half_refund half paid_booking-Inv refl refl (inl refl) refl mem-cons_self (refl, refl)
      (λ _. refl, tt) half_back

cancel-refusal_example :
    cancel (at 2) 5 4 [] none paid_booking ≡ (err (app_exception forbidden ""), paid_booking)
unfolding find_reservation find is_club_staff any
cancel-refusal_example =
    cancel-refusal (at 2) 5 4 [] none paid_booking (app_exception forbidden "") refl
