-- ===== src/Booking/Lifecycle/Freed.antt =====
-- What is cancelled gives its time back: the rows of the reservation are inactive, and its slot can
-- be booked.
use playslot.Prelude.{
  ℕ, ◌≡◌, refl, ◌∙◌, true, false, not, String, some, List, [], ◌∷◌, map, any, filter, arith, ◌==◌,
}
use playslot.Prelude.Result.{ok}
use playslot.Domain.Time.{Instant, Interval}
use playslot.Domain.Status.{ReservationStatus, occupies_inventory}
use playslot.Store.Tables.{Store, Reservation, ResourceRow, Effect}
use playslot.Store.Action.{for_some, emit}
use playslot.Store.Rows.{sync_row, update_reservation, find_reservation, set_status, conflicts}
use playslot.Store.Rows.Inv.{Inv, set_status-releases}
use playslot.Booking.Transaction.{BookingArgs, period_of, run_booking_transaction, finish, held}
use playslot.Booking.Transaction.Outcome.{IsDistinct, booked, run_booking_transaction_lem}
use playslot.Booking.Lifecycle.{to_cancelled, may_expire, expire_hold}
use playslot.Booking.Lifecycle.Kept.{to_cancelled-KeepsPlace, expire_hold-Keeps}
use playslot.Booking.Stable.{Inv-Stable}

cancelled_free : occupies_inventory ReservationStatus.cancelled ≡ false
unfolding occupies_inventory
cancelled_free = refl

-- The store after a cancellation.
abbrev pub freed : ℕ → String → Store → Store
freed id reason s = record s {
  reservations = update_reservation id (to_cancelled reason) s.reservations;
  rows = map (sync_row id ReservationStatus.cancelled) s.rows;
}

-- From a status that occupies inventory the change to CANCELLED never fails.
pub set_status-freed :
    (id : ℕ) (reason : String) (s : Store) (r : Reservation)
    → Inv s
    → find_reservation id s.reservations ≡ some r
    → occupies_inventory r.status ≡ true
    → set_status id (to_cancelled reason) s ≡ (ok tt, freed id reason s)
set_status-freed id reason s r v e on =
    set_status-releases id (to_cancelled reason) (to_cancelled-KeepsPlace reason) s r v e on
      cancelled_free

-- The rows of the other reservations.
abbrev pub others : ℕ → List ResourceRow → List ResourceRow
others id rows = filter (λ (r : ResourceRow). not (r.reservation_id == id)) rows

conflicts-freed :
    (id : ℕ) (ids : List ℕ) (period : Interval) (rows : List ResourceRow)
    → conflicts ids period (map (sync_row id ReservationStatus.cancelled) rows)
      ≡ conflicts ids period (others id rows)
unfolding conflicts sync_row any filter occupies_inventory
conflicts-freed id ids period [] = refl
conflicts-freed id ids period (r ∷ rows) = ground (arith, conflicts-freed id ids period rows)

expirable_occupies :
    (now : Instant) (r : Reservation) → may_expire now r ≡ true → occupies_inventory r.status ≡ true
unfolding occupies_inventory
expirable_occupies now r h = ground arith

expire_hold-freed :
    (now : Instant) (id : ℕ) (s : Store) (r : Reservation)
    → Inv s
    → find_reservation id s.reservations ≡ some r
    → may_expire now r ≡ true
    → expire_hold now id s
      ≡ (emit (Effect.availability_changed r.club_id)) (freed id "hold_expired" s)
unfolding expire_hold for_some
expire_hold-freed now id s r v e due =
    rw (e, due, set_status-freed id "hold_expired" s r v e (expirable_occupies now r due)) refl

-- In a store with the invariant, once the hold of an unpaid reservation has run out and `expireHold`
-- has run for it, a booking of distinct resources succeeds for every slot that no active row of
-- another reservation overlaps, the slot of the expired reservation included.
pub expire_hold-books :
    (now : Instant) (id : ℕ) (args : BookingArgs) (s : Store) (r : Reservation)
    → Inv s
    → find_reservation id s.reservations ≡ some r
    → may_expire now r ≡ true
    → IsDistinct args.slot.resource_ids
    → conflicts args.slot.resource_ids (period_of args.slot) (others id s.rows) ≡ false
    → let t = (expire_hold now id s).1 in
      run_booking_transaction args t ≡ (ok (finish args (held args s.next_id)), booked args t)
expire_hold-books now id args s r v e due apart clear =
    let kept : Inv (expire_hold now id s).1 = (expire_hold-Keeps Inv-Stable now id).keeps s v in
    let after : expire_hold now id s
        ≡ emit (Effect.availability_changed r.club_id) (freed id "hold_expired" s) =
      expire_hold-freed now id s r v e due in
    let clear' = conflicts-freed id args.slot.resource_ids (period_of args.slot) s.rows ∙ clear in
    let books = run_booking_transaction_lem args (expire_hold now id s).1 kept apart in
    rw after (rw (after, clear') at books)
