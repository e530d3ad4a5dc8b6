-- ===== src/Booking/Lifecycle/Replay.antt =====
-- A webhook that the provider sends again.
use playslot.Prelude.{
  ℕ, ◌≡◌, refl, sym, ◌∙◌, true, false, String, some, arith, Bool-cases, Option-cases, inl, inr,
}
use playslot.Prelude.Result.{ok}
use playslot.Domain.Time.{Instant}
use playslot.Domain.Status.{ReservationStatus, status_eq, occupies_inventory}
use playslot.Store.Tables.{Store, Reservation}
use playslot.Store.Action.{for_some}
use playslot.Store.Rows.{find_reservation}
use playslot.Store.Rows.Inv.{Inv, find-update_self, set_status-keeps}
use playslot.Booking.Slot.{Env}
use playslot.Booking.Lifecycle.{to_confirmed, confirm_paid_reservation, fail_payment}
use playslot.Booking.Lifecycle.Kept.{to_confirmed-KeepsPlace}

-- Once the reservation is missing, or is not PENDING_PAYMENT, nothing happens.
abbrev pub IsSettled : ℕ → Store → Type 0
IsSettled id s =
    (r : Reservation)
    → find_reservation id s.reservations ≡ some r
    → status_eq r.status ReservationStatus.pending_payment ≡ false

settled-confirm :
    (env : Env) (now : Instant) (id : ℕ) (ref : String) (s : Store)
    → IsSettled id s
    → confirm_paid_reservation env now id ref s ≡ (ok tt, s)
unfolding confirm_paid_reservation for_some
settled-confirm env now id ref s h = elim (Option-cases (find_reservation id s.reservations)) [
  | inl unknown ↦ rw unknown refl
  | inr (r, e) ↦ rw (e, h r e) refl
]

settled-fail : (id : ℕ) (s : Store) → IsSettled id s → fail_payment id s ≡ (ok tt, s)
unfolding fail_payment for_some
settled-fail id s h = elim (Option-cases (find_reservation id s.reservations)) [
  | inl unknown ↦ rw unknown refl
  | inr (r, e) ↦ rw (e, h r e) refl
]

waiting_occupies :
    (r : Reservation)
    → status_eq r.status ReservationStatus.pending_payment ≡ true
    → occupies_inventory r.status ≡ occupies_inventory ReservationStatus.confirmed
unfolding occupies_inventory
waiting_occupies r h = ground arith

pub confirm_paid-settles :
    (env : Env) (now : Instant) (id : ℕ) (ref : String) (s : Store)
    → Inv s
    → IsSettled id (confirm_paid_reservation env now id ref s).1
unfolding confirm_paid_reservation for_some
confirm_paid-settles env now id ref s v = elim (Option-cases (find_reservation id s.reservations)) [
  | inl unknown ↦ rw unknown (λ r e. absurd (cc))
  | inr (r, e) ↦ rw e (elim (Bool-cases (status_eq r.status ReservationStatus.pending_payment)) [
    | inr other ↦ rw other (λ x h. let same : x ≡ r = ground (arith, h, e) in rw same other)
    | inl waiting ↦
        rw
          (
            waiting,
            set_status-keeps id to_confirmed to_confirmed-KeepsPlace s r v e
                (waiting_occupies r waiting),
          )
          (λ x h.
            let same : some x ≡ some (to_confirmed r) =
              sym h ∙ find-update_self id to_confirmed (λ y. refl) s.reservations r e in
            let is : x ≡ to_confirmed r = ground arith in rw is refl)
  ])
]

-- In a store with the invariant, once a payment event for a reservation was handled, another one
-- for it, or a failure for it, returns and changes nothing: no status, no payment, no mail.
pub paid-replay :
    (env : Env) (now later : Instant) (id : ℕ) (ref ref' : String) (s : Store)
    → Inv s
    → let t = (confirm_paid_reservation env now id ref s).1 in
      (confirm_paid_reservation env later id ref' t ≡ (ok tt, t)) × (fail_payment id t ≡ (ok tt, t))
paid-replay env now later id ref ref' s v =
    let t = (confirm_paid_reservation env now id ref s).1 in
    let settled = confirm_paid-settles env now id ref s v in
    (settled-confirm env later id ref' t settled, settled-fail id t settled)
