-- ===== src/Booking/Cancel/Moves.antt =====
-- `cancel`, and with it every call that moves a reservation on, follows the table of reservation.ts.
use playslot.Prelude.{
  ℕ, ◌≡◌, refl, Bool, true, not, ◌&&◌, String, Option, some, List, Bool-cases, Option-cases, inl,
  inr, arith, ◌==◌, if◌then◌else◌,
}
use playslot.Prelude.Int.{ℤ, pos}
use playslot.Prelude.Result.{Result, ok, err}
use playslot.Domain.Time.{Instant}
use playslot.Domain.Status.{ReservationStatus, can_transition, includes}
use playslot.Domain.Cancellation.{RefundResult, RefundError}
use playslot.Store.Tables.{Store, Role, Reservation, Payment, Effect}
use playslot.Store.Action.{Action, Thrown, refund_error, after, transaction, emit, pure, ◌>>◌}
use playslot.Store.Rows.{find_reservation}
use playslot.Store.Rows.Keeps.{>>=-Then, commit-Inv}
use playslot.Booking.Slot.{Env}
use playslot.Booking.Notices.{send, cancellation_mails}
use playslot.Booking.Lifecycle.{to_cancelled, confirm, mark_no_show, expire_hold}
use playslot.Booking.Lifecycle.Webhook.{WebhookBody, handle_webhook}
use playslot.Booking.Lifecycle.Moves.{
  Follows, Follows-refl, quiet_rules, then_quiet, confirm-Follows, mark_no_show-Follows,
  expire_hold-Follows, webhook-Follows,
}
use playslot.Booking.Cancel.{
  is_club_staff, open_statuses, policy_refund, refunded_cents, payment_of, will_refund, or_default,
  same_type, ask_refund, ref_of, cancel_body, cancel,
}

from_open :
    (r : Reservation)
    → includes open_statuses r.status ≡ true
    → can_transition r.status ReservationStatus.cancelled ≡ true
unfolding can_transition
from_open r h = ground arith

refunded_same :
    (r : Result RefundError RefundResult) (s : Store)
    → (x : Result Thrown ℤ) × (refunded_cents r s ≡ (x, s))
refunded_same (ok x) s = (ok x.refund_cents, refl)
refunded_same (err e) s = (err refund_error, refl)

refund_same :
    (now : Instant) (r : Reservation) (s : Store)
    → (x : Result Thrown ℤ) × (policy_refund now r s ≡ (x, s))
unfolding policy_refund
refund_same now r s = elim (Bool-cases (same_type r.type r.type)) [
  | inl has_policy ↦ rw has_policy (refunded_same _ s)
  | inr no_policy ↦ rw no_policy (ok (pos 0), refl)
]

body-Follows :
    (now : Instant) (id user_id : ℕ) (reason : String) (cents : ℤ) (refunding : Bool) (s : Store)
    (r : Reservation)
    → find_reservation id s.reservations ≡ some r
    → includes open_statuses r.status ≡ true
    → Follows s.reservations
        (transaction (cancel_body now id user_id reason cents refunding) s).1.reservations
unfolding cancel_body
body-Follows now id user_id reason cents refunding s r e is_open =
    commit-Inv (λ t. Follows s.reservations t.reservations) s _ (Follows-refl s.reservations)
      (then_quiet id (to_cancelled reason) (λ x. refl) _ s r e (from_open r is_open)
        (search quiet_rules depth 24))

-- What `cancel` does once the refund is worked out.
abbrev from_refund :
    Instant
    → ℕ
    → ℕ
    → String
    → Reservation
    → Option Payment
    → ℤ
    → Action (ReservationStatus × ℤ × Bool)
from_refund now id user_id reason r payment cents = do
  transaction (cancel_body now id user_id reason cents (will_refund cents payment))
  if will_refund cents payment then ask_refund cents (ref_of payment) else pure tt
  emit (Effect.availability_changed r.club_id)
  send (cancellation_mails id)
  pure (ReservationStatus.cancelled, cents, will_refund cents payment)

from_refund-Follows :
    (now : Instant) (id user_id : ℕ) (reason : String) (r : Reservation) (payment : Option Payment)
    (s : Store)
    → find_reservation id s.reservations ≡ some r
    → includes open_statuses r.status ≡ true
    → (x : Result Thrown ℤ)
    → Follows s.reservations
        (after (from_refund now id user_id reason r payment) (x, s)).1.reservations
from_refund-Follows now id user_id reason r payment s e is_open (err x) =
    Follows-refl s.reservations
from_refund-Follows now id user_id reason r payment s e is_open (ok cents) =
    >>=-Then {P = λ t. Follows s.reservations t.reservations}
      (transaction (cancel_body now id user_id reason cents (will_refund cents payment)))
      (λ _.
        (if will_refund cents payment then ask_refund cents (ref_of payment) else pure tt)
        >> (emit (Effect.availability_changed r.club_id)
            >> (send (cancellation_mails id)
                >> pure (ReservationStatus.cancelled, cents, will_refund cents payment))))
      s (body-Follows now id user_id reason cents (will_refund cents payment) s r e is_open)
      (λ _. search quiet_rules depth 24)

cancel-Follows :
    (now : Instant) (id user_id : ℕ) (roles : List Role) (reason : Option String) (s : Store)
    → Follows s.reservations (cancel now id user_id roles reason s).1.reservations
unfolding cancel
cancel-Follows now id user_id roles reason s =
    elim (Option-cases (find_reservation id s.reservations)) [
      | inl missing ↦ rw missing (Follows-refl s.reservations)
      | inr (r, e) ↦
          rw e
            (elim (Bool-cases
              (not (r.user_id == user_id) && not (is_club_staff r.club_id user_id roles s))) [
                | inl denied ↦ rw denied (Follows-refl s.reservations)
                | inr granted ↦ rw granted (elim (Bool-cases (includes open_statuses r.status)) [
                  | inr closed ↦ rw closed (Follows-refl s.reservations)
                  | inl is_open ↦
                      let (x, priced) = refund_same now r s in
                      rw (is_open, priced)
                        (from_refund-Follows now id user_id (or_default reason) r (payment_of id s)
                          s e is_open x)
                ])
              ])
    ]

-- Whatever `confirm`, `markNoShow`, `expireHold`, `cancel` and the payment webhook are asked for, and
-- whether they return or throw, every reservation is still there after them, with the status that it
-- had or with one that the table of reservation.ts allows next.
pub moves-Follows :
    (env : Env) (now : Instant) (club_id id user_id : ℕ) (roles : List Role)
    (reason : Option String) (body : WebhookBody) (s : Store)
    → Follows s.reservations (confirm env club_id id user_id s).1.reservations
      × Follows s.reservations (mark_no_show now club_id id user_id s).1.reservations
      × Follows s.reservations (expire_hold now id s).1.reservations
      × Follows s.reservations (cancel now id user_id roles reason s).1.reservations
      × Follows s.reservations (handle_webhook env now body s).1.reservations
moves-Follows env now club_id id user_id roles reason body s = (
  confirm-Follows env club_id id user_id s,
  mark_no_show-Follows now club_id id user_id s,
  expire_hold-Follows now id s,
  cancel-Follows now id user_id roles reason s,
  webhook-Follows env now body s,
)
