-- ===== src/Booking/Cancel/Outcome.antt =====
-- What `cancel` does on each of its branches.
use playslot.Prelude.{
  ℕ, zero, suc, ◌≡◌, ◌↔◌, ◌⊎◌, refl, Mem, All, All-imp, find, find_unique, sym, Bool, true, false,
  not, ◌&&◌, ◌||◌, String, Option, none, some, List, ◌∷◌, map, Bool-cases, Option-cases, inl, inr,
  arith, ◌==◌, if◌then◌else◌,
}
use playslot.Prelude.Int.{ℤ, pos, negsuc, ltb_ℤ}
use playslot.Domain.Cancellation.{RefundResult, compute_refund, hours_until}
use playslot.Prelude.Result.{ok, err}
use playslot.Domain.Time.{Instant}
use playslot.Domain.Status.{ReservationStatus, includes, occupies_inventory}
use playslot.Store.Tables.{
  Store, Role, Reservation, ReservationType, CancellationPolicy, Payment, PaymentStatus,
}
use playslot.Store.Action.{
  Thrown, app_exception, not_found, forbidden, policy_violation, transaction, for_some,
}
use playslot.Store.Rows.{find_reservation, sync_row, update_reservation, set_status}
use playslot.Store.Rows.Inv.{Inv}
use playslot.Booking.Lifecycle.{update_payments, to_cancelled}
use playslot.Booking.Lifecycle.Freed.{freed, set_status-freed}
use playslot.Booking.Cancel.{
  is_club_staff, open_statuses, same_type, is_captured, policy_refund, payment_of, will_refund,
  to_refunded, or_default, ref_of, cancel_body, cancel,
}

open_occupies :
    (r : Reservation) → includes open_statuses r.status ≡ true → occupies_inventory r.status ≡ true
unfolding occupies_inventory
open_occupies r h = ground arith

-- The types of reservations that have a cancellation policy.
abbrev pub HasPolicy : ReservationType → Type 0
HasPolicy t = (t ≡ ReservationType.court) ⊎ (t ≡ ReservationType.lesson)

-- The policy is the club's, for the type of the reservation.
abbrev pub IsPolicyOf : Reservation → CancellationPolicy → Type 0
IsPolicyOf r p = (p.club_id ≡ r.club_id) × (p.applies_to ≡ r.type)

-- There is money to give back: a refund of more than 0, of a payment that was captured.
abbrev pub IsPaidOut : ℕ → ℤ → Store → Type 0
IsPaidOut id cents s =
    ((n : ℕ) × (cents ≡ pos (suc n)))
    × (p : Payment) × (find (λ (q : Payment). q.reservation_id == id) s.payments ≡ some p)
    × (p.status ≡ PaymentStatus.captured)

same_type-eq : (a b : ReservationType) → same_type a b ≡ true → a ≡ b
same_type-eq ReservationType.court ReservationType.court h = refl
same_type-eq ReservationType.court b h = absurd (cc)
same_type-eq ReservationType.lesson ReservationType.lesson h = refl
same_type-eq ReservationType.lesson b h = absurd (cc)
same_type-eq a b h = absurd (cc)

same_type_refl : (a : ReservationType) → HasPolicy a → same_type a a ≡ true
same_type_refl a (inl e) = rw e refl
same_type_refl a (inr e) = rw e refl

is_captured-eq : (st : PaymentStatus) → is_captured st ≡ true → st ≡ PaymentStatus.captured
is_captured-eq PaymentStatus.captured h = refl
is_captured-eq st h = absurd (cc)

positive : (cents : ℤ) → ltb_ℤ (pos 0) cents ≡ true → (n : ℕ) × (cents ≡ pos (suc n))
positive (pos zero) h = absurd (ground arith)
positive (pos (suc n)) h = (n, refl)
positive (negsuc n) h = absurd (ground arith)

positive_of : (n : ℕ) → ltb_ℤ (pos 0) (pos (suc n)) ≡ true
positive_of n = ground arith

will_refund_iff :
    (cents : ℤ) (o : Option Payment)
    → (will_refund cents o ≡ true) ↔ (
        ((n : ℕ) × (cents ≡ pos (suc n)))
        × (p : Payment) × (o ≡ some p)
        × (p.status ≡ PaymentStatus.captured))
will_refund_iff cents none = (λ h. absurd (cc), λ h. absurd (cc))
will_refund_iff cents (some p) = (
  λ h.
      let more : ltb_ℤ (pos 0) cents ≡ true = ground arith in
      let got : is_captured p.status ≡ true = ground arith in
      (positive cents more, p, refl, is_captured-eq p.status got),
  λ ((n, e), q, same, got).
      let is : p ≡ q = ground (arith, same) in
      let got' : p.status ≡ PaymentStatus.captured = rw is got in rw (e, got', positive_of n) refl,
)

policy_refund_lem :
    (now : Instant) (s : Store) (r : Reservation) (p : CancellationPolicy) (x : RefundResult)
    → HasPolicy r.type
    → Mem p s.policies
    → IsPolicyOf r p
    → All (λ q. IsPolicyOf r q → q ≡ p) s.policies
    → compute_refund p.tiers (hours_until r.starts_at now) r.price_cents ≡ ok x
    → policy_refund now r s ≡ (ok x.refund_cents, s)
unfolding policy_refund
policy_refund_lem now s r p x kind listed of_r only refund =
    let is_policy =
      λ (q : CancellationPolicy). q.club_id == r.club_id && same_type q.applies_to r.type in
    let same = same_type_refl r.type kind in
    let same' : same_type p.applies_to r.type ≡ true = rw (of_r.1) same in
    let found : find is_policy s.policies ≡ some p =
      find_unique is_policy p s.policies listed (ground (arith, of_r.0, same')) (
        All-imp _ _ s.policies
          (λ q f h.
            let type_of : same_type q.applies_to r.type ≡ true = ground (arith, h) in
            f (ground (arith, h), same_type-eq q.applies_to r.type type_of))
          only) in
    rw (same, found, refund) refl

module _ (now : Instant) (id user_id : ℕ) (roles : List Role) (reason : Option String) where
  abbrev is_allowed : Reservation → Store → Bool
  is_allowed r s = r.user_id == user_id || is_club_staff r.club_id user_id roles s

  -- What the call is refused with, if it is: who may not see the reservation is told so before
  -- anything of its status.
  abbrev pub refusal : Store → Option Reservation → Option Thrown
  refusal s none = some (app_exception not_found "")
  refusal s (some r) =
      if not (is_allowed r s)
      then some (app_exception forbidden "")
      else if not (includes open_statuses r.status)
      then some (app_exception policy_violation "not_cancellable")
      else none

  found-refusal :
      (s : Store) (r : Reservation) (x : Thrown)
      → find_reservation id s.reservations ≡ some r
      → refusal s (some r) ≡ some x
      → cancel now id user_id roles reason s ≡ (err x, s)
  unfolding cancel
  found-refusal s r x e why = elim (Bool-cases (is_allowed r s)) [
    | inr denied ↦
        let refused : (not (r.user_id == user_id) && not (is_club_staff r.club_id user_id roles s))
            ≡ true =
          ground arith in
        let is : app_exception forbidden "" ≡ x = ground (arith, why, denied) in
        rw (e, refused, sym is) refl
    | inl granted ↦
        let passed : (not (r.user_id == user_id) && not (is_club_staff r.club_id user_id roles s))
            ≡ false =
          ground arith in
        elim (Bool-cases (includes open_statuses r.status)) [
          | inl is_open ↦ ground (arith, why, granted, is_open)
          | inr closed ↦
              let is : app_exception policy_violation "not_cancellable" ≡ x =
                ground (arith, why, granted, closed) in
              rw (e, passed, closed, sym is) refl
        ]
  ]

  -- `cancel` throws `not_found` for a reservation that is missing, else `forbidden` to who neither
  -- made it nor is staff of its club, else `not_cancellable` if its status is none of HOLD,
  -- PENDING_PAYMENT, PENDING_APPROVAL and CONFIRMED; and whichever it is, it changes nothing.
  pub cancel-refusal :
      (s : Store) (x : Thrown)
      → refusal s (find_reservation id s.reservations) ≡ some x
      → cancel now id user_id roles reason s ≡ (err x, s)
  unfolding cancel
  cancel-refusal s x why = elim (Option-cases (find_reservation id s.reservations)) [
    | inl missing ↦
        let is : app_exception not_found "" ≡ x = ground (arith, why, missing) in
        rw (missing, sym is) refl
    | inr (r, e) ↦ found-refusal s r x e (rw e at why)
  ]

  -- What the transaction leaves.
  abbrev settled : ℤ → Bool → Store → Store
  settled cents refunding s = record (freed id (or_default reason) s) {
    payments =
        if refunding then update_payments id (to_refunded now cents) s.payments else s.payments;
    audit_log =
        record { actor_user_id = user_id; action = "reservation.cancelled"; object_id = id }
        ∷ s.audit_log;
  }

  body-settled :
      (cents : ℤ) (refunding : Bool) (s : Store)
      → set_status id (to_cancelled (or_default reason)) s ≡ (ok tt, freed id (or_default reason) s)
      → transaction (cancel_body now id user_id (or_default reason) cents refunding) s
        ≡ (ok tt, settled cents refunding s)
  unfolding cancel_body
  body-settled cents true s e = rw e refl
  body-settled cents false s e = rw e refl

  -- The outcome with the refund that `policy_refund` works out.
  cancelled-with :
      (s : Store) (r : Reservation) (cents : ℤ)
      → Inv s
      → find_reservation id s.reservations ≡ some r
      → (r.user_id == user_id) ≡ true
      → includes open_statuses r.status ≡ true
      → policy_refund now r s ≡ (ok cents, s)
      → let paid_out = will_refund cents (payment_of id s) in
        let t = cancel now id user_id roles reason s in
        (t.0 ≡ ok (ReservationStatus.cancelled, cents, paid_out))
        × (t.1.reservations
            ≡ update_reservation id (to_cancelled (or_default reason)) s.reservations)
        × (t.1.rows ≡ map (sync_row id ReservationStatus.cancelled) s.rows)
        × (t.1.payments ≡ (
            if paid_out then update_payments id (to_refunded now cents) s.payments else s.payments))
  unfolding cancel for_some
  cancelled-with s r cents v e own is_open priced =
      let passed : (not (r.user_id == user_id) && not (is_club_staff r.club_id user_id roles s))
          ≡ false =
        ground arith in
      let paid_out = will_refund cents (payment_of id s) in
      let done =
        body-settled cents paid_out s
          (set_status-freed id (or_default reason) s r v e (open_occupies r is_open)) in
      rw (e, passed, is_open, priced, done)
        (elim (Bool-cases paid_out) [
          | inl paid ↦ rw paid (elim (Option-cases (ref_of (payment_of id s))) [
            | inl offline ↦ rw offline (refl, refl, refl, refl)
            | inr (ref, online) ↦ rw online (refl, refl, refl, refl)
          ])
          | inr kept ↦ rw kept (refl, refl, refl, refl)
        ])

  -- In a store with the invariant, for a court booking or a lesson in one of the four open statuses,
  -- that its own customer cancels, and the only cancellation policy of its club for its type: where
  -- the tiers of that policy give a refund, `cancel` returns CANCELLED, that refund and whether it is
  -- paid out, which is so exactly when it is more than 0 and the reservation's payment is CAPTURED.
  -- After it the reservation is CANCELLED with its reason, the rows of its resources are in step with
  -- that, and its payment is marked refunded just where the refund is paid out.
  pub cancel-cancels :
      (s : Store) (r : Reservation) (p : CancellationPolicy) (x : RefundResult)
      → Inv s
      → find_reservation id s.reservations ≡ some r
      → r.user_id ≡ user_id
      → HasPolicy r.type
      → includes open_statuses r.status ≡ true
      → Mem p s.policies
      → IsPolicyOf r p
      → All (λ q. IsPolicyOf r q → q ≡ p) s.policies
      → compute_refund p.tiers (hours_until r.starts_at now) r.price_cents ≡ ok x
      → (paid_out : Bool) × ((paid_out ≡ true) ↔ IsPaidOut id x.refund_cents s)
        × (let t = cancel now id user_id roles reason s in
            (t.0 ≡ ok (ReservationStatus.cancelled, x.refund_cents, paid_out))
            × (t.1.reservations
                ≡ update_reservation id (to_cancelled (or_default reason)) s.reservations)
            × (t.1.rows ≡ map (sync_row id ReservationStatus.cancelled) s.rows)
            × (t.1.payments ≡ (
                if paid_out
                then update_payments id (to_refunded now x.refund_cents) s.payments
                else s.payments)))
  cancel-cancels s r p x v e own kind is_open listed of_r only refund = (
    will_refund x.refund_cents (payment_of id s),
    will_refund_iff x.refund_cents (payment_of id s),
    cancelled-with s r x.refund_cents v e (ground arith) is_open
        (policy_refund_lem now s r p x kind listed of_r only refund),
  )
