-- ===== src/Booking/Lifecycle/Moves.antt =====
-- The calls that move a reservation on change statuses along the table of reservation.ts only.
use playslot.Prelude.{
  ℕ, ◌≡◌, ◌⊎◌, refl, sym, ◌∙◌, subst, true, String, Option, none, some, List, [], ◌∷◌, map, arith,
  ltb, Bool-cases, Option-cases, inl, inr, ◌==◌,
}
use playslot.Domain.Time.{Instant}
use playslot.Domain.Status.{ReservationStatus, status_eq, can_transition, includes}
use playslot.Store.Tables.{Store, Reservation, Payment, Mail, Effect}
use playslot.Store.Action.{Action, modify, emit, audit, transaction, ◌>>◌, for_some}
use playslot.Store.Rows.{exclusive, sync_row, find_reservation, update_reservation, set_status}
use playslot.Store.Rows.Inv.{find-update_self, find-update_ne}
use playslot.Store.Rows.Keeps.{Holds, keeps_rules, >>=-Then, >>=-Keeps, commit-Inv}
use playslot.Booking.Slot.{Env}
use playslot.Booking.Notices.{send}
use playslot.Booking.Lifecycle.{
  to_confirmed, to_cancelled, to_no_show, set_payments, find_of_club, of_club, confirm,
  mark_no_show, may_expire, expire_hold, confirm_paid_reservation, fail_payment,
}
use playslot.Booking.Lifecycle.Webhook.{
  WebhookBody, missing, bad_signature, signed, paid, failed, ignored, handle_webhook,
}

-- Every reservation is still there, with its status or with one that the table allows next.
pub record Follows (rs rs' : List Reservation) : Type 0 where
  pub next :
      (id : ℕ) (r : Reservation)
      → find_reservation id rs ≡ some r
      → (r' : Reservation) × (find_reservation id rs' ≡ some r')
        × ((r'.status ≡ r.status) ⊎ (can_transition r.status r'.status ≡ true))

pub Follows-refl : (rs : List Reservation) → Follows rs rs
Follows-refl rs = record { next = λ id r e. (r, e, inl refl) }

module _ {rs : List Reservation} where
  pub emit-Holds : (e : Effect) → Holds (λ t. Follows rs t.reservations) (emit e)
  emit-Holds e = record { keeps = λ s v. v }

  pub audit-Holds :
      (actor : ℕ) (action : String) (object : ℕ)
      → Holds (λ t. Follows rs t.reservations) (audit actor action object)
  audit-Holds actor action object = record { keeps = λ s v. v }

  pub send-Holds : (mails : Store → List Mail) → Holds (λ t. Follows rs t.reservations) (send mails)
  send-Holds mails = record { keeps = λ s v. v }

  pub payments-Holds :
      (f : Store → List Payment)
      → Holds (λ t. Follows rs t.reservations) (modify (λ s. record s { payments = f s }))
  payments-Holds f = record { keeps = λ s v. v }

pub ruleset quiet_rules = (keeps_rules, emit-Holds, audit-Holds, send-Holds, payments-Holds)

update-next :
    (id : ℕ) (f : Reservation → Reservation) (rs : List Reservation) (old : Reservation)
    → ((r : Reservation) → (f r).id ≡ r.id)
    → find_reservation id rs ≡ some old
    → can_transition old.status (f old).status ≡ true
    → (j : ℕ) (r : Reservation) → find_reservation j rs ≡ some r
    → (r' : Reservation) × (find_reservation j (update_reservation id f rs) ≡ some r')
      × ((r'.status ≡ r.status) ⊎ (can_transition r.status r'.status ≡ true))
update-next id f rs old k e legal j r found = elim (Bool-cases (j == id)) [
  | inl same ↦
      let at : j ≡ id = ground arith in
      let old_r : some old ≡ some r =
        sym e ∙ subst (λ i. find_reservation i rs ≡ some r) at found in
      let is : old ≡ r = ground arith in
      (
        f old,
        subst (λ i. find_reservation i (update_reservation id f rs) ≡ some (f old)) (sym at)
            (find-update_self id f k rs old e),
        inr (subst (λ (x : Reservation). can_transition x.status (f old).status ≡ true) is legal),
      )
  | inr other ↦ (r, find-update_ne id f k rs j (ground arith) ∙ found, inl refl)
]

update-Follows :
    (id : ℕ) (f : Reservation → Reservation) (rs : List Reservation) (old : Reservation)
    → ((r : Reservation) → (f r).id ≡ r.id)
    → find_reservation id rs ≡ some old
    → can_transition old.status (f old).status ≡ true
    → Follows rs (update_reservation id f rs)
update-Follows id f rs old k e legal = record { next = update-next id f rs old k e legal }

-- A change of status that the table allows, whatever else it does.
pub set_status-Follows :
    (id : ℕ) (f : Reservation → Reservation) (s : Store) (old : Reservation)
    → ((r : Reservation) → (f r).id ≡ r.id)
    → find_reservation id s.reservations ≡ some old
    → can_transition old.status (f old).status ≡ true
    → Follows s.reservations (set_status id f s).1.reservations
unfolding set_status
set_status-Follows id f s old k e legal =
    let changed = update-Follows id f s.reservations old k e legal in
    rw (e, set_status)
      (elim (Bool-cases (status_eq old.status (f old).status)) [
        | inl same ↦ rw same changed
        | inr different ↦
            rw different (elim (Bool-cases (exclusive (map (sync_row id (f old).status) s.rows))) [
              | inl fine ↦ rw fine changed
              | inr refused ↦ rw refused (Follows-refl s.reservations)
            ])
      ])

pub of_club_find :
    (club_id : ℕ) (o : Option Reservation) (r : Reservation)
    → of_club club_id o ≡ some r
    → o ≡ some r
of_club_find club_id none r e = e
of_club_find club_id (some x) r e = ground (arith, e)

module _ (id : ℕ) (f : Reservation → Reservation) (k : (r : Reservation) → (f r).id ≡ r.id) where
  -- The update and what is done after it.
  pub then_quiet :
      {A : Type 0} (rest : Action A) (s : Store) (old : Reservation)
      → find_reservation id s.reservations ≡ some old
      → can_transition old.status (f old).status ≡ true
      → Holds (λ t. Follows s.reservations t.reservations) rest
      → Follows s.reservations ((set_status id f >> rest) s).1.reservations
  then_quiet rest s old e legal quiet =
      >>=-Then {P = λ t. Follows s.reservations t.reservations} (set_status id f) (λ _. rest) s
        (set_status-Follows id f s old k e legal) (λ _. quiet)

  -- A transaction of the update and of changes of payments, and what is done after it.
  pub then_paid :
      {A : Type 0} (change : Payment → Payment) (rest : Action A) (s : Store) (old : Reservation)
      → find_reservation id s.reservations ≡ some old
      → can_transition old.status (f old).status ≡ true
      → Holds (λ t. Follows s.reservations t.reservations) rest
      → Follows s.reservations
          ((transaction (set_status id f >> set_payments id change) >> rest) s).1.reservations
  then_paid change rest s old e legal quiet =
      >>=-Then {P = λ t. Follows s.reservations t.reservations}
        (transaction (set_status id f >> set_payments id change)) (λ _. rest) s
        (commit-Inv (λ t. Follows s.reservations t.reservations) s _ (Follows-refl s.reservations)
          (then_quiet (set_payments id change) s old e legal (payments-Holds _)))
        (λ _. quiet)

from_pending_approval :
    (r : Reservation)
    → status_eq r.status ReservationStatus.pending_approval ≡ true
    → can_transition r.status ReservationStatus.confirmed ≡ true
unfolding can_transition
from_pending_approval r h = ground arith

-- Whatever `confirm` does, every reservation is still there after it, with the status it had or with
-- one that the transition table allows next.
pub confirm-Follows :
    (env : Env) (club_id id staff : ℕ) (s : Store)
    → Follows s.reservations (confirm env club_id id staff s).1.reservations
unfolding confirm find_of_club
confirm-Follows env club_id id staff s =
    elim (Option-cases (of_club club_id (find_reservation id s.reservations))) [
      | inl unknown ↦ rw unknown (Follows-refl s.reservations)
      | inr (r, e) ↦ rw e (elim (Bool-cases (status_eq r.status ReservationStatus.confirmed)) [
        | inl done ↦ rw done (Follows-refl s.reservations)
        | inr not_yet ↦
            rw not_yet (elim (Bool-cases (status_eq r.status ReservationStatus.pending_approval)) [
              | inl waiting ↦ rw waiting (
                  then_quiet id to_confirmed (λ x. refl) _ s r (of_club_find club_id _ r e)
                    (from_pending_approval r waiting) (search quiet_rules depth 24))
              | inr bad ↦ rw bad (Follows-refl s.reservations)
            ])
      ])
    ]

from_confirmed :
    (r : Reservation)
    → status_eq r.status ReservationStatus.confirmed ≡ true
    → can_transition r.status ReservationStatus.no_show ≡ true
unfolding can_transition
from_confirmed r h = ground arith

-- Whatever `markNoShow` does, every reservation is still there after it, with the status it had or
-- with one that the transition table allows next.
pub mark_no_show-Follows :
    (now : Instant) (club_id id staff : ℕ) (s : Store)
    → Follows s.reservations (mark_no_show now club_id id staff s).1.reservations
unfolding mark_no_show find_of_club
mark_no_show-Follows now club_id id staff s =
    elim (Option-cases (of_club club_id (find_reservation id s.reservations))) [
      | inl unknown ↦ rw unknown (Follows-refl s.reservations)
      | inr (r, e) ↦ rw e (elim (Bool-cases (status_eq r.status ReservationStatus.confirmed)) [
        | inr bad ↦ rw bad (Follows-refl s.reservations)
        | inl fine ↦ rw fine (elim (Bool-cases (ltb now r.starts_at)) [
          | inl early ↦ rw early (Follows-refl s.reservations)
          | inr started ↦ rw started (
              then_quiet id to_no_show (λ x. refl) _ s r (of_club_find club_id _ r e)
                (from_confirmed r fine) (search quiet_rules depth 24))
        ])
      ])
    ]

from_expirable :
    (now : Instant) (r : Reservation)
    → may_expire now r ≡ true
    → can_transition r.status ReservationStatus.cancelled ≡ true
unfolding can_transition
from_expirable now r h = ground arith

-- Whatever `expireHold` does, every reservation is still there after it, with the status it had or
-- with one that the transition table allows next.
pub expire_hold-Follows :
    (now : Instant) (id : ℕ) (s : Store)
    → Follows s.reservations (expire_hold now id s).1.reservations
unfolding expire_hold for_some
expire_hold-Follows now id s = elim (Option-cases (find_reservation id s.reservations)) [
  | inl unknown ↦ rw unknown (Follows-refl s.reservations)
  | inr (r, e) ↦ rw e (elim (Bool-cases (may_expire now r)) [
    | inr bad ↦ rw bad (Follows-refl s.reservations)
    | inl fine ↦ rw fine (
        then_quiet id (to_cancelled "hold_expired") (λ x. refl) _ s r e (from_expirable now r fine)
          (search quiet_rules depth 24))
  ])
]

from_pending_payment :
    (r : Reservation) (to : ReservationStatus)
    → status_eq r.status ReservationStatus.pending_payment ≡ true
    → includes (ReservationStatus.confirmed ∷ ReservationStatus.cancelled ∷ []) to ≡ true
    → can_transition r.status to ≡ true
unfolding can_transition
from_pending_payment r to h k = ground arith

confirm_paid-Follows :
    (env : Env) (now : Instant) (id : ℕ) (ref : String) (s : Store)
    → Follows s.reservations (confirm_paid_reservation env now id ref s).1.reservations
unfolding confirm_paid_reservation for_some
confirm_paid-Follows env now id ref s = elim (Option-cases (find_reservation id s.reservations)) [
  | inl unknown ↦ rw unknown (Follows-refl s.reservations)
  | inr (r, e) ↦ rw e (elim (Bool-cases (status_eq r.status ReservationStatus.pending_payment)) [
    | inr bad ↦ rw bad (Follows-refl s.reservations)
    | inl fine ↦ rw fine (
        then_paid id to_confirmed (λ x. refl) _ _ s r e (from_pending_payment r _ fine refl)
          (search quiet_rules depth 24))
  ])
]

fail_payment-Follows :
    (id : ℕ) (s : Store) → Follows s.reservations (fail_payment id s).1.reservations
unfolding fail_payment for_some
fail_payment-Follows id s = elim (Option-cases (find_reservation id s.reservations)) [
  | inl unknown ↦ rw unknown (Follows-refl s.reservations)
  | inr (r, e) ↦ rw e (elim (Bool-cases (status_eq r.status ReservationStatus.pending_payment)) [
    | inr bad ↦ rw bad (Follows-refl s.reservations)
    | inl fine ↦ rw fine (
        then_paid id (to_cancelled "payment_failed") (λ x. refl) _ _ s r e
          (from_pending_payment r _ fine refl) (search quiet_rules depth 24))
  ])
]

-- Whatever a webhook request holds, every reservation is still there after it, with the status it
-- had or with one that the transition table allows next.
pub webhook-Follows :
    (env : Env) (now : Instant) (body : WebhookBody) (s : Store)
    → Follows s.reservations (handle_webhook env now body s).1.reservations
unfolding handle_webhook
webhook-Follows env now missing s = Follows-refl s.reservations
webhook-Follows env now bad_signature s = Follows-refl s.reservations
webhook-Follows env now (signed (paid id ref)) s = confirm_paid-Follows env now id ref s
webhook-Follows env now (signed (failed id)) s = fail_payment-Follows id s
webhook-Follows env now (signed ignored) s = Follows-refl s.reservations
