-- ===== src/GroupSessions/Apart.antt =====
-- What is written of reservations and their rows leaves the group sessions as they are, so that what
-- is true of group sessions is stable under every call on reservations.
use playslot.Prelude.{
  ℕ, refl, Bool, String, List, [], ◌∷◌, map, arith, Bool-cases, Option-cases, inl, inr,
}
use playslot.Prelude.Int.{ℤ}
use playslot.Domain.Time.{Instant, Interval}
use playslot.Domain.Status.{status_eq}
use playslot.Store.Tables.{Store, Reservation, ReservationType, ResourceRow}
use playslot.Store.Action.{modify, audit}
use playslot.Store.Rows.{exclusive, sync_row, find_reservation, set_status, write_rows, insert_row}
use playslot.Store.Rows.Keeps.{Holds, keeps_rules, >>=-Keeps, on_exclusion-Keeps}
use playslot.Booking.Slot.{Env, ResolvedSlot}
use playslot.Booking.Stable.{Stable, stable_rules}
use playslot.Booking.Transaction.{
  BookingArgs, create_held, insert_rows, finish_booking, booking_body, run_booking_transaction,
}
use playslot.Booking.Create.Kept.{resolve_slot-Keeps, price_for-Keeps}
use playslot.Booking.Reschedule.{
  RescheduleInput, reschedule_body, new_price, move, reschedule_existing, reschedule,
}
use playslot.GroupSessions.Seated.{Seated, Seated-of_same}

rows-Seated : (f : Store → List ResourceRow) → Holds Seated (modify (λ s. record s { rows = f s }))
rows-Seated f = record {
  keeps = λ s v. Seated-of_same s (record s { rows = f s }) refl refl (omega arith) v;
}

set_status-Seated : (id : ℕ) (f : Reservation → Reservation) → Holds Seated (set_status id f)
unfolding set_status
set_status-Seated id f = record {
  keeps = λ s v. elim (Option-cases (find_reservation id s.reservations)) [
    | inl missing ↦ rw (missing, set_status) v
    | inr (old, e) ↦
        rw (e, set_status)
          (elim (Bool-cases (status_eq old.status (f old).status)) [
            | inl same ↦ rw same (Seated-of_same s _ refl refl (omega arith) v)
            | inr changed ↦
                rw changed
                  (elim (Bool-cases (exclusive (map (sync_row id (f old).status) s.rows))) [
                    | inl fine ↦ rw fine (Seated-of_same s _ refl refl (omega arith) v)
                    | inr refused ↦ rw refused v
                  ])
          ])
  ];
}

insert_row-Seated : (r : ResourceRow) → Holds Seated (insert_row r)
unfolding insert_row write_rows
insert_row-Seated r = record {
  keeps = λ s v. elim (Bool-cases (exclusive (r ∷ s.rows))) [
    | inl fine ↦ rw fine (Seated-of_same s _ refl refl (omega arith) v)
    | inr refused ↦ rw refused v
  ];
}

insert_rows-Seated :
    (id : ℕ) (period : Interval) (active : Bool) (xs : List ℕ)
    → Holds Seated (insert_rows id period active xs)
unfolding insert_rows
insert_rows-Seated id period active [] = search keeps_rules
insert_rows-Seated id period active (x ∷ xs) =
    >>=-Keeps _ (λ _. insert_rows id period active xs) (insert_row-Seated _)
      (λ _. insert_rows-Seated id period active xs)

create_held-Seated : (args : BookingArgs) → Holds Seated (create_held args)
unfolding create_held
create_held-Seated args = record {
  keeps = λ s v. Seated-of_same s (create_held args s).1 refl refl (omega arith) v;
}

audit-Seated : (actor : ℕ) (action : String) (object : ℕ) → Holds Seated (audit actor action object)
audit-Seated actor action object = record {
  keeps = λ s v. Seated-of_same s (audit actor action object s).1 refl refl (omega arith) v;
}

booking-Seated : (args : BookingArgs) → Holds Seated (run_booking_transaction args)
unfolding run_booking_transaction booking_body finish_booking
booking-Seated args =
    search
      (
        keeps_rules, on_exclusion-Keeps, create_held-Seated, insert_rows-Seated, set_status-Seated,
        audit-Seated,
      )
      depth 24

pub Seated-Stable : Stable Seated
Seated-Stable = record {
  same = λ s s' e v. Seated-of_same s s' e.group_sessions e.registrations e.later v;
  status = λ id f k. set_status-Seated id f;
  book = booking-Seated;
}

reschedule_body-Seated :
    (slot : ResolvedSlot) (r : Reservation) (id : ℕ) (cents : ℤ) (staff : ℕ)
    → Holds Seated (reschedule_body slot r id cents staff)
unfolding reschedule_body
reschedule_body-Seated slot r id cents staff =
    search (keeps_rules, rows-Seated, insert_rows-Seated, set_status-Seated, audit-Seated) depth 24

new_price-Seated :
    (env : Env) (club_id : ℕ) (type : ReservationType) (slot : ResolvedSlot)
    → Holds Seated (new_price env club_id type slot)
unfolding new_price
new_price-Seated env club_id type slot = search (keeps_rules, price_for-Keeps) depth 24

-- Moving a reservation keeps the seats of group sessions.
pub reschedule-Seated :
    (env : Env) (now : Instant) (club_id id : ℕ) (input : RescheduleInput) (staff : ℕ)
    → Holds Seated (reschedule env now club_id id input staff)
unfolding reschedule reschedule_existing move
reschedule-Seated env now club_id id input staff =
    search
      (
        stable_rules, Seated-Stable, on_exclusion-Keeps, resolve_slot-Keeps, new_price-Seated,
        reschedule_body-Seated,
      )
      depth 40
