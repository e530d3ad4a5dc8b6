-- ===== src/Booking/Stable.antt =====
-- What the calls of the services keep: facts on the store that reads of other tables, a change of a
-- status and a booking leave true. The invariant of reservations and rows is one, the seats of group
-- sessions another.
use playslot.Prelude.{ℕ, ◌≤◌, ◌≡◌, refl, String, List, arith}
use playslot.Store.Tables.{Store, Reservation, User, Payment, Mail, Effect}
use playslot.Store.Action.{emit, audit, modify}
use playslot.Store.Rows.{set_status}
use playslot.Store.Rows.Inv.{Inv, KeepsPlace}
use playslot.Store.Rows.Keeps.{Holds, keeps_rules, Inv-of_same, set_status-Keeps}
use playslot.Booking.Notices.{send}
use playslot.Booking.Transaction.{BookingArgs, run_booking_transaction}
use playslot.Booking.Transaction.Kept.{run_booking_transaction-Inv}

-- The two stores differ neither in their reservations and rows nor in their group sessions.
pub record Same (s s' : Store) : Type 0 where
  pub rows : s'.rows ≡ s.rows
  pub reservations : s'.reservations ≡ s.reservations
  pub group_sessions : s'.group_sessions ≡ s.group_sessions
  pub registrations : s'.registrations ≡ s.registrations
  pub later : s.next_id ≤ s'.next_id

pub unseen :
    (s s' : Store)
    → s'.rows ≡ s.rows
    → s'.reservations ≡ s.reservations
    → s'.group_sessions ≡ s.group_sessions
    → s'.registrations ≡ s.registrations
    → s'.next_id ≡ s.next_id
    → Same s s'
unseen s s' rows reservations group_sessions registrations next = record {
  rows = rows;
  reservations = reservations;
  group_sessions = group_sessions;
  registrations = registrations;
  later = omega arith;
}

pub record Stable (P : Store → Type 0) : Type 0 where
  pub same : (s s' : Store) → Same s s' → P s → P s'
  pub status : (id : ℕ) (f : Reservation → Reservation) → KeepsPlace f → Holds P (set_status id f)
  pub book : (args : BookingArgs) → Holds P (run_booking_transaction args)

module _ {P : Store → Type 0} (stable : Stable P) where
  pub emit-Stable : (e : Effect) → Holds P (emit e)
  emit-Stable e = record {
    keeps = λ s v. stable.same s (emit e s).1 (unseen s _ refl refl refl refl refl) v;
  }

  pub audit-Stable :
      (actor : ℕ) (action : String) (object : ℕ) → Holds P (audit actor action object)
  audit-Stable actor action object = record {
    keeps = λ s v.
        stable.same s (audit actor action object s).1 (unseen s _ refl refl refl refl refl) v;
  }

  pub send-Stable : (mails : Store → List Mail) → Holds P (send mails)
  send-Stable mails = record {
    keeps = λ s v. stable.same s (send mails s).1 (unseen s _ refl refl refl refl refl) v;
  }

  pub payments-Stable :
      (f : Store → List Payment) → Holds P (modify (λ s. record s { payments = f s }))
  payments-Stable f = record {
    keeps =
        λ s v. stable.same s (record s { payments = f s }) (unseen s _ refl refl refl refl refl) v;
  }

  pub users-Stable : (f : Store → List User) → Holds P (modify (λ s. record s { users = f s }))
  users-Stable f = record {
    keeps = λ s v. stable.same s (record s { users = f s }) (unseen s _ refl refl refl refl refl) v;
  }

  pub status-Stable :
      (id : ℕ) (f : Reservation → Reservation) → KeepsPlace f → Holds P (set_status id f)
  status-Stable id f k = stable.status id f k

  pub book-Stable : (args : BookingArgs) → Holds P (run_booking_transaction args)
  book-Stable args = stable.book args

pub ruleset stable_rules =
    (keeps_rules, emit-Stable, audit-Stable, send-Stable, status-Stable, book-Stable)

pub Inv-Stable : Stable Inv
Inv-Stable = record {
  same = λ s s' e v. Inv-of_same s s' e.rows e.reservations e.later v;
  status = λ id f k. set_status-Keeps id f k;
  book = λ args. run_booking_transaction-Inv args;
}
