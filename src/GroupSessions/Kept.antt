-- ===== src/GroupSessions/Kept.antt =====
-- Creating and calling off a group session keep what is stable, if their two writes of the table of
-- sessions do.
use playslot.Prelude.{ℕ, ◌≡◌, refl, List, arith, Bool-cases, inl, inr}
use playslot.Domain.Time.{Instant}
use playslot.Store.Tables.{Store, GroupSession, Registration}
use playslot.Store.Action.{Action, Thrown, modify, on_unique, recovered}
use playslot.Prelude.Result.{Result, ok, err}
use playslot.Store.Rows.Inv.{Inv}
use playslot.Store.Rows.Keeps.{Holds, Keeps, Inv-of_same, keeps_rules}
use playslot.Booking.Slot.{Env}
use playslot.Booking.Stable.{Stable, Inv-Stable, stable_rules}
use playslot.Booking.Lifecycle.Kept.{release-Keeps}
use playslot.Booking.Create.Kept.{coach_blocking-Keeps, standing-Keeps}
use playslot.GroupSessions.{
  CreateGroupSessionInput, insert_session, create, get_one, cancel, update_session, to_called_off,
  register, register_for, unregister, take_seat, insert_registration, is_registered,
}
use playslot.GroupSessions.Seated.{Seated, insert_session-Seated, call_off-Seated}
use playslot.GroupSessions.Apart.{Seated-Stable}

module _ {P : Store → Type 0} (stable : Stable P) where
  abbrev Inserts : Type 0
  Inserts = (g : ℕ → GroupSession) → ((n : ℕ) → (g n).id ≡ n) → Holds P (insert_session g)

  create-Holds :
      (inserts : Inserts)
      → (env : Env) (now : Instant) (coach_user_id : ℕ) (input : CreateGroupSessionInput)
      → Holds P (create env now coach_user_id input)
  unfolding create get_one
  create-Holds inserts env now coach_user_id input =
      search (stable_rules, coach_blocking-Keeps, inserts) depth 24

  abbrev CallsOff : Type 0
  CallsOff =
      (now : Instant) (id : ℕ)
      → Holds P (
          modify (λ s. record s {
            group_sessions = update_session id (to_called_off now) s.group_sessions;
          }))

  cancel-Holds :
      (calls_off : CallsOff)
      → (now : Instant) (id coach_user_id : ℕ) → Holds P (cancel now id coach_user_id)
  unfolding cancel
  cancel-Holds calls_off now id coach_user_id =
      search (stable_rules, release-Keeps, calls_off) depth 24

-- Reservations and rows are not where sessions are kept.
sessions-Keeps :
    (f : Store → List GroupSession) → Keeps (modify (λ s. record s { group_sessions = f s }))
sessions-Keeps f = record {
  keeps = λ s v. Inv-of_same s (record s { group_sessions = f s }) refl refl (omega arith) v;
}

insert_session-Keeps : (g : ℕ → GroupSession) → Keeps (insert_session g)
unfolding insert_session
insert_session-Keeps g = record {
  keeps = λ s v. Inv-of_same s (insert_session g s).1 refl refl (omega arith) v;
}

registrations-Keeps :
    (f : Store → List Registration) → Keeps (modify (λ s. record s { registrations = f s }))
registrations-Keeps f = record {
  keeps = λ s v. Inv-of_same s (record s { registrations = f s }) refl refl (omega arith) v;
}

insert_registration-Keeps : (id user_id : ℕ) → Keeps (insert_registration id user_id)
unfolding insert_registration
insert_registration-Keeps id user_id = record {
  keeps = λ s v. elim (Bool-cases (is_registered id user_id s.registrations)) [
    | inl there ↦ rw there v
    | inr new ↦ rw new (Inv-of_same s _ refl refl (omega arith) v)
  ];
}

recovered-Inv : {A : Type 0} (a : A) (r : Result Thrown A × Store) → Inv r.1 → Inv (recovered a r).1
recovered-Inv a (ok x, t) v = v
recovered-Inv a (err e, t) v = v

on_unique-Keeps : {A : Type 0} (m : Action A) (a : A) → Keeps m → Keeps (on_unique m a)
on_unique-Keeps m a k = record { keeps = λ s v. recovered-Inv a (m s) (k.keeps s v) }

pub register-Keeps : (now : Instant) (id user_id : ℕ) → Keeps (register now id user_id)
unfolding register register_for take_seat
register-Keeps now id user_id =
    search (keeps_rules, standing-Keeps, on_unique-Keeps, insert_registration-Keeps) depth 24

pub unregister-Keeps : (id user_id : ℕ) → Keeps (unregister id user_id)
unfolding unregister
unregister-Keeps id user_id = registrations-Keeps _

pub create-Keeps :
    (env : Env) (now : Instant) (coach_user_id : ℕ) (input : CreateGroupSessionInput)
    → Keeps (create env now coach_user_id input)
create-Keeps = create-Holds Inv-Stable (λ g _. insert_session-Keeps g)

pub cancel-Keeps : (now : Instant) (id coach_user_id : ℕ) → Keeps (cancel now id coach_user_id)
cancel-Keeps = cancel-Holds Inv-Stable (λ _ _. sessions-Keeps _)

pub create-Seated :
    (env : Env) (now : Instant) (coach_user_id : ℕ) (input : CreateGroupSessionInput)
    → Holds Seated (create env now coach_user_id input)
create-Seated = create-Holds Seated-Stable insert_session-Seated

pub cancel-Seated :
    (now : Instant) (id coach_user_id : ℕ) → Holds Seated (cancel now id coach_user_id)
cancel-Seated = cancel-Holds Seated-Stable call_off-Seated
