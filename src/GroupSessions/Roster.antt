-- ===== src/GroupSessions/Roster.antt =====
-- What a group session promises to those who register: a roster of a fixed size, without the table,
-- the order of its rows and the transaction behind it.
use playslot.Prelude.{
  ℕ, ◌+◌, ◌-◌, ◌≤◌, ◌≡◌, refl, ◌∙◌, Bool, true, false, not, ◌&&◌, ◌||◌, none, some, Bool-cases, inl,
  inr, arith, leb, ◌==◌, if◌then◌else◌, List, ◌∷◌,
}
use playslot.Prelude.Result.{Result, ok, err}
use playslot.Domain.Time.{Instant}
use playslot.Standing.{assert_in_good_standing}
use playslot.Store.Tables.{Store, GroupSession, Registration}
use playslot.Store.Action.{Thrown, app_exception, policy_violation, transaction, on_unique}
use playslot.GroupSessions.{
  find_session, seats_taken, is_registered, take_seat, insert_registration, register, register_for,
  unregister,
}
use playslot.GroupSessions.Seats.{
  seat, unique, seats-seat, registered-seat, registered-without, seats-without,
}

-- Who is in, and how many seats are left.
pub record Roster : Type 0 where
  pub enrolled : ℕ → Bool
  pub free : ℕ

abbrev pub full : Thrown
full = app_exception policy_violation "full"

-- A seat for the account, unless none is left. Who is in already stays in and takes no other seat.
unfoldable pub join : ℕ → Roster → Result Thrown ℕ × Roster
join user_id roster =
    if roster.free == 0
    then (err full, roster)
    else if roster.enrolled user_id
    then (ok roster.free, roster)
    else (
      ok (roster.free - 1),
      record { enrolled = λ v. user_id == v || roster.enrolled v; free = roster.free - 1 },
    )

-- The account's seat is given back, if it has one.
unfoldable pub leave : ℕ → Roster → Roster
leave user_id roster = record {
  enrolled = λ v. not (user_id == v) && roster.enrolled v;
  free = if roster.enrolled user_id then roster.free + 1 else roster.free;
}

-- The roster that the table holds for a session.
unfoldable pub roster_of : GroupSession → List Registration → Roster
roster_of g rs = record {
  enrolled = λ v. is_registered g.id v rs;
  free = g.capacity - seats_taken g.id rs;
}

Roster-eq : (a b : Roster) → ((v : ℕ) → a.enrolled v ≡ b.enrolled v) → a.free ≡ b.free → a ≡ b
Roster-eq a b e f = λ i. record { enrolled = λ v. e v i; free = f i }

-- What the transaction and its handler come to.
pub seat_taken :
    (id capacity user_id answer : ℕ) (s : Store)
    → let count = seats_taken id s.registrations in
      on_unique (transaction (take_seat id capacity user_id)) answer s ≡ (
        if leb capacity count
        then (err full, s)
        else if is_registered id user_id s.registrations
        then (ok answer, s)
        else (
          ok (capacity - count - 1),
          record s { registrations = seat id user_id ∷ s.registrations },
        ))
unfolding take_seat insert_registration
seat_taken id capacity user_id answer s =
    elim (Bool-cases (leb capacity (seats_taken id s.registrations))) [
      | inl none_left ↦ rw none_left refl
      | inr left ↦ rw left (elim (Bool-cases (is_registered id user_id s.registrations)) [
        | inl there ↦ rw there refl
        | inr new ↦ rw new refl
      ])
    ]

-- `register` on a session that is open, by an account in good standing.
open_register :
    (now : Instant) (id user_id : ℕ) (s : Store) (g : GroupSession)
    → find_session id s ≡ some g
    → g.cancelled_at ≡ none
    → leb g.ends_at now ≡ false
    → assert_in_good_standing user_id s ≡ (ok tt, s)
    → register now id user_id s
      ≡ on_unique
          (transaction (take_seat id g.capacity user_id))
          (g.capacity - seats_taken id s.registrations)
          s
unfolding register register_for
open_register now id user_id s g found running later good = rw (found, running, later, good) refl

module _ (user_id : ℕ) (s : Store) (g : GroupSession) where
  abbrev count : ℕ
  count = seats_taken g.id s.registrations

  seat-join :
      let roster = join user_id (roster_of g s.registrations) in
      let settled =
        on_unique (transaction (take_seat g.id g.capacity user_id)) (g.capacity - count) s in
      (settled.0 ≡ roster.0) × (roster_of g settled.1.registrations ≡ roster.1)
  unfolding join roster_of
  seat-join =
      rw (seat_taken g.id g.capacity user_id (g.capacity - count) s)
        (elim (Bool-cases (leb g.capacity count)) [
          | inl none_left ↦
              let free : g.capacity - count ≡ 0 = ground arith in rw (none_left, free) (refl, refl)
          | inr left ↦
              let some_free : (g.capacity - count == 0) ≡ false = ground arith in
              rw (left, some_free)
                (elim (Bool-cases (is_registered g.id user_id s.registrations)) [
                  | inl there ↦ rw there (refl, refl)
                  | inr new ↦ rw new (
                    refl,
                    Roster-eq _ _
                        (λ v. registered-seat g.id user_id v s.registrations ∙ ground arith)
                        (ground (arith, seats-seat g.id user_id g.id s.registrations)),
                  )
                ])
        ])

-- For a session that is stored, not cancelled and not over, and an account in good standing,
-- `register` answers what joining the roster answers, and leaves the roster that joining leaves: it
-- throws `full` where no seat is left and changes nothing, returns the seats that are left to who is
-- in already, and otherwise enrols the account and takes one seat.
pub register-join :
    (now : Instant) (user_id : ℕ) (s : Store) (g : GroupSession)
    → find_session g.id s ≡ some g
    → g.cancelled_at ≡ none
    → leb g.ends_at now ≡ false
    → assert_in_good_standing user_id s ≡ (ok tt, s)
    → ((register now g.id user_id s).0 ≡ (join user_id (roster_of g s.registrations)).0)
      × (roster_of g (register now g.id user_id s).1.registrations
          ≡ (join user_id (roster_of g s.registrations)).1)
register-join now user_id s g found running later good =
    rw (open_register now g.id user_id s g found running later good) (seat-join user_id s g)

-- In a table without double registrations, and for a session with no more registrations than seats,
-- `unregister` leaves the roster that leaving leaves: the account is out, its seat is free if it had
-- one, and nobody else is touched.
pub unregister-leave :
    (user_id : ℕ) (s : Store) (g : GroupSession)
    → unique s.registrations ≡ true
    → seats_taken g.id s.registrations ≤ g.capacity
    → roster_of g (unregister g.id user_id s).1.registrations
      ≡ leave user_id (roster_of g s.registrations)
unfolding unregister leave roster_of
unregister-leave user_id s g once fits =
    Roster-eq _ _ (λ v. registered-without g.id user_id v s.registrations)
      (let given_back = seats-without g.id user_id s.registrations once in ground arith)
